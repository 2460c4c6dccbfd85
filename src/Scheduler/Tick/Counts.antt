-- ===== src/Scheduler/Tick/Counts.antt =====
-- The counts that `Tick` reports.
use push_dispatch.Base.{
  ℕ, zero, suc, ◌+◌, ◌≤◌, ◌≡◌, ◌⊎◌, refl, ◌∙◌, Bool, Option, none, some, Option-cases, Bool-cases,
  List, [], ◌∷◌, inl, inr, ℤ, arith, minute, subst, sym, ◌*◌, minute, subst, sym, ◌*◌,
}
use push_dispatch.Push.Errors.{Error, plain}
use push_dispatch.Scheduler.Job.{Job}
use push_dispatch.Scheduler.Worker.{Services, deliver}
use push_dispatch.Scheduler.Tick.{
  JobStore, Report, no_report, count_job, tick_loop, tick, bad_range, lease_too_short, or_duration,
  to_ℕ,
}

abbrev total : Report → ℕ
total r = r.completed + r.retrying + r.failed_jobs

-- The jobs that are claimed are those that are counted, but for one whose acknowledgement failed;
-- and there are at most so many more than before as there are rounds.
record IsCounted (before left : ℕ) (r : Report) (e : Option Error) : Type 0 where
  at_most : r.claimed ≤ before + left
  counted : total r ≤ r.claimed
  missing_one : r.claimed ≤ total r + 1
  exact : e ≡ none → total r ≡ r.claimed

total-count_job : (j : Job) (r : Report) → total (count_job j r) ≡ suc (total r)
unfolding count_job
total-count_job j r = ground arith

claimed-count_job : (j : Job) (r : Report) → (count_job j r).claimed ≡ r.claimed
unfolding count_job
claimed-count_job j r = ground arith

List-cases : (l : List Job) → (l ≡ []) ⊎ ((j : Job) × (js : List Job) × (l ≡ j ∷ js))
List-cases [] = inl refl
List-cases (j ∷ js) = inr (j, js, refl)

module _ {W : Type 0} (s : Services W) (store : JobStore W) (shard : ℕ) (lease : ℤ) where
  tick_loop-IsCounted :
      (left : ℕ) (report : Report) (w : W)
      → total report ≡ report.claimed
      → let r = (tick_loop s store shard lease left report w).0 in
        IsCounted report.claimed left r.0 r.1
  unfolding tick_loop
  tick_loop-IsCounted zero report w e = record {
    at_most = omega arith;
    counted = omega arith;
    missing_one = omega arith;
    exact = λ _. e;
  }
  tick_loop-IsCounted (suc left) report w e = elim (Option-cases (store.stopped w)) [
    | inr (stop, h) ↦ rw (h, tick_loop) (as_before stop)
    | inl h ↦ elim (Option-cases claimed_jobs.0.1) [
      | inr (failure, k) ↦ rw (h, k, tick_loop) (as_before failure)
      | inl k ↦ elim (List-cases claimed_jobs.0.0) [
        | inl l ↦
            rw (h, k, l, tick_loop)
              (record {
                at_most = omega arith;
                counted = omega arith;
                missing_one = omega arith;
                exact = λ _. e;
              })
        | inr (job, others, l) ↦ elim (Option-cases (finish_job job).0) [
          | inr (lost, m) ↦
              rw (h, k, l, m, tick_loop)
                (record {
                  at_most = omega arith;
                  counted = omega arith;
                  missing_one = omega arith;
                  exact = λ n. absurd (ground arith);
                })
          | inl m ↦
              rw (h, k, l, m, tick_loop)
                (one_more (deliver s job claimed_jobs.1).0 (
                  tick_loop-IsCounted left (counted_job (deliver s job claimed_jobs.1).0)
                    (finish_job job).1
                    (total-count_job (deliver s job claimed_jobs.1).0 _
                      ∙ omega (
                        arith,
                        claimed-count_job (deliver s job claimed_jobs.1).0
                            (record report { claimed = report.claimed + 1 }),
                      ))))
        ]
      ]
    ]
  ]
    where
      counted_job : Job → Report
      counted_job updated = count_job updated (record report { claimed = report.claimed + 1 })

      claimed_jobs : (List Job × Option Error) × W
      claimed_jobs = store.claim_due (s.now w).0 shard 1 lease (s.now w).1

      finish_job : Job → Option Error × W
      finish_job job =
          store.finish job (deliver s job claimed_jobs.1).0 (deliver s job claimed_jobs.1).1

      one_more :
          (updated : Job) {r : Report} {x : Option Error}
          → IsCounted (counted_job updated).claimed left r x
          → IsCounted report.claimed (suc left) r x
      one_more updated v = record {
        at_most = omega (
          arith,
          v.at_most,
          claimed-count_job updated (record report { claimed = report.claimed + 1 }),
        );
        counted = v.counted;
        missing_one = v.missing_one;
        exact = v.exact;
      }

      as_before : (x : Error) → IsCounted report.claimed (suc left) report (some x)
      as_before x = record {
        at_most = omega arith;
        counted = omega arith;
        missing_one = omega arith;
        exact = λ n. absurd (ground arith);
      }

-- A refused call reports nothing and changes nothing; any other call runs the loop.
tick-cases :
    {W : Type 0} (s : Services W) (store : JobStore W) (configured : Bool)
    (lease send_timeout shard limit : ℤ) (w : W)
    → ((e : Error) × (tick s store configured lease send_timeout shard limit w
          ≡ ((no_report, some e), w)))
      ⊎ (tick s store configured lease send_timeout shard limit w
          ≡ tick_loop s store
              (to_ℕ shard)
              (or_duration lease (5 * minute))
              (to_ℕ limit)
              no_report
              w)
unfolding tick
tick-cases s store configured lease send_timeout shard limit w = elim (Bool-cases configured) [
  | inr missing ↦ inl (plain "store, targets, and sender are required", rw (missing, tick))
  | inl given ↦ elim (Bool-cases (bad_range shard limit)) [
    | inl bad ↦ inl (plain "invalid shard or limit", rw (given, bad, tick))
    | inr fine ↦
        elim (Bool-cases (
          lease_too_short (or_duration lease (5 * minute))
            (or_duration send_timeout (4 * minute)))) [
              | inl short ↦ inl (
                plain "lease must exceed send timeout by at least 30 seconds",
                rw (given, fine, short, tick),
              )
              | inr long ↦ inr (rw (given, fine, long, tick))
            ]
  ]
]

tick-IsCounted :
    {W : Type 0} (s : Services W) (store : JobStore W) (configured : Bool)
    (lease send_timeout shard limit : ℤ) (w : W)
    → let r = (tick s store configured lease send_timeout shard limit w).0 in
      IsCounted 0 (to_ℕ limit) r.0 r.1
tick-IsCounted s store configured lease send_timeout shard limit w =
    elim (tick-cases s store configured lease send_timeout shard limit w) [
      | inl (e, refused) ↦
          subst (λ (r : (Report × Option Error) × _). IsCounted 0 (to_ℕ limit) r.0.0 r.0.1)
            (sym refused)
            (record {
              at_most = omega arith;
              counted = omega arith;
              missing_one = omega arith;
              exact = λ _. refl;
            })
      | inr run ↦
          subst (λ (r : (Report × Option Error) × _). IsCounted 0 (to_ℕ limit) r.0.0 r.0.1)
            (sym run)
            (tick_loop-IsCounted s store (to_ℕ shard) (or_duration lease (5 * minute)) (to_ℕ limit)
              no_report w refl)
    ]

-- However the store, the targets and the sender answer, `Tick` claims at most `limit` jobs, and its
-- completed, retrying and failed jobs together are the claimed ones, or one fewer.
pub tick-counts :
    {W : Type 0} (s : Services W) (store : JobStore W) (configured : Bool)
    (lease send_timeout shard limit : ℤ) (w : W)
    → let r = (tick s store configured lease send_timeout shard limit w).0.0 in
      (r.claimed ≤ to_ℕ limit)
      × (r.completed + r.retrying + r.failed_jobs ≤ r.claimed)
      × (r.claimed ≤ r.completed + r.retrying + r.failed_jobs + 1)
tick-counts s store configured lease send_timeout shard limit w =
    let v = tick-IsCounted s store configured lease send_timeout shard limit w in
    (omega (arith, v.at_most), v.counted, v.missing_one)

-- Where `Tick` returns no error, its completed, retrying and failed jobs together are exactly the
-- claimed ones.
pub tick-counts_all :
    {W : Type 0} (s : Services W) (store : JobStore W) (configured : Bool)
    (lease send_timeout shard limit : ℤ) (w : W)
    → let r = (tick s store configured lease send_timeout shard limit w).0 in
      r.1 ≡ none → r.0.completed + r.0.retrying + r.0.failed_jobs ≡ r.0.claimed
tick-counts_all s store configured lease send_timeout shard limit w h =
    (tick-IsCounted s store configured lease send_timeout shard limit w).exact h
