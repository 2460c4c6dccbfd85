-- ===== src/Scheduler/Tick.antt =====
-- scheduler/worker.go: `Tick`, the loop that claims and delivers due jobs of a shard.
pub mod Counts
use push_dispatch.Base.{
  ℕ, zero, suc, ◌+◌, ◌-◌, ◌*◌, ◌^◌, Bool, true, false, ◌&&◌, ◌||◌, not, Option, none, some, List,
  [], ◌∷◌, ℤ, pos, negsuc, Time, ltb, leb, ◌==◌, max_duration, second, minute, if◌then◌else◌,
}
use push_dispatch.Push.Errors.{Error, plain}
use push_dispatch.Scheduler.Job.{State, ready, done, failed, canceled, Job, shard_count}
use push_dispatch.Scheduler.Worker.{Services, deliver}

-- What `Tick` uses of the interface `Store`, and `ctx.Err()`.
pub record JobStore (W : Type 0) : Type 0 where
  pub stopped : W → Option Error
  pub claim_due : Time → ℕ → ℕ → ℤ → W → (List Job × Option Error) × W
  pub finish : Job → Job → W → Option Error × W

pub record Report : Type 0 where
  pub claimed : ℕ
  pub completed : ℕ
  pub retrying : ℕ
  pub failed_jobs : ℕ

abbrev pub no_report : Report
no_report = record { claimed = 0; completed = 0; retrying = 0; failed_jobs = 0 }

abbrev pub is_failed : State → Bool
is_failed failed = true
is_failed _ = false

-- The `switch` at the end of a round.
unfoldable pub count_job : Job → Report → Report
count_job updated r =
    if is_failed updated.state
    then record r { failed_jobs = r.failed_jobs + 1 }
    else if ltb 0 updated.attempts
    then record r { retrying = r.retrying + 1 }
    else record r { completed = r.completed + 1 }

-- The loop of `Tick`, with `left` rounds before `n` reaches the limit.
unfoldable pub tick_loop :
    {W : Type 0} → Services W → JobStore W → ℕ → ℤ → ℕ → Report → W → (Report × Option Error) × W
tick_loop s store shard lease zero report w = ((report, none), w)
tick_loop s store shard lease (suc left) report w =
    let (t, w₁) = s.now w in
    let ((jobs, claim_err), w₂) = store.claim_due t shard 1 lease w₁ in
    let claimed = record report { claimed = report.claimed + 1 } in
    elim (store.stopped w) [
      | some e ↦ ((report, some e), w)
      | none ↦ elim claim_err [
        | some e ↦ ((report, some e), w₂)
        | none ↦ elim jobs [
          | [] ↦ ((report, none), w₂)
          | job ∷ _ ↦
              let (updated, w₃) = deliver s job w₂ in
              let (finish_err, w₄) = store.finish job updated w₃ in
              elim finish_err [
                | some e ↦ ((claimed, some e), w₄)
                | none ↦ tick_loop s store shard lease left (count_job updated claimed) w₄
              ]
        ]
      ]
    ]

-- A zero duration takes its default.
abbrev pub or_duration : ℤ → ℕ → ℤ
or_duration (pos zero) fallback = pos fallback
or_duration (pos (suc n)) fallback = pos (suc n)
or_duration (negsuc n) fallback = negsuc n

-- `SendTimeout <= 0 || Lease < SendTimeout+30*time.Second`, where the sum of 64 bits wraps around
-- to a negative duration, 2 ^ 64 nanoseconds less.
abbrev pub sum_wraps : ℕ → Bool
sum_wraps timeout = ltb max_duration (timeout + 30 * second)

abbrev pub lease_too_short : ℤ → ℤ → Bool
lease_too_short (pos lease) (pos timeout) =
    (timeout == 0) || not (sum_wraps timeout) && ltb lease (timeout + 30 * second)
lease_too_short (negsuc lease) (pos timeout) =
    (timeout == 0) || not (sum_wraps timeout) || ltb (2 ^ 64 - (timeout + 30 * second)) (lease + 1)
lease_too_short lease (negsuc timeout) = true

-- `shard < 0 || shard >= ShardCount || limit < 1 || limit > 1000`.
abbrev pub bad_range : ℤ → ℤ → Bool
bad_range (pos shard) (pos limit) = leb shard_count shard || ltb limit 1 || ltb 1000 limit
bad_range _ _ = true

abbrev pub to_ℕ : ℤ → ℕ
to_ℕ (pos n) = n
to_ℕ (negsuc n) = 0

-- `Tick`; `configured` says that none of the store, the targets and the sender is nil.
unfoldable pub tick :
    {W : Type 0} → Services W → JobStore W → Bool → ℤ → ℤ → ℤ → ℤ → W → (Report × Option Error) × W
tick s store configured lease send_timeout shard limit w =
    let lease' = or_duration lease (5 * minute) in
    let timeout' = or_duration send_timeout (4 * minute) in
    let run = tick_loop s store (to_ℕ shard) lease' (to_ℕ limit) no_report w in
    if not configured
    then ((no_report, some (plain "store, targets, and sender are required")), w)
    else if bad_range shard limit
    then ((no_report, some (plain "invalid shard or limit")), w)
    else if lease_too_short lease' timeout'
    then ((no_report, some (plain "lease must exceed send timeout by at least 30 seconds")), w)
    else run
