-- ===== src/Scheduler/Store/Canceled.antt =====
-- A canceled schedule stays canceled, whatever the workers do, until it is replaced.
use push_dispatch.Base.{
  ℕ, ◌≡◌, ◌≢◌, inl, inr, refl, ap, subst, ◌∙◌, ◌++◌, String, Bool, true, false, ◌||◌, Option, none,
  some, List, [], ◌∷◌, ℤ, Time, str_eq, str_eq_iff, arith, Bool-cases,
}
use push_dispatch.Push.Errors.{Result-cases, Result}
use push_dispatch.Scheduler.Job.{State, ready, canceled, Job, Texts, job_key}
use push_dispatch.Scheduler.Tick.{bad_range, to_ℕ}
use push_dispatch.Scheduler.Store.{
  Read, found, Step, commit, Documents, is_ready, claim_body, finish_body, no_lease, put, get_job,
  cancel, claim_loop, claim_due, finish,
}
use push_dispatch.Scheduler.Store.Laws.{IsFirestore, Same}

abbrev pub has_state_canceled : State → Bool
has_state_canceled canceled = true
has_state_canceled _ = false

abbrev pub is_canceled : Read → Bool
is_canceled (found job) = has_state_canceled job.state
is_canceled _ = false

pub is_ready_canceled : (s : State) → has_state_canceled s ≡ true → is_ready s ≡ false
is_ready_canceled canceled h = refl
is_ready_canceled _ h = absurd (ground arith)

-- The calls of the store's clients.
pub data Op : Type 0 where
  put_op : Job → Op
  get_op : String → String → Op
  cancel_op : String → String → Time → Op
  claim_op : Time → ℤ → ℤ → ℤ → Op
  finish_op : Job → Job → Op

-- The call does not replace the schedule of the key.
abbrev pub Spares : Texts → String → Op → Type 0
Spares texts k (put_op job) = str_eq (job_key texts job.recipient_id job.id) k ≡ false
Spares texts k _ = Unit

-- A body that writes nothing over a canceled schedule.
abbrev Respects : (Read → Step) → Type 0
Respects body = (read : Read) (x : Job) → is_canceled read ≡ true → body read ≢ commit (some x)

claim_body-Respects :
    (now : Time) (shard lease : ℕ) (token : String) → Respects (claim_body now shard lease token)
unfolding claim_body
claim_body-Respects now shard lease token (found job) x h c =
    absurd (ground (arith, is_ready_canceled job.state))
claim_body-Respects now shard lease token _ x h c = absurd (ground arith)

finish_body-Respects : (claimed job : Job) → Respects (finish_body claimed job)
unfolding finish_body
finish_body-Respects claimed job (found current) x h c =
    absurd (ground (arith, is_ready_canceled current.state))
finish_body-Respects claimed job _ x h c = absurd (ground arith)

module _ {W : Type 0} (texts : Texts) (documents : Documents W) where
  unfoldable pub run_op : Op → W → W
  run_op (put_op job) w = (put texts documents job w).1
  run_op (get_op uid id) w = (get_job texts documents uid id w).1
  run_op (cancel_op uid id now) w = (cancel texts documents uid id now w).1
  run_op (claim_op now shard limit lease) w = (claim_due texts documents now shard limit lease w).1
  run_op (finish_op claimed job) w = (finish texts documents claimed job w).1

  -- The calls of all clients, in the order in which Firestore takes them.
  unfoldable pub run_ops : List Op → W → W
  run_ops [] w = w
  run_ops (op ∷ ops) w = run_ops ops (run_op op w)

module _ {W : Type 0} (texts : Texts) (documents : Documents W) (stored : W → String → Read)
    (firestore : IsFirestore documents stored) where
  abbrev pub CanceledAt : String → W → Type 0
  CanceledAt k w = is_canceled (stored w k) ≡ true

  pub Same-CanceledAt :
      (k : String) (w v : W) → Same (stored v) (stored w) → CanceledAt k w → CanceledAt k v
  Same-CanceledAt k w v same h = ap is_canceled (same k) ∙ h

  transact-CanceledAt :
      (key k : String) (body : Read → Step) (w : W)
      → Respects body
      → CanceledAt k w
      → CanceledAt k (documents.transact key body w).1
  transact-CanceledAt key k body w r h = elim (firestore.transact_effect key body w) [
    | inl same ↦ Same-CanceledAt k w _ same h
    | inr (x, c, wrote) ↦ elim (Bool-cases (str_eq key k)) [
      | inr other ↦ ap is_canceled (wrote k) ∙ rw other h
      | inl same ↦
          let at : k ≡ key = ground (arith, str_eq_iff key k) in
          absurd (r (stored w key) x (subst (λ j. CanceledAt j w) at h) c)
    ]
  ]

  claim_loop-CanceledAt :
      (now : Time) (shard lease : ℕ) (claimed : List Job) (keys : List String) (k : String) (w : W)
      → CanceledAt k w
      → CanceledAt k (claim_loop texts documents now shard lease claimed keys w).1
  unfolding claim_loop
  claim_loop-CanceledAt now shard lease claimed [] k w h = h
  claim_loop-CanceledAt now shard lease claimed (key ∷ keys) k w h = elim (Result-cases attempt.0) [
    | inr (e, g) ↦ rw (g, claim_loop) kept
    | inl (none, g) ↦
        rw (g, claim_loop) (claim_loop-CanceledAt now shard lease claimed keys k attempt.1 kept)
    | inl (some job, g) ↦
        rw (g, claim_loop)
          (claim_loop-CanceledAt now shard lease (claimed ++ (job ∷ [])) keys k attempt.1 kept)
  ]
    where
      token : String
      token = (documents.new_token w).0

      attempt : Result (Option Job) × W
      attempt = documents.transact key (claim_body now shard lease token) (documents.new_token w).1

      kept : CanceledAt k attempt.1
      kept =
          transact-CanceledAt key k _ _ (claim_body-Respects now shard lease token)
            (Same-CanceledAt k w _ (firestore.token_effect w) h)

  pub claim_due-CanceledAt :
      (now : Time) (shard limit lease : ℤ) (k : String) (w : W)
      → CanceledAt k w
      → CanceledAt k (claim_due texts documents now shard limit lease w).1
  unfolding claim_due
  claim_due-CanceledAt now shard limit lease k w h =
      elim (Bool-cases (bad_range shard limit || no_lease lease)) [
        | inl bad ↦ rw (bad, claim_due) h
        | inr fine ↦
            let due = documents.query ready (to_ℕ shard) now (to_ℕ limit) w in
            let kept =
              Same-CanceledAt k w due.1
                (firestore.query_effect ready (to_ℕ shard) now (to_ℕ limit) w) h in
            elim (Result-cases due.0) [
              | inr (e, g) ↦ rw (fine, g, claim_due) kept
              | inl (keys, g) ↦
                  rw (fine, g, claim_due)
                    (claim_loop-CanceledAt now (to_ℕ shard) (to_ℕ lease) [] keys k due.1 kept)
            ]
      ]

  pub finish-CanceledAt :
      (claimed job : Job) (k : String) (w : W)
      → CanceledAt k w
      → CanceledAt k (finish texts documents claimed job w).1
  unfolding finish
  finish-CanceledAt claimed job k w h =
      let key = job_key texts claimed.recipient_id claimed.id in
      let kept = transact-CanceledAt key k _ w (finish_body-Respects claimed job) h in
      elim (Result-cases (documents.transact key (finish_body claimed job) w).0) [
        | inr (e, g) ↦ rw (g, finish) kept
        | inl (x, g) ↦ rw (g, finish) kept
      ]
