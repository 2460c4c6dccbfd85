-- ===== src/Scheduler/Store/Cancel.antt =====
-- scheduler/firestore/store.go: `Cancel`, and the calls of all clients after it.
use push_dispatch.Base.{
  ◌≡◌, ◌≢◌, ◌⊎◌, inl, inr, refl, sym, ap, subst, ◌∙◌, String, true, false, none, List, [], ◌∷◌,
  Time, All, str_eq, str_eq_refl, arith, Bool-cases,
}
use push_dispatch.Scheduler.Job.{canceled, Job, Texts, job_key}
use push_dispatch.Scheduler.Store.{
  Read, found, not_found, undecodable, unavailable, Documents, UpdateAnswer, updated, missing,
  refused, put, get_job, cancel, cancel_updates, finish,
}
use push_dispatch.Scheduler.Store.Laws.{IsFirestore, apply_updates}
use push_dispatch.Scheduler.Store.Leases.{holds_lease, finish_stale}
use push_dispatch.Scheduler.Store.Canceled.{
  is_canceled, is_ready_canceled, Op, put_op, get_op, cancel_op, claim_op, finish_op, Spares,
  run_op, run_ops, CanceledAt, Same-CanceledAt, claim_due-CanceledAt, finish-CanceledAt,
}

module _ {W : Type 0} (texts : Texts) (documents : Documents W) (stored : W → String → Read)
    (firestore : IsFirestore documents stored) where
  abbrev At : String → W → Type 0
  At k w = CanceledAt texts documents stored firestore k w

  update-CanceledAt :
      (key k : String) (now : Time) (w : W)
      → At k w
      → At k (documents.update key (cancel_updates texts documents now) w).1
  update-CanceledAt key k now w h =
      elim (firestore.update_effect key (cancel_updates texts documents now) w) [
        | inl same ↦ Same-CanceledAt texts documents stored firestore k w _ same h
        | inr (job, at, wrote) ↦ elim (Bool-cases (str_eq key k)) [
          | inr other ↦ ap is_canceled (wrote k) ∙ rw other h
          | inl same ↦ ap is_canceled (wrote k) ∙ rw same refl
        ]
      ]

  cancel-CanceledAt :
      (uid id : String) (now : Time) (k : String) (w : W)
      → At k w
      → At k (cancel texts documents uid id now w).1
  unfolding cancel
  cancel-CanceledAt uid id now k w h =
      subst (At k) (sym (cancel_world (documents.update _ _ w).0 refl))
        (update-CanceledAt (job_key texts uid id) k now w h)
    where
      cancel_world :
          (a : UpdateAnswer)
          → (documents.update (job_key texts uid id) (cancel_updates texts documents now) w).0 ≡ a
          → (cancel texts documents uid id now w).1
            ≡ (documents.update (job_key texts uid id) (cancel_updates texts documents now) w).1
      cancel_world updated g = rw (g, cancel)
      cancel_world missing g = rw (g, cancel)
      cancel_world (refused e) g = rw (g, cancel)

  get_job-CanceledAt :
      (uid id : String) (k : String) (w : W) → At k w → At k (get_job texts documents uid id w).1
  unfolding get_job
  get_job-CanceledAt uid id k w h = subst (At k) (sym (get_world (documents.get _ w).0 refl)) (
      Same-CanceledAt texts documents stored firestore k w _
        (firestore.get_effect (job_key texts uid id) w) h)
    where
      get_world :
          (r : Read)
          → (documents.get (job_key texts uid id) w).0 ≡ r
          → (get_job texts documents uid id w).1 ≡ (documents.get (job_key texts uid id) w).1
      get_world (found job) g = rw (g, get_job)
      get_world not_found g = rw (g, get_job)
      get_world (undecodable e) g = rw (g, get_job)
      get_world (unavailable e) g = rw (g, get_job)

  put-CanceledAt :
      (job : Job) (k : String) (w : W)
      → str_eq (job_key texts job.recipient_id job.id) k ≡ false
      → At k w
      → At k (put texts documents job w).1
  unfolding put
  put-CanceledAt job k w other h =
      elim (firestore.set_effect (job_key texts job.recipient_id job.id) job w) [
        | inl same ↦ Same-CanceledAt texts documents stored firestore k w _ same h
        | inr wrote ↦ ap is_canceled (wrote k) ∙ rw other h
      ]

  run_op-CanceledAt :
      (op : Op) (k : String) (w : W)
      → Spares texts k op
      → At k w
      → At k (run_op texts documents op w)
  unfolding run_op
  run_op-CanceledAt (put_op job) k w s h = put-CanceledAt job k w s h
  run_op-CanceledAt (get_op uid id) k w s h = get_job-CanceledAt uid id k w h
  run_op-CanceledAt (cancel_op uid id now) k w s h = cancel-CanceledAt uid id now k w h
  run_op-CanceledAt (claim_op now shard limit lease) k w s h =
      claim_due-CanceledAt texts documents stored firestore now shard limit lease k w h
  run_op-CanceledAt (finish_op claimed job) k w s h =
      finish-CanceledAt texts documents stored firestore claimed job k w h

  run_ops-CanceledAt :
      (ops : List Op) (k : String) (w : W)
      → All (Spares texts k) ops
      → At k w
      → At k (run_ops texts documents ops w)
  unfolding run_ops
  run_ops-CanceledAt [] k w s h = h
  run_ops-CanceledAt (op ∷ ops) k w s h =
      run_ops-CanceledAt ops k (run_op texts documents op w) s.1 (run_op-CanceledAt op k w s.0 h)

  -- For a Firestore that does what it documents: once a schedule is canceled, then after any calls of
  -- any clients but one that puts a new schedule in its place it is still canceled, and `Finish`
  -- refuses each acknowledgement of it.
  pub run_ops-canceled :
      (ops : List Op) (claimed job : Job) (w : W)
      → is_canceled (stored w (job_key texts claimed.recipient_id claimed.id)) ≡ true
      → All (Spares texts (job_key texts claimed.recipient_id claimed.id)) ops
      → let w' = run_ops texts documents ops w in
        (is_canceled (stored w' (job_key texts claimed.recipient_id claimed.id)) ≡ true)
        × ((finish texts documents claimed job w').0 ≢ none)
  run_ops-canceled ops claimed job w h s =
      let key = job_key texts claimed.recipient_id claimed.id in
      let still = run_ops-CanceledAt ops key w s h in
      (
        still,
        (finish_stale texts documents stored firestore claimed job (run_ops texts documents ops w)
            (no_lease_left (stored (run_ops texts documents ops w) key) still)).0,
      )
    where
      no_lease_left : (read : Read) → is_canceled read ≡ true → holds_lease claimed read ≡ false
      no_lease_left (found current) g = ground (arith, is_ready_canceled current.state)
      no_lease_left _ g = absurd (ground arith)

  -- A call of `Cancel` that returns no error leaves no schedule of the key, or a canceled one with no
  -- lease.
  pub cancel_done :
      (uid id : String) (now : Time) (w : W)
      → (cancel texts documents uid id now w).0 ≡ none
      → let read = stored (cancel texts documents uid id now w).1 (job_key texts uid id) in
        (read ≡ not_found)
        ⊎ (job : Job) × (read ≡ found job) × (job.state ≡ canceled) × (job.lease_token ≡ "")
  unfolding cancel
  cancel_done uid id now w h = by_answer (documents.update _ _ w).0 refl
    where
      key : String
      key = job_key texts uid id

      after : UpdateAnswer × W
      after = documents.update key (cancel_updates texts documents now) w

      by_answer :
          (a : UpdateAnswer)
          → after.0 ≡ a
          → let read = stored (cancel texts documents uid id now w).1 key in
            (read ≡ not_found)
            ⊎ (job : Job) × (read ≡ found job) × (job.state ≡ canceled) × (job.lease_token ≡ "")
      by_answer updated g =
          let (job, at, wrote) =
            firestore.update_done key (cancel_updates texts documents now) w g in
          rw (g, cancel)
            (inr (
              apply_updates (cancel_updates texts documents now) job,
              wrote key ∙ rw (str_eq_refl key),
              refl,
              refl,
            ))
      by_answer missing g =
          rw (g, cancel)
            (inl (firestore.update_missing key (cancel_updates texts documents now) w g))
      by_answer (refused e) g = absurd (ground (arith, rw (g, cancel) at h))
