-- ===== src/Scheduler/Store/Leases.antt =====
-- Leases: which jobs `ClaimDue` hands out, and which acknowledgements `Finish` takes.
pub mod Loop
use push_dispatch.Base.{
  ℕ, ◌+◌, ◌≤◌, ◌≡◌, ◌≢◌, inl, inr, refl, ap, subst, ◌∙◌, ◌++◌, String, Bool, false, ◌&&◌, not,
  Option, none, some, List, [], ◌∷◌, ℤ, pos, ◌<◌, Time, All, All-append, length, length-append,
  str_eq, str_eq_iff, str_eq_refl, arith,
}
use push_dispatch.Push.Errors.{Error, plain, Result-cases, Result, ok, err}
use push_dispatch.Scheduler.Job.{State, ready, Job, Texts, job_key}
use push_dispatch.Scheduler.Store.{
  Read, found, commit, Documents, is_ready, lease_job, claim_body, finish_body, finish,
}
use push_dispatch.Scheduler.Store.Laws.{IsFirestore, Same, written}
use push_dispatch.Scheduler.Store.Leases.Loop.{ready_of, Claims}

-- The stored job still has the lease of the claimed one.
abbrev pub holds_lease : Job → Read → Bool
holds_lease claimed (found current) =
    is_ready current.state
    && str_eq current.lease_token claimed.lease_token
    && not (str_eq claimed.lease_token "")
holds_lease claimed _ = false

-- What a committed acknowledgement has seen.
pub record HasLease (claimed job current : Job) : Type 0 where
  pub same_token : current.lease_token ≡ claimed.lease_token
  pub leased : claimed.lease_token ≢ ""
  pub still_ready : current.state ≡ ready
  pub same_id : job.id ≡ current.id
  pub same_recipient : job.recipient_id ≡ current.recipient_id

finish_body-commit :
    (claimed job : Job) (read : Read) (write : Option Job)
    → finish_body claimed job read ≡ commit write
    → (write ≡ some job) × (current : Job) × (read ≡ found current) × HasLease claimed job current
unfolding finish_body
finish_body-commit claimed job (found current) write h = (
  ground arith,
  current,
  refl,
  record {
    same_token = ground (arith, str_eq_iff current.lease_token claimed.lease_token);
    leased = ground (arith, str_eq_iff claimed.lease_token "");
    still_ready = ready_of current.state (ground arith);
    same_id = ground (arith, str_eq_iff job.id current.id);
    same_recipient = ground (arith, str_eq_iff job.recipient_id current.recipient_id);
  },
)
finish_body-commit claimed job _ write h = absurd (ground arith)

module _ {W : Type 0} (texts : Texts) (documents : Documents W) (stored : W → String → Read)
    (firestore : IsFirestore documents stored) where
  abbrev key_of : Job → String
  key_of job = job_key texts job.recipient_id job.id

  -- An acknowledgement that `Finish` takes was made on a stored job that is ready, has the same
  -- token as the claimed one, which is not empty, and keeps its identity; the updated job is then
  -- stored in its place, and no other document is changed.
  pub finish_done :
      (claimed job : Job) (w : W)
      → (finish texts documents claimed job w).0 ≡ none
      → (current : Job) × (stored w (key_of claimed) ≡ found current)
        × HasLease claimed job current
        × Same
            (stored (finish texts documents claimed job w).1)
            (written (key_of claimed) (some job) (stored w))
  unfolding finish
  finish_done claimed job w h =
      let body = finish_body claimed job in
      elim (Result-cases (documents.transact (key_of claimed) body w).0) [
        | inr (e, k) ↦ absurd (ground (arith, rw (k, finish) at h))
        | inl (write, k) ↦
            let (saw, wrote) = firestore.transact_done (key_of claimed) body w write k in
            let (same, current, at, lease) =
              finish_body-commit claimed job (stored w (key_of claimed)) write saw in
            (
              current,
              at,
              lease,
              rw (k, finish)
                  (subst
                    (λ x.
                      Same (stored (documents.transact (key_of claimed) body w).1)
                        (written (key_of claimed) x (stored w)))
                    same wrote),
            )
      ]

  -- An acknowledgement for which the stored job has no more the lease of the claimed one, because
  -- it was claimed again, replaced, canceled, finished or deleted, is refused and changes nothing.
  pub finish_stale :
      (claimed job : Job) (w : W)
      → holds_lease claimed (stored w (key_of claimed)) ≡ false
      → ((finish texts documents claimed job w).0 ≢ none)
        × Same (stored (finish texts documents claimed job w).1) (stored w)
  unfolding finish
  finish_stale claimed job w h = (refused, unchanged)
    where
      no_commit :
          (write : Option Job) → finish_body claimed job (stored w (key_of claimed)) ≢ commit write
      no_commit write c =
          let (_, current, at, lease) = finish_body-commit claimed job _ write c in
          absurd (
            ground (
              arith,
              ap (holds_lease claimed) at,
              lease.same_token,
              lease.leased,
              lease.still_ready,
              str_eq_iff current.lease_token claimed.lease_token,
              str_eq_iff claimed.lease_token "",
            ))

      refused : (finish texts documents claimed job w).0 ≢ none
      refused d =
          let (current, at, lease, _) = finish_done claimed job w d in
          absurd (
            ground (
              arith,
              ap (holds_lease claimed) at,
              lease.same_token,
              lease.leased,
              lease.still_ready,
              str_eq_iff current.lease_token claimed.lease_token,
              str_eq_iff claimed.lease_token "",
            ))

      unchanged : Same (stored (finish texts documents claimed job w).1) (stored w)
      unchanged = elim (firestore.transact_effect (key_of claimed) (finish_body claimed job) w) [
        | inr (x, c, _) ↦ absurd (no_commit (some x) c)
        | inl same ↦
            elim (Result-cases
              (documents.transact (key_of claimed) (finish_body claimed job) w).0) [
                | inl (write, k) ↦ rw (k, finish) same
                | inr (e, k) ↦ rw (k, finish) same
              ]
      ]

  -- Once an acknowledgement that gives up the lease is taken, no other one of the same claim is,
  -- and none changes anything.
  pub finish_once :
      (claimed job again : Job) (w : W)
      → (finish texts documents claimed job w).0 ≡ none
      → job.lease_token ≡ ""
      → let w' = (finish texts documents claimed job w).1 in
        ((finish texts documents claimed again w').0 ≢ none)
        × Same (stored (finish texts documents claimed again w').1) (stored w')
  finish_once claimed job again w d released =
      let (current, at, lease, wrote) = finish_done claimed job w d in
      let now_stored : stored (finish texts documents claimed job w).1 (key_of claimed)
          ≡ found job =
        wrote (key_of claimed) ∙ rw (str_eq_refl (key_of claimed)) in
      finish_stale claimed again _ (
        ap (holds_lease claimed) now_stored
        ∙ ground (
          arith,
          released,
          str_eq_iff job.lease_token claimed.lease_token,
          str_eq_iff claimed.lease_token "",
        ))

-- The options that `ClaimDue` takes, as numbers: one of 32 shards, a limit from 1 to 1000, and a
-- positive lease.
pub record AreOptions (shard limit lease : ℤ) (n m l : ℕ) : Type 0 where
  pub is_shard : shard ≡ pos n
  pub in_shards : n < 32
  pub is_limit : limit ≡ pos m
  pub some_limit : 1 ≤ m
  pub small_limit : m ≤ 1000
  pub is_lease : lease ≡ pos l
  pub some_lease : 1 ≤ l

module _ {W : Type 0} (documents : Documents W) (stored : W → String → Read) where
  -- What `ClaimDue` does: it refuses its options and reads nothing; its query fails; or it goes
  -- through at most `limit` keys that the query gives.
  pub data IsClaim (now : Time) (shard limit lease : ℤ) (w : W) (r : (List Job × Option Error) × W)
      : Type 0 where
    refused :
        ((n m l : ℕ) → ¬ AreOptions shard limit lease n m l)
        → r ≡ (([], some (plain "invalid claim options")), w)
        → IsClaim now shard limit lease w r
    unlisted :
        (n m l : ℕ) (e : Error)
        → AreOptions shard limit lease n m l
        → (documents.query ready n now m w).0 ≡ err e
        → r ≡ (([], some e), (documents.query ready n now m w).1)
        → IsClaim now shard limit lease w r
    listed :
        (n m l : ℕ) (keys : List String)
        → AreOptions shard limit lease n m l
        → (documents.query ready n now m w).0 ≡ ok keys
        → length keys ≤ m
        → Claims documents stored now n l (documents.query ready n now m w).1 keys r.0.0 r.0.1 r.1
        → length r.0.0 ≤ m
        → IsClaim now shard limit lease w r
