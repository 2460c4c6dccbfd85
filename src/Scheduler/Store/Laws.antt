-- ===== src/Scheduler/Store/Laws.antt =====
-- What scheduler/firestore/store.go relies on: a write changes one document or nothing; a call that
-- succeeds has made its write; and a transaction is atomic. What other workers do during a call is
-- done before it.
use push_dispatch.Base.{
  ℕ, ◌≤◌, ◌≡◌, ◌⊎◌, String, Option, none, some, List, [], ◌∷◌, Time, str_eq, length, if◌then◌else◌,
}
use push_dispatch.Push.Errors.{ok}
use push_dispatch.Scheduler.Job.{Job, State}
use push_dispatch.Scheduler.Store.{
  Read, found, Step, commit, Update, set_state, set_lease_token, set_updated_at, updated, missing,
  not_found, Documents,
}

abbrev pub apply_update : Update → Job → Job
apply_update (set_state s) job = record job { state = s }
apply_update (set_lease_token token) job = record job { lease_token = token }
apply_update (set_updated_at t) job = record job { updated_at = t }

abbrev pub apply_updates : List Update → Job → Job
apply_updates [] job = job
apply_updates (u ∷ us) job = apply_updates us (apply_update u job)

-- The documents after a write.
abbrev pub written : String → Option Job → (String → Read) → String → Read
written k none before j = before j
written k (some job) before j = if str_eq k j then found job else before j

abbrev pub Same : (String → Read) → (String → Read) → Type 0
Same after before = (j : String) → after j ≡ before j

pub record IsFirestore {W : Type 0} (documents : Documents W) (stored : W → String → Read)
    : Type 0 where
  pub set_effect :
      (k : String) (job : Job) (w : W)
      → Same (stored (documents.set k job w).1) (stored w)
        ⊎ Same (stored (documents.set k job w).1) (written k (some job) (stored w))
  pub get_effect : (k : String) (w : W) → Same (stored (documents.get k w).1) (stored w)
  pub update_effect :
      (k : String) (us : List Update) (w : W)
      → Same (stored (documents.update k us w).1) (stored w)
        ⊎ (job : Job) × (stored w k ≡ found job)
          × Same
              (stored (documents.update k us w).1)
              (written k (some (apply_updates us job)) (stored w))
  pub update_done :
      (k : String) (us : List Update) (w : W)
      → (documents.update k us w).0 ≡ updated
      → (job : Job) × (stored w k ≡ found job)
        × Same
            (stored (documents.update k us w).1)
            (written k (some (apply_updates us job)) (stored w))
  pub update_missing :
      (k : String) (us : List Update) (w : W)
      → (documents.update k us w).0 ≡ missing
      → stored (documents.update k us w).1 k ≡ not_found
  pub query_effect :
      (s : State) (shard : ℕ) (t : Time) (limit : ℕ) (w : W)
      → Same (stored (documents.query s shard t limit w).1) (stored w)
  pub query_limit :
      (s : State) (shard : ℕ) (t : Time) (limit : ℕ) (w : W) (keys : List String)
      → (documents.query s shard t limit w).0 ≡ ok keys
      → length keys ≤ limit
  pub transact_effect :
      (k : String) (body : Read → Step) (w : W)
      → Same (stored (documents.transact k body w).1) (stored w)
        ⊎ (job : Job) × (body (stored w k) ≡ commit (some job))
          × Same (stored (documents.transact k body w).1) (written k (some job) (stored w))
  pub transact_done :
      (k : String) (body : Read → Step) (w : W) (write : Option Job)
      → (documents.transact k body w).0 ≡ ok write
      → (body (stored w k) ≡ commit write)
        × Same (stored (documents.transact k body w).1) (written k write (stored w))
  pub token_effect : (w : W) → Same (stored (documents.new_token w).1) (stored w)
