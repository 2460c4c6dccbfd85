-- ===== src/Scheduler/Store.antt =====
-- scheduler/firestore/store.go: the schedules of an app in Firestore, claimed and finished by
-- transactions. Firestore and the random tokens are parameters. A transaction is the function that
-- its callback computes from the document; its last run counts, and it reads a whole job.
pub mod Laws
pub mod Leases
pub mod Canceled
pub mod Cancel
use push_dispatch.Base.{
  ℕ, ◌+◌, ◌++◌, String, Bool, true, false, ◌||◌, not, Option, none, some, List, [], ◌∷◌, ℤ, pos,
  negsuc, Time, str_eq, ltb, ◌==◌, if◌then◌else◌,
}
use push_dispatch.Push.Errors.{Error, plain, Result, ok, err}
use push_dispatch.Scheduler.Job.{State, ready, done, failed, canceled, Job, Texts, job_key}
use push_dispatch.Scheduler.Tick.{bad_range, to_ℕ}

-- What a read of a document gives; `undecodable` is an error of `DataTo`.
pub data Read : Type 0 where
  found : Job → Read
  not_found : Read
  undecodable unavailable : Error → Read

-- How the callback of a transaction ends: with an error, or with the write to commit, if any.
pub data Step : Type 0 where
  abort : Error → Step
  commit : Option Job → Step

-- A `firestore.Update` of one field.
pub data Update : Type 0 where
  set_state : State → Update
  set_lease_token : String → Update
  set_updated_at : Time → Update

pub data UpdateAnswer : Type 0 where
  updated missing : UpdateAnswer
  refused : Error → UpdateAnswer

-- The collection of the schedules, and `rand.Text`.
pub record Documents (W : Type 0) : Type 0 where
  pub set : String → Job → W → Option Error × W
  pub get : String → W → Read × W
  pub update : String → List Update → W → UpdateAnswer × W
  pub query : State → ℕ → Time → ℕ → W → Result (List String) × W
  pub transact : String → (Read → Step) → W → Result (Option Job) × W
  pub new_token : W → String × W

abbrev pub lease_lost : Error
lease_lost = plain "scheduler lease no longer owned"

abbrev pub is_ready : State → Bool
is_ready ready = true
is_ready _ = false

-- A job that is claimed.
abbrev pub lease_job : Time → ℕ → String → Job → Job
lease_job now lease token job = record job {
  lease_token = token;
  available_at = now + lease;
  updated_at = now;
}

-- The callback of `ClaimDue`.
unfoldable pub claim_body : Time → ℕ → ℕ → String → Read → Step
claim_body now shard lease token (found job) =
    if not (is_ready job.state) || not (job.shard == shard) || ltb now job.available_at
    then commit none
    else commit (some (lease_job now lease token job))
claim_body now shard lease token not_found = commit none
claim_body now shard lease token (undecodable e) = abort e
claim_body now shard lease token (unavailable e) = abort e

-- The callback of `Finish`.
unfoldable pub finish_body : Job → Job → Read → Step
finish_body claimed job (found current) =
    if str_eq claimed.lease_token ""
      || not (str_eq current.lease_token claimed.lease_token)
      || not (is_ready current.state)
    then abort lease_lost
    else if not (str_eq job.id current.id) || not (str_eq job.recipient_id current.recipient_id)
    then abort (plain "cannot change claimed identity")
    else commit (some job)
finish_body claimed job not_found = abort lease_lost
finish_body claimed job (undecodable e) = abort e
finish_body claimed job (unavailable e) = abort e

-- `lease <= 0`, and the nanoseconds of a lease.
abbrev pub no_lease : ℤ → Bool
no_lease (pos n) = n == 0
no_lease (negsuc n) = true

module _ {W : Type 0} (texts : Texts) (documents : Documents W) where
  -- `Put`.
  unfoldable pub put : Job → W → Option Error × W
  put job w = documents.set (job_key texts job.recipient_id job.id) job w

  -- `Get`.
  unfoldable pub get_job : String → String → W → Result Job × W
  get_job uid id w =
      let (read, w') = documents.get (job_key texts uid id) w in
      elim read [
        | found job ↦ (ok job, w')
        | not_found ↦ (err (plain "schedule not found"), w')
        | undecodable e ↦ (err e, w')
        | unavailable e ↦ (err e, w')
      ]

  -- `Cancel`.
  abbrev pub cancel_updates : Time → List Update
  cancel_updates now = set_state canceled ∷ set_lease_token "" ∷ set_updated_at now ∷ []

  unfoldable pub cancel : String → String → Time → W → Option Error × W
  cancel uid id now w =
      let (answer, w') = documents.update (job_key texts uid id) (cancel_updates now) w in
      elim answer [ updated ↦ (none, w') | missing ↦ (none, w') | refused e ↦ (some e, w') ]

  -- The loop of `ClaimDue` over the documents.
  unfoldable pub claim_loop :
      Time → ℕ → ℕ → List Job → List String → W → (List Job × Option Error) × W
  claim_loop now shard lease claimed [] w = ((claimed, none), w)
  claim_loop now shard lease claimed (key ∷ keys) w =
      let (token, w₁) = documents.new_token w in
      let (result, w₂) = documents.transact key (claim_body now shard lease token) w₁ in
      elim result [
        | err e ↦ ((claimed, some e), w₂)
        | ok won ↦ elim won [
          | none ↦ claim_loop now shard lease claimed keys w₂
          | some job ↦ claim_loop now shard lease (claimed ++ (job ∷ [])) keys w₂
        ]
      ]

  -- `ClaimDue`.
  unfoldable pub claim_due : Time → ℤ → ℤ → ℤ → W → (List Job × Option Error) × W
  claim_due now shard limit lease w =
      let (due, w') = documents.query ready (to_ℕ shard) now (to_ℕ limit) w in
      if bad_range shard limit || no_lease lease
      then (([], some (plain "invalid claim options")), w)
      else elim due [
        | err e ↦ (([], some e), w')
        | ok keys ↦ claim_loop now (to_ℕ shard) (to_ℕ lease) [] keys w'
      ]

  -- `Finish`.
  unfoldable pub finish : Job → Job → W → Option Error × W
  finish claimed job w =
      let (result, w') =
        documents.transact (job_key texts claimed.recipient_id claimed.id) (finish_body claimed job)
          w in
      elim result [ ok _ ↦ (none, w') | err e ↦ (some e, w') ]
