-- ===== src/Scheduler/Store/Leases/Loop.antt =====
-- scheduler/firestore/store.go: the loop of `ClaimDue`, step by step: which documents are leased,
-- and which are passed over.
use push_dispatch.Base.{
  ℕ, ◌+◌, ◌≤◌, ◌<◌, ◌≡◌, ◌≢◌, ◌⊎◌, inl, inr, refl, ◌∙◌, ap, ◌++◌, String, false, true, ◌==◌, Option,
  none, some, List, [], ◌∷◌, Time, length, str_eq, str_eq_refl, arith, Bool-cases, if◌then◌else◌,
}
use push_dispatch.Push.Errors.{Error, Result-cases, Result, ok, err}
use push_dispatch.Scheduler.Job.{State, ready, Job, Texts}
use push_dispatch.Scheduler.Store.{
  Read, found, not_found, undecodable, unavailable, abort, commit, Documents, is_ready, lease_job,
  claim_body, claim_loop,
}
use push_dispatch.Scheduler.Store.Laws.{IsFirestore, Same, written}

pub ready_of : (s : State) → is_ready s ≡ true → s ≡ ready
ready_of ready h = refl
ready_of _ h = absurd (ground arith)

-- The document `key` was a ready job of the shard, and due; it is now leased to the holder of the
-- token until the end of the lease, and otherwise as before, as are the other documents.
pub record IsLeased (now : Time) (shard lease : ℕ) (token key : String)
    (before after : String → Read) (job : Job) : Type 0 where
  pub previous : Job
  pub was : before key ≡ found previous
  pub was_ready : previous.state ≡ ready
  pub was_of_shard : previous.shard ≡ shard
  pub was_due : previous.available_at ≤ now
  pub leased_to : job.lease_token ≡ token
  pub leased_until : job.available_at ≡ now + lease
  pub claimed_at : job.updated_at ≡ now
  pub same_id : job.id ≡ previous.id
  pub same_recipient : job.recipient_id ≡ previous.recipient_id
  pub same_daily : job.daily ≡ previous.daily
  pub same_message : job.message ≡ previous.message
  pub is_ready : job.state ≡ ready
  pub of_shard : job.shard ≡ shard
  pub same_due : job.due_at ≡ previous.due_at
  pub same_attempts : job.attempts ≡ previous.attempts
  pub same_completed : job.completed ≡ previous.completed
  pub same_invalid : job.invalid_targets ≡ previous.invalid_targets
  pub same_error : job.last_error ≡ previous.last_error
  pub same_failure : job.has_permanent_failure ≡ previous.has_permanent_failure
  pub stored : after key ≡ found job
  pub others : (j : String) → str_eq key j ≡ false → after j ≡ before j

-- A document that is no job to claim: it is gone, or is not ready, or of another shard, or not due.
abbrev pub NotDue : Time → ℕ → Read → Type 0
NotDue now shard read =
    (read ≡ not_found)
    ⊎ (job : Job) × (read ≡ found job)
      × ((job.state ≢ ready) ⊎ (job.shard ≢ shard) ⊎ (now < job.available_at))

unready : (s : State) → is_ready s ≡ false → s ≢ ready
unready s h e = absurd (ground (arith, e))

other_shard : (m n : ℕ) → (m == n) ≡ false → m ≢ n
other_shard m n h e = absurd (ground (arith, e))

claim_body-NotDue :
    (now : Time) (shard lease : ℕ) (token : String) (read : Read)
    → claim_body now shard lease token read ≡ commit none
    → NotDue now shard read
unfolding claim_body
claim_body-NotDue now shard lease token not_found h = inl refl
claim_body-NotDue now shard lease token (found job) h = elim (Bool-cases (is_ready job.state)) [
  | inr closed ↦ inr (job, refl, inl (unready job.state closed))
  | inl is_open ↦ elim (Bool-cases (job.shard == shard)) [
    | inr other ↦ inr (job, refl, inr (inl (other_shard job.shard shard other)))
    | inl same ↦ inr (job, refl, inr (inr (ground arith)))
  ]
]
claim_body-NotDue now shard lease token _ h = absurd (ground arith)

claim_body-IsLeased :
    (now : Time) (shard lease : ℕ) (token key : String) (before after : String → Read) (job : Job)
    → claim_body now shard lease token (before key) ≡ commit (some job)
    → Same after (written key (some job) before)
    → IsLeased now shard lease token key before after job
unfolding claim_body
claim_body-IsLeased now shard lease token key before after job h wrote = by_read (before key) refl h
  where
    by_read :
        (read : Read)
        → before key ≡ read
        → claim_body now shard lease token read ≡ commit (some job)
        → IsLeased now shard lease token key before after job
    by_read (found previous) was h =
        let open_before = ready_of previous.state (ground arith) in
        let same : job ≡ lease_job now lease token previous = ground arith in
        record {
          previous = previous;
          was = was;
          was_ready = open_before;
          was_of_shard = ground arith;
          was_due = ground arith;
          leased_to = ap (λ (j : Job). j.lease_token) same;
          leased_until = ap (λ (j : Job). j.available_at) same;
          claimed_at = ap (λ (j : Job). j.updated_at) same;
          same_id = ap (λ (j : Job). j.id) same;
          same_recipient = ap (λ (j : Job). j.recipient_id) same;
          same_daily = ap (λ (j : Job). j.daily) same;
          same_message = ap (λ (j : Job). j.message) same;
          is_ready = ap (λ (j : Job). j.state) same ∙ open_before;
          of_shard = ground (arith, same);
          same_due = ap (λ (j : Job). j.due_at) same;
          same_attempts = ap (λ (j : Job). j.attempts) same;
          same_completed = ap (λ (j : Job). j.completed) same;
          same_invalid = ap (λ (j : Job). j.invalid_targets) same;
          same_error = ap (λ (j : Job). j.last_error) same;
          same_failure = ap (λ (j : Job). j.has_permanent_failure) same;
          stored = wrote key ∙ rw (str_eq_refl key) refl;
          others = λ j differs. wrote j ∙ rw differs refl;
        }
    by_read _ was h = absurd (ground arith)

-- The callback itself fails only where it cannot read the document, and with the error of the read.
abbrev pub FailsByRead : Time → ℕ → ℕ → String → Type 0
FailsByRead now shard lease token =
    (read : Read) (e : Error)
    → claim_body now shard lease token read ≡ abort e
    → (read ≡ undecodable e) ⊎ (read ≡ unavailable e)

claim_body-FailsByRead :
    (now : Time) (shard lease : ℕ) (token : String) → FailsByRead now shard lease token
unfolding claim_body
claim_body-FailsByRead now shard lease token (found job) e h = absurd (ground arith)
claim_body-FailsByRead now shard lease token not_found e h = absurd (ground arith)
claim_body-FailsByRead now shard lease token (undecodable x) e h = inl (ground arith)
claim_body-FailsByRead now shard lease token (unavailable x) e h = inr (ground arith)

append_assoc : (xs : List Job) (x : Job) (ys : List Job) → (xs ++ (x ∷ [])) ++ ys ≡ xs ++ (x ∷ ys)
append_assoc [] x ys = refl
append_assoc (y ∷ xs) x ys = ap (λ zs. y ∷ zs) (append_assoc xs x ys)

append_nil : (xs : List Job) → xs ≡ xs ++ []
append_nil [] = refl
append_nil (x ∷ xs) = ap (λ zs. x ∷ zs) (append_nil xs)

module _ {W : Type 0} (documents : Documents W) (stored : W → String → Read) (now : Time)
    (shard lease : ℕ) where
  -- The transaction of `ClaimDue` on one document, after the token for it was made.
  abbrev pub attempt : String → W → Result (Option Job) × W
  attempt key w =
      let (token, w₁) = documents.new_token w in
      documents.transact key (claim_body now shard lease token) w₁

  -- The loop of `ClaimDue` over the keys, from a world on: the jobs it hands out, its error, and
  -- the world it ends in. Each document is leased with a token of its own, or passed over,
  -- unchanged; the loop ends after the last document or at the first error.
  pub data Claims : W → List String → List Job → Option Error → W → Type 0 where
    over : (w : W) → Claims w [] [] none w
    broken :
        (w : W) (key : String) (keys : List String) (e : Error)
        → (attempt key w).0 ≡ err e
        → FailsByRead now shard lease (documents.new_token w).0
        → Claims w (key ∷ keys) [] (some e) (attempt key w).1
    passed :
        (w w' : W) (key : String) (keys : List String) (jobs : List Job) (e : Option Error)
        → NotDue now shard (stored w key)
        → Same (stored (attempt key w).1) (stored w)
        → Claims (attempt key w).1 keys jobs e w'
        → Claims w (key ∷ keys) jobs e w'
    claimed :
        (w w' : W) (key : String) (keys : List String) (job : Job) (jobs : List Job)
        (e : Option Error)
        → IsLeased now shard lease
            (documents.new_token w).0
            key
            (stored w)
            (stored (attempt key w).1)
            job
        → Claims (attempt key w).1 keys jobs e w'
        → Claims w (key ∷ keys) (job ∷ jobs) e w'

  -- No more jobs than keys are handed out.
  pub length-Claims :
      (w w' : W) (keys : List String) (jobs : List Job) (e : Option Error)
      → Claims w keys jobs e w'
      → length jobs ≤ length keys
  length-Claims w w' _ _ _ (over _) = omega arith
  length-Claims w w' _ _ _ (broken _ key keys x h f) = omega arith
  length-Claims w w' _ _ _ (passed _ _ key keys jobs e due same rest) =
      omega (arith, length-Claims (attempt key w).1 w' keys jobs e rest)
  length-Claims w w' _ _ _ (claimed _ _ key keys job jobs e leased rest) =
      omega (arith, length-Claims (attempt key w).1 w' keys jobs e rest)

  -- What the loop adds to the jobs claimed before.
  pub record IsLoop (before : List Job) (keys : List String) (w : W)
      (r : (List Job × Option Error) × W) : Type 0 where
    pub jobs : List Job
    pub added : r.0.0 ≡ before ++ jobs
    pub claims : Claims w keys jobs r.0.1 r.1

  module _ (texts : Texts) (firestore : IsFirestore documents stored) where
    -- A transaction that ends without an error has read the documents before the token was made.
    attempt-written :
        (key : String) (w : W) (write : Option Job)
        → (attempt key w).0 ≡ ok write
        → (claim_body now shard lease (documents.new_token w).0 (stored w key) ≡ commit write)
          × Same (stored (attempt key w).1) (written key write (stored w))
    attempt-written key w none h =
        let (saw, wrote) = firestore.transact_done key _ _ none h in
        let before = firestore.token_effect w in (rw (before key) at saw, λ j. wrote j ∙ before j)
    attempt-written key w (some job) h =
        let (saw, wrote) = firestore.transact_done key _ _ (some job) h in
        let before = firestore.token_effect w in
        (
          rw (before key) at saw,
          λ j. wrote j ∙ ap (λ r. if str_eq key j then found job else r) (before j),
        )

    pub claim_loop-IsLoop :
        (before : List Job) (keys : List String) (w : W)
        → IsLoop before keys w (claim_loop texts documents now shard lease before keys w)
    unfolding claim_loop
    claim_loop-IsLoop before [] w = record { jobs = []; added = append_nil before; claims = over w }
    claim_loop-IsLoop before (key ∷ keys) w = elim (Result-cases (attempt key w).0) [
      | inr (e, h) ↦
          rw (h, claim_loop)
            (record {
              jobs = [];
              added = append_nil before;
              claims = broken w key keys e h (claim_body-FailsByRead now shard lease _);
            })
      | inl (none, h) ↦
          let (saw, wrote) = attempt-written key w none h in
          let rest = claim_loop-IsLoop before keys (attempt key w).1 in
          rw (h, claim_loop)
            (record {
              jobs = rest.jobs;
              added = rest.added;
              claims =
                  passed w _ key keys rest.jobs _ (claim_body-NotDue now shard lease _ _ saw) wrote
                    rest.claims;
            })
      | inl (some job, h) ↦
          let (saw, wrote) = attempt-written key w (some job) h in
          let rest = claim_loop-IsLoop (before ++ (job ∷ [])) keys (attempt key w).1 in
          rw (h, claim_loop)
            (record {
              jobs = job ∷ rest.jobs;
              added = rest.added ∙ append_assoc before job rest.jobs;
              claims =
                  claimed w _ key keys job rest.jobs _
                    (claim_body-IsLeased now shard lease _ key _ _ job saw wrote) rest.claims;
            })
    ]
