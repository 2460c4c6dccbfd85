-- ===== src/Scheduler/Worker/Attempt.antt =====
-- How one attempt leaves a job: retried, given up, done, or ready for its next occurrence.
use push_dispatch.Base.{
  ◌+◌, ◌*◌, ◌^◌, ◌≤◌, ◌<◌, ◌≡◌, ◌⊎◌, inl, inr, refl, Bool, true, false, ◌||◌, none, some, is_some,
  List, [], String, minute, ltb, leb, if◌then◌else◌, Bool-cases, arith,
}
use push_dispatch.Push.Errors.{Error, Result, ok, err}
use push_dispatch.Push.Types.{Target}
use push_dispatch.Scheduler.Daily.{Daily, daily_next}
use push_dispatch.Scheduler.Daily.Next.{IsOccurrence}
use push_dispatch.Scheduler.Job.{ready, done, failed, Job, max_attempts}
use push_dispatch.Scheduler.Worker.{
  Services, retry, close_job, close_daily, close_single, begin_attempt, record_attempt,
  deliver_targets, deliver_found, deliver, attempt_acks, attempt_disabled, Acks, Disabled,
}

-- A job in the course of an attempt: what identifies it is as before, the lease is given up, and
-- the attempt is counted.
pub record IsAttempt (job j : Job) : Type 0 where
  pub same_id : j.id ≡ job.id
  pub same_recipient : j.recipient_id ≡ job.recipient_id
  pub same_daily : j.daily ≡ job.daily
  pub same_message : j.message ≡ job.message
  pub same_shard : j.shard ≡ job.shard
  pub same_due : j.due_at ≡ job.due_at
  pub same_state : j.state ≡ job.state
  pub released : j.lease_token ≡ ""
  pub counted : j.attempts ≡ job.attempts + 1

-- The world in which an attempt decides what becomes of the job: right after the lookup of the
-- targets where that fails, else after the sender has answered and the invalid targets have been
-- disabled.
abbrev pub decided_found : {W : Type 0} → Services W → Job → Result (List Target) → W → W
decided_found s job (err e) w = w
decided_found s job (ok targets) w = (attempt_disabled s job targets w).1

abbrev pub decided : {W : Type 0} → Services W → Job → W → W
decided s job w =
    let (t, w₁) = s.now w in
    let (u, w₂) = s.now w₁ in
    let (found, w₃) = s.active_targets job.recipient_id u w₂ in decided_found s job found w₃

-- Whether the attempt leaves something unresolved: the lookup fails, a target has no final result,
-- or the sending or the disabling fails.
abbrev pub found_unresolved : {W : Type 0} → Services W → Job → Result (List Target) → W → Bool
found_unresolved s job (err e) w = true
found_unresolved s job (ok targets) w =
    ltb 0 (attempt_acks s job targets w).unresolved
    || is_some (attempt_disabled s job targets w).0.error

-- Whether a target of the job failed for good, in this attempt or before.
abbrev pub found_failure : {W : Type 0} → Services W → Job → Result (List Target) → W → Bool
found_failure s job (err e) w = job.has_permanent_failure
found_failure s job (ok targets) w =
    (attempt_acks s job targets w).permanent_failure || job.has_permanent_failure

abbrev pub is_unresolved : {W : Type 0} → Services W → Job → W → Bool
is_unresolved s job w =
    let (t, w₁) = s.now w in
    let (u, w₂) = s.now w₁ in
    let (found, w₃) = s.active_targets job.recipient_id u w₂ in found_unresolved s job found w₃

abbrev pub has_failure : {W : Type 0} → Services W → Job → W → Bool
has_failure s job w =
    let (t, w₁) = s.now w in
    let (u, w₂) = s.now w₁ in
    let (found, w₃) = s.active_targets job.recipient_id u w₂ in found_failure s job found w₃

-- The two ways in which an attempt ends, once the targets are looked up.
module _ {W : Type 0} (s : Services W) (P : Job × W → Type 0) (job updated : Job) where
  if-cases :
      (c : Bool) (x y : Job × W) → (c ≡ true → P x) → (c ≡ false → P y) → P (if c then x else y)
  if-cases true x y p q = p refl
  if-cases false x y p q = q refl

  deliver_found-cases :
      (found : Result (List Target)) (w : W)
      → ((code : String)
          → found_unresolved s job found w ≡ true
          → P (retry s updated code (decided_found s job found w)))
      → ((a : Acks) (d : Disabled) (code : String)
          → found_unresolved s job found w ≡ true
          → P (retry s (record_attempt updated a d) code (decided_found s job found w)))
      → ((a : Acks) (d : Disabled)
          → found_unresolved s job found w ≡ false
          → found_failure s job found w ≡ (a.permanent_failure || job.has_permanent_failure)
          → P (close_job s (record_attempt updated a d) (decided_found s job found w)))
      → P (deliver_found s job updated found w)
  unfolding deliver_found deliver_targets
  deliver_found-cases (err e) w p q r = p "target_lookup" refl
  deliver_found-cases (ok targets) w p q r =
      let acks = attempt_acks s job targets w in
      let disabled = (attempt_disabled s job targets w).0 in
      if-cases (found_unresolved s job (ok targets) w) _ _
        (λ remains. q acks disabled "delivery_unresolved" remains)
        (λ closed. r acks disabled closed refl)

-- The two ways in which `deliver` ends.
pub deliver-cases :
    {W : Type 0} (s : Services W) (P : Job × W → Type 0) (job : Job) (w : W)
    → ((j : Job) (code : String)
        → IsAttempt job j
        → is_unresolved s job w ≡ true
        → P (retry s j code (decided s job w)))
    → ((j : Job)
        → IsAttempt job j
        → is_unresolved s job w ≡ false
        → has_failure s job w ≡ j.has_permanent_failure
        → P (close_job s j (decided s job w)))
    → P (deliver s job w)
unfolding deliver
deliver-cases s P job w retried closed =
    let (t, w₁) = s.now w in
    let (u, w₂) = s.now w₁ in
    let (found, w₃) = s.active_targets job.recipient_id u w₂ in
    let begun = begin_attempt job t in
    deliver_found-cases s P job begun found w₃ (λ code o. retried begun code (ground arith) o)
      (λ a d code o. retried (record_attempt begun a d) code (ground arith) o)
      (λ a d o f. closed (record_attempt begun a d) (ground arith) o f)

-- What an attempt makes of a job, where `v` is the world in which it decides, `unresolved` says
-- whether it leaves something unresolved, and `failure` whether a target failed for good.
-- Unresolved: to be tried again 1, 2, 4 or 8 minutes after what the clock shows then, or failed at
-- the last attempt. Otherwise: a single job that is over; a daily job that is ready for its next
-- occurrence after what the clock shows; or a daily job whose timezone or time is refused. The
-- clock is read in `v`, and nothing happens after that.
pub data Outcome {W : Type 0} (s : Services W) (v : W) (unresolved failure : Bool) (job : Job)
    (r : Job × W) : Type 0 where
  retried :
      unresolved ≡ true
      → r.1 ≡ (s.now v).1
      → r.0.state ≡ job.state
      → r.0.attempts ≡ job.attempts + 1
      → job.attempts + 1 < 5
      → r.0.available_at ≡ (s.now v).0 + minute * 2 ^ job.attempts
      → r.0.due_at ≡ job.due_at
      → Outcome s v unresolved failure job r
  exhausted :
      unresolved ≡ true
      → r.1 ≡ v
      → r.0.state ≡ failed
      → r.0.attempts ≡ job.attempts + 1
      → 5 ≤ job.attempts + 1
      → Outcome s v unresolved failure job r
  finished :
      unresolved ≡ false
      → r.1 ≡ v
      → job.daily ≡ none
      → r.0.attempts ≡ 0
      → ((failure ≡ false) × (r.0.state ≡ done))
        ⊎ ((failure ≡ true)
            × (r.0.state ≡ failed)
            × (r.0.last_error ≡ "permanent_delivery_failure"))
      → Outcome s v unresolved failure job r
  recurs :
      (d : Daily)
      → unresolved ≡ false
      → r.1 ≡ (s.now v).1
      → job.daily ≡ some d
      → r.0.state ≡ ready
      → r.0.attempts ≡ 0
      → r.0.completed ≡ []
      → r.0.has_permanent_failure ≡ false
      → IsOccurrence s.calendar d (s.now v).0 r.0.due_at
      → r.0.available_at ≡ r.0.due_at
      → (failure ≡ false) ⊎ (r.0.last_error ≡ "permanent_delivery_failure")
      → Outcome s v unresolved failure job r
  refused :
      (d : Daily) (e : Error)
      → unresolved ≡ false
      → r.1 ≡ (s.now v).1
      → job.daily ≡ some d
      → daily_next s.calendar d (s.now v).0 ≡ err e
      → r.0.state ≡ failed
      → r.0.last_error ≡ "invalid_daily_schedule"
      → Outcome s v unresolved failure job r

-- What an attempt never changes.
pub record SameJob (job j : Job) : Type 0 where
  pub same_id : j.id ≡ job.id
  pub same_recipient : j.recipient_id ≡ job.recipient_id
  pub same_daily : j.daily ≡ job.daily
  pub same_message : j.message ≡ job.message
  pub same_shard : j.shard ≡ job.shard
  pub released : j.lease_token ≡ ""

retry-SameJob :
    {W : Type 0} (s : Services W) (job j : Job) (code : String) (v : W)
    → IsAttempt job j
    → SameJob job (retry s j code v).0
unfolding retry
retry-SameJob s job j code v a = elim (Bool-cases (leb max_attempts j.attempts)) [
  | inl last ↦ rw last (ground arith)
  | inr more ↦ rw more (ground arith)
]

close_job-SameJob :
    {W : Type 0} (s : Services W) (job j : Job) (v : W)
    → IsAttempt job j
    → SameJob job (close_job s j v).0
unfolding close_job close_single close_daily
close_job-SameJob s job j v a = ground arith

-- An attempt never changes a job's identity, its message, its shard or its recurrence, and it
-- always gives the lease up.
pub deliver-SameJob :
    {W : Type 0} (s : Services W) (job : Job) (w : W) → SameJob job (deliver s job w).0
deliver-SameJob s job w =
    deliver-cases s (λ r. SameJob job r.0) job w
      (λ j code a o. retry-SameJob s job j code (decided s job w) a)
      (λ j a o f. close_job-SameJob s job j (decided s job w) a)
