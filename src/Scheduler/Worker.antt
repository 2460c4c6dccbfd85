-- ===== src/Scheduler/Worker.antt =====
-- scheduler/worker.go: one delivery attempt of a job, and the loop over due jobs. `W` is the world
-- outside the worker: its clock, the targets, the sender and the store answer from it and change it.
pub mod Attempt
pub mod Acknowledged
pub mod Reached
use push_dispatch.Base.{
  ℕ, zero, suc, ◌+◌, ◌-◌, ◌*◌, ◌^◌, min, ◌++◌, String, Bool, true, false, ◌&&◌, ◌||◌, not, Option,
  none, some, is_some, List, [], ◌∷◌, map, Map, lookup, insert, delete, has, length, Time, str_eq,
  ltb, leb, minute, if◌then◌else◌,
}
use push_dispatch.Push.Errors.{
  Error, Errors, nil, cons, joined, plain, Result, ok, err, ErrorCode, no_error, unregistered,
  permanent,
}
use push_dispatch.Push.Types.{Target, TargetResult, BatchResult, Message, target_type_text}
use push_dispatch.Push.Installation.{InstallationRef}
use push_dispatch.Push.Retry.{is_no_error}
use push_dispatch.Scheduler.Daily.{Calendar, Daily, daily_next}
use push_dispatch.Scheduler.Job.{
  State, ready, done, failed, canceled, Job, Texts, message_for_occurrence, max_attempts,
}

-- The interfaces `Targets` and `Sender`, and the worker's clock.
pub record Services (W : Type 0) : Type 0 where
  pub now : W → Time × W
  pub active_targets : String → Time → W → Result (List Target) × W
  pub disable_installations : List InstallationRef → Time → W → Option Error × W
  pub send : Message → List Target → W → (BatchResult × Option Error) × W
  pub calendar : Calendar
  pub texts : Texts

-- `Worker.retry`.
unfoldable pub retry : {W : Type 0} → Services W → Job → String → W → Job × W
retry s job code w =
    let (t, w') = s.now w in
    let noted = record job { last_error = code } in
    if leb max_attempts job.attempts
    then (record noted { state = failed }, w)
    else (record noted { available_at = t + minute * 2 ^ min (job.attempts - 1) 4 }, w')

-- The targets that the job has not completed.
unfoldable pub pending_targets : List String → List Target → List Target
pending_targets completed [] = []
pending_targets completed (t ∷ ts) =
    let rest = pending_targets completed ts in if has completed t.id then rest else t ∷ rest

-- `expected`.
unfoldable pub expected_map : Map Target → List Target → Map Target
expected_map m [] = m
expected_map m (t ∷ ts) = expected_map (insert t.id t m) ts

-- `t == r.Target`, field by field.
unfoldable pub same_target : Target → Target → Bool
same_target t u =
    str_eq t.id u.id
    && str_eq t.recipient_id u.recipient_id
    && str_eq (target_type_text t.target_type) (target_type_text u.target_type)
    && str_eq t.address u.address

-- The locals of the loop over the results.
pub record Acks : Type 0 where
  pub expected : Map Target
  pub unresolved : ℕ
  pub completed : List String
  pub invalid_targets : List String
  pub invalid : List InstallationRef
  pub permanent_failure : Bool

abbrev pub is_unregistered : ErrorCode → Bool
is_unregistered unregistered = true
is_unregistered _ = false

abbrev pub is_permanent : ErrorCode → Bool
is_permanent permanent = true
is_permanent _ = false

-- `r.Err == nil && r.Code == ErrorNone || r.Code == ErrorUnregistered || r.Code == ErrorPermanent`.
unfoldable pub is_final : TargetResult → Bool
is_final r =
    not (is_some r.error) && is_no_error r.code || is_unregistered r.code || is_permanent r.code

-- A result for a target that is expected.
unfoldable pub acknowledge : TargetResult → Target → Acks → Acks
acknowledge r t a =
    let seen = record a { expected = delete t.id a.expected } in
    if is_final r
    then record seen {
      completed = a.completed ++ (t.id ∷ []);
      unresolved = a.unresolved - 1;
      permanent_failure = is_permanent r.code || a.permanent_failure;
      invalid =
          if is_unregistered r.code
          then a.invalid ++ (record { uid = t.recipient_id; installation_id = t.id } ∷ [])
          else a.invalid;
      invalid_targets =
          if is_unregistered r.code then a.invalid_targets ++ (t.id ∷ []) else a.invalid_targets;
    }
    else seen

-- The body of the loop.
unfoldable pub note_ack : TargetResult → Acks → Acks
note_ack r a = elim (lookup r.target.id a.expected) [
  | none ↦ a
  | some t ↦ if same_target t r.target then acknowledge r t a else a
]

unfoldable pub note_acks : List TargetResult → Acks → Acks
note_acks [] a = a
note_acks (r ∷ rs) a = note_acks rs (note_ack r a)

-- The job and the error of the attempt after `DisablePushInstallations`, if there is anything to
-- disable; an error is joined with the one of the sender.
pub record Disabled : Type 0 where
  pub invalid_targets : List String
  pub error : Option Error

abbrev pub join_error : Option Error → Error → Error
join_error none e = joined (cons e nil)
join_error (some sent) e = joined (cons sent (cons e nil))

unfoldable pub disable_invalid :
    {W : Type 0} → Services W → List InstallationRef → List String → Option Error → W → Disabled × W
disable_invalid s [] invalid_targets send_err w =
    (record { invalid_targets = invalid_targets; error = send_err }, w)
disable_invalid s (first ∷ others) invalid_targets send_err w =
    let (t, w₁) = s.now w in
    let (e, w₂) = s.disable_installations (first ∷ others) t w₁ in
    elim e [
      | none ↦ (record { invalid_targets = []; error = send_err }, w₂)
      | some e ↦
          (record { invalid_targets = invalid_targets; error = some (join_error send_err e) }, w₂)
    ]

abbrev pub permanent_text : Bool → String
permanent_text true = "permanent_delivery_failure"
permanent_text false = ""

-- The end of `deliver` for an attempt that leaves nothing unresolved.
unfoldable pub close_daily : {W : Type 0} → Services W → Job → Daily → W → Job × W
close_daily s job d w =
    let (t, w') = s.now w in
    elim (daily_next s.calendar d t) [
      | err e ↦ (record job { state = failed; last_error = "invalid_daily_schedule" }, w')
      | ok next ↦ (
        record job {
          due_at = next;
          available_at = next;
          completed = [];
          attempts = 0;
          state = ready;
          last_error = if job.has_permanent_failure then permanent_text true else job.last_error;
          has_permanent_failure = false;
        },
        w',
      )
    ]

unfoldable pub close_single : Job → Job
close_single job = record job {
  attempts = 0;
  state = if job.has_permanent_failure then failed else done;
  last_error = if job.has_permanent_failure then permanent_text true else job.last_error;
}

unfoldable pub close_job : {W : Type 0} → Services W → Job → W → Job × W
close_job s job w = elim job.daily [ none ↦ (close_single job, w) | some d ↦ close_daily s job d w ]

-- The job at the start of an attempt.
abbrev pub begin_attempt : Job → Time → Job
begin_attempt job t = record job {
  last_error = "";
  lease_token = "";
  attempts = job.attempts + 1;
  updated_at = t;
}

abbrev pub initial_acks : Job → List Target → Acks
initial_acks job pending = record {
  expected = expected_map [] pending;
  unresolved = length pending;
  completed = job.completed;
  invalid_targets = job.invalid_targets;
  invalid = map (λ id. record { uid = job.recipient_id; installation_id = id }) job.invalid_targets;
  permanent_failure = false;
}

-- The job after the results of the attempt and the disabling have been written to it.
abbrev pub record_attempt : Job → Acks → Disabled → Job
record_attempt job acks disabled = record job {
  completed = acks.completed;
  invalid_targets = disabled.invalid_targets;
  has_permanent_failure = acks.permanent_failure || job.has_permanent_failure;
}

-- The call of the sender, the locals after the loop over its results, and the disabling.
module _ {W : Type 0} (s : Services W) (job : Job) (targets : List Target) (w : W) where
  abbrev pub attempt_pending : List Target
  attempt_pending = pending_targets job.completed targets

  abbrev pub attempt_sent : (BatchResult × Option Error) × W
  attempt_sent =
      s.send (message_for_occurrence s.texts job.message job.recipient_id job.id job.due_at)
        attempt_pending w

  abbrev pub attempt_acks : Acks
  attempt_acks = note_acks attempt_sent.0.0.results (initial_acks job attempt_pending)

  abbrev pub attempt_disabled : Disabled × W
  attempt_disabled =
      disable_invalid s attempt_acks.invalid attempt_acks.invalid_targets attempt_sent.0.1
        attempt_sent.1

-- `deliver` from the targets on.
unfoldable pub deliver_targets : {W : Type 0} → Services W → Job → Job → List Target → W → Job × W
deliver_targets s job updated targets w =
    let acks = attempt_acks s job targets w in
    let (disabled, w') = attempt_disabled s job targets w in
    let recorded = record_attempt updated acks disabled in
    if ltb 0 acks.unresolved || is_some disabled.error
    then retry s recorded "delivery_unresolved" w'
    else close_job s recorded w'

-- `deliver` after the lookup of the targets.
unfoldable pub deliver_found :
    {W : Type 0} → Services W → Job → Job → Result (List Target) → W → Job × W
deliver_found s job updated (err e) w = retry s updated "target_lookup" w
deliver_found s job updated (ok targets) w = deliver_targets s job updated targets w

-- `deliver`.
unfoldable pub deliver : {W : Type 0} → Services W → Job → W → Job × W
deliver s job w =
    let (t, w₁) = s.now w in
    let (u, w₂) = s.now w₁ in
    let (found, w₃) = s.active_targets job.recipient_id u w₂ in
    deliver_found s job (begin_attempt job t) found w₃
