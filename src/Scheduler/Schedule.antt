-- ===== src/Scheduler/Schedule.antt =====
-- scheduler/schedule.go: a requested schedule, its check, and the job that it becomes.
pub mod Accepted
pub mod Occurrence
use push_dispatch.Base.{
  ℕ, ◌%◌, String, len, Bool, true, false, ◌||◌, not, Option, none, some, is_some, List, [], ◌∷◌,
  Map, contains_key, Time, is_zero_time, zero_time, str_eq, ltb, if◌then◌else◌,
}
use push_dispatch.Push.Errors.{Error, plain, Result, ok, err}
use push_dispatch.Push.Types.{Message}
use push_dispatch.Push.Payload.{Library, validate_message, analytics_keys}
use push_dispatch.Scheduler.Daily.{Calendar, Daily, validate_daily, daily_next}
use push_dispatch.Scheduler.Job.{ready, Job, Texts, job_key, message_for_occurrence, shard_count}

pub record Schedule : Type 0 where
  pub id : String
  pub recipient_id : String
  pub at_time : Time
  pub daily : Option Daily
  pub message : Message

-- What this file uses of Go's libraries: those of the payload, of a calendar and of texts,
-- `strings.ContainsAny` with a slash and a zero byte, the first byte of a SHA-256 sum, and
-- `time.Unix(0, 0)`.
pub record Environment : Type 0 where
  pub library : Library
  pub calendar : Calendar
  pub texts : Texts
  pub contains_separator : String → Bool
  pub first_hash_byte : String → ℕ
  pub unix_epoch : Time

module _ (environment : Environment) where
  -- The test of an identifier.
  abbrev pub bad_identifier : String → Bool
  bad_identifier v =
      str_eq v ""
      || ltb 128 (len v)
      || not (str_eq (environment.library.trim_space v) v)
      || environment.contains_separator v
      || str_eq v "."
      || str_eq v ".."

  -- Whether the data has a key that the scheduler owns.
  unfoldable pub owns_key : List String → Map String → Bool
  owns_key [] m = false
  owns_key (k ∷ ks) m = contains_key k m || owns_key ks m

  -- The check of the time of a schedule: an instant or a daily time, and not both.
  unfoldable pub validate_time : Time → Option Daily → Option Error
  validate_time t (some d) =
      if not (is_zero_time t)
      then some (plain "provide either at or daily")
      else validate_daily environment.calendar d
  validate_time t none = if is_zero_time t then some (plain "at or daily is required") else none

  -- The check of the data keys and of the message of an occurrence.
  unfoldable pub validate_content : Schedule → Option Error
  validate_content s =
      if owns_key analytics_keys s.message.payload
      then some (plain "scheduler owns data key")
      else validate_message environment.library (
          message_for_occurrence environment.texts s.message s.recipient_id s.id
            environment.unix_epoch)

  -- `Schedule.Validate`.
  unfoldable pub validate_schedule : Schedule → Option Error
  validate_schedule s =
      if bad_identifier s.id || bad_identifier s.recipient_id
      then some (plain "id and recipientId must be nonempty path-safe identifiers")
      else elim (validate_time s.at_time s.daily) [ some e ↦ some e | none ↦ validate_content s ]

  -- The first due time of `NewJob`.
  unfoldable pub first_due : Schedule → Time → Result Time
  first_due s now = elim s.daily [
    | none ↦ ok s.at_time
    | some d ↦ daily_next environment.calendar d now
  ]

  abbrev pub job_of : Schedule → Time → Time → Job
  job_of s now due = record {
    id = s.id;
    recipient_id = s.recipient_id;
    daily = s.daily;
    message = s.message;
    state = ready;
    shard =
        environment.first_hash_byte (job_key environment.texts s.recipient_id s.id) % shard_count;
    due_at = due;
    available_at = due;
    lease_token = "";
    attempts = 0;
    completed = [];
    invalid_targets = [];
    last_error = "";
    has_permanent_failure = false;
    updated_at = now;
  }

  -- `NewJob`.
  unfoldable pub new_job : Schedule → Time → Result Job
  new_job s now = elim (validate_schedule s) [
    | some e ↦ err e
    | none ↦ elim (first_due s now) [ err e ↦ err e | ok due ↦ ok (job_of s now due) ]
  ]
