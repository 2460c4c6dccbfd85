-- ===== src/Scheduler/Job.antt =====
-- scheduler/schedule.go: jobs, their keys, and the message of an occurrence. The hash and the text
-- form of an instant belong to Go's library and are parameters.
use Prim.Native.String.{◌++◌ as append}
use push_dispatch.Base.{
  ℕ, String, Bool, false, Option, List, ℤ, pos, negsuc, Time, hour, str_eq, ◌==◌, if◌then◌else◌,
}
use push_dispatch.Push.Types.{Message}
use push_dispatch.Scheduler.Daily.{Daily}

pub data State : Type 0 where
  ready done failed canceled : State

abbrev pub shard_count : ℕ
shard_count = 32

abbrev pub max_attempts : ℕ
max_attempts = 5

pub record Job : Type 0 where
  pub id : String
  pub recipient_id : String
  pub daily : Option Daily
  pub message : Message
  pub state : State
  pub shard : ℕ
  pub due_at : Time
  pub available_at : Time
  pub lease_token : String
  pub attempts : ℕ
  pub completed : List String
  pub invalid_targets : List String
  pub last_error : String
  pub has_permanent_failure : Bool
  pub updated_at : Time

-- `hex.EncodeToString(sha256.Sum256(...))`, and `Format(time.RFC3339Nano)` of an instant in UTC.
pub record Texts : Type 0 where
  pub sha256_hex : String → String
  pub format_time : Time → String

-- `Key`.
unfoldable pub job_key : Texts → String → String → String
job_key texts uid id = texts.sha256_hex (append uid (append "\0" id))

abbrev pub is_zero_duration : ℤ → Bool
is_zero_duration (pos n) = n == 0
is_zero_duration (negsuc n) = false

abbrev pub or_text : String → String → String
or_text s fallback = if str_eq s "" then fallback else s

-- `messageForOccurrence`.
unfoldable pub message_for_occurrence : Texts → Message → String → String → Time → Message
message_for_occurrence texts message uid id due = record message {
  ttl = if is_zero_duration message.ttl then pos hour else message.ttl;
  analytics = record {
    notification_id = job_key texts (job_key texts uid id) (texts.format_time due);
    app = or_text message.analytics.app "default";
    kind = or_text message.analytics.kind "scheduled";
    label = or_text message.analytics.label "scheduled";
  };
}
