-- ===== src/Tests/Data.antt =====
-- Targets, a message, and a provider that answers for the first target of each request only.
use push_dispatch.Base.{
  Time, ◌-◌, ◌*◌, ◌+◌, hour, minute, false, ℕ, suc, Option, none, List, [], ◌∷◌, pos, hour,
}
use push_dispatch.Push.Errors.{Error, no_error}
use push_dispatch.Push.Types.{Target, fid, token, Message, TargetResult, BatchResult}
use push_dispatch.Scheduler.Job.{Job, ready}
use push_dispatch.Push.Retry.{Dispatcher}

abbrev pub phone : Target
phone = record { id = "phone"; recipient_id = "ada"; target_type = token; address = "t1" }

abbrev pub tablet : Target
tablet = record { id = "tablet"; recipient_id = "ada"; target_type = fid; address = "f2" }

abbrev pub greeting : Message
greeting = record {
  title = "Hello";
  body = "World";
  payload = [];
  analytics = record { notification_id = "n1"; app = "demo"; kind = "chat"; label = "" };
  ttl = pos hour;
  apple = record { sound = ""; badge = none; collapse_id = "" };
  android = record { sound = ""; channel_id = ""; icon = ""; color = ""; collapse_key = "" };
}

abbrev pub delivered : Target → TargetResult
delivered t = record { target = t; message_id = "m"; code = no_error; error = none }

abbrev pub answer_first : List Target → BatchResult
answer_first [] = record { results = []; success_count = 0; failure_count = 0 }
answer_first (t ∷ ts) = record { results = delivered t ∷ []; success_count = 1; failure_count = 0 }

-- The world is the number of calls.
abbrev pub slow_sender : Message → List Target → ℕ → (BatchResult × Option Error) × ℕ
slow_sender message targets calls = ((answer_first targets, none), suc calls)

abbrev pub no_wait : ℕ → ℕ → Option Error × ℕ
no_wait delay w = (none, w)

abbrev pub no_jitter : ℕ → ℕ → ℕ × ℕ
no_jitter base w = (base, w)

abbrev pub slow_dispatcher : Dispatcher ℕ
slow_dispatcher = record {
  sender = slow_sender;
  concurrency = 1;
  max_attempts = 3;
  retry_wait = no_wait;
  retry_jitter = no_jitter;
}

-- A random number generator that always draws 0.
abbrev pub draw_zero : ℕ → ℕ → ℕ × ℕ
draw_zero bound w = (0, w)

-- Ten minutes before midnight of the day 11.
abbrev pub at_dusk : Time
at_dusk = 10 * (24 * hour) + 10 * hour - 10 * minute

abbrev pub reminder : Job
reminder = record {
  id = "r1";
  recipient_id = "ada";
  daily = none;
  message = greeting;
  state = ready;
  shard = 3;
  due_at = at_dusk;
  available_at = at_dusk;
  lease_token = "lease";
  attempts = 0;
  completed = [];
  invalid_targets = [];
  last_error = "";
  has_permanent_failure = false;
  updated_at = at_dusk;
}
