-- ===== src/Tests/Accepted.antt =====
-- A schedule that is accepted, and a payload that is enriched.
use push_dispatch.Base.{
  ◌+◌, ◌*◌, ◌≡◌, refl, true, false, none, String, len, [], ◌∷◌, Map, lookup, insert, contains_key,
  hour, str_eq, arith,
}
use push_dispatch.Push.Errors.{ok}
use push_dispatch.Push.Types.{NotificationAnalytics}
use push_dispatch.Push.Payload.{
  Library, enrich_notification_data, enrich_fields, validate_analytics, validate_message,
  has_reserved, validate_payload, validate_size,
}
use push_dispatch.Push.Payload.Enriched.{added_fields, or_added, enrich_notification_data-lookup}
use push_dispatch.Scheduler.Job.{Job, Texts, job_key, message_for_occurrence}
use push_dispatch.Scheduler.Daily.{Calendar}
use push_dispatch.Scheduler.Schedule.{
  Schedule, Environment, new_job, job_of, validate_schedule, validate_time, validate_content,
  owns_key, first_due,
}
use push_dispatch.Scheduler.Schedule.Accepted.{IsJobOf, new_job-IsJobOf}
use push_dispatch.Scheduler.Schedule.Occurrence.{HashesFit, new_job-validate_message}
use push_dispatch.Tests.Data.{greeting, at_dusk}

abbrev library : Library
library = record {
  trim_space = λ s. s;
  rune_count = λ s. 5;
  has_prefix = λ s prefix. false;
  matches_label = λ s. true;
  encoded_length = λ m.
      ok (100 + len m.analytics.notification_id + len m.analytics.label + len m.title + len m.body);
}

abbrev always_utc : Calendar
always_utc = record {
  load_location = λ name. none;
  in_location =
      λ name t. record { year = 1; month = 1; day = 1; year_day = 1; hour = 0; minute = 0 };
  in_utc = λ t. record { year = 1; month = 1; day = 1; year_day = 1; hour = 0; minute = 0 };
  utc_noon = λ year month day. 12 * hour;
}

-- A hash of one digit.
abbrev one_digit : Texts
one_digit = record { sha256_hex = λ s. "a"; format_time = λ t. "now" }

abbrev pub environment : Environment
environment = record {
  library = library;
  calendar = always_utc;
  texts = one_digit;
  contains_separator = λ s. false;
  first_hash_byte = λ s. 77;
  unix_epoch = 1969 * 365 * 24 * hour;
}

abbrev pub lunch : Schedule
lunch = record {
  id = "lunch";
  recipient_id = "ada";
  at_time = at_dusk;
  daily = none;
  message = greeting;
}

abbrev pub lunch_job : Job
lunch_job = job_of environment lunch at_dusk at_dusk

pub lunch_accepted : new_job environment lunch at_dusk ≡ ok lunch_job
unfolding new_job validate_schedule str_eq validate_time validate_content owns_key contains_key
    lookup validate_message message_for_occurrence has_reserved validate_payload
    enrich_notification_data job_key validate_analytics enrich_fields insert validate_size first_due
lunch_accepted = refl

new_job-IsJobOf_example : IsJobOf environment lunch at_dusk lunch_job
new_job-IsJobOf_example = new_job-IsJobOf environment lunch at_dusk lunch_accepted

library-HashesFit : HashesFit library one_digit
unfolding str_eq
library-HashesFit = record {
  trimmed = λ s. refl;
  present = λ s. refl;
  short = λ s. omega arith;
  same_length = λ m s u. refl;
}

new_job-validate_message_example :
    validate_message library (
      message_for_occurrence one_digit lunch_job.message lunch_job.recipient_id lunch_job.id
        at_dusk)
    ≡ none
new_job-validate_message_example =
    new_job-validate_message environment lunch at_dusk at_dusk library-HashesFit lunch_accepted

abbrev chat : NotificationAnalytics
chat = record { notification_id = "n1"; app = "demo"; kind = "chat"; label = "chat" }

abbrev room : Map String
room = ("room", "7") ∷ []

abbrev enriched : Map String
enriched =
    ("room", "7")
    ∷ ("schema_version", "1")
    ∷ ("notification_id", "n1")
    ∷ ("app", "demo")
    ∷ ("kind", "chat")
    ∷ ("analytics_label", "chat")
    ∷ []

room_result : enrich_notification_data library room chat ≡ ok enriched
unfolding enrich_notification_data str_eq validate_analytics enrich_fields lookup insert
room_result = refl

enrich_notification_data-lookup_example :
    (lookup "app" enriched ≡ or_added (lookup "app" room) (lookup "app" (added_fields chat)))
    × (lookup "app" enriched ≡ or_added (lookup "app" (added_fields chat)) (lookup "app" room))
enrich_notification_data-lookup_example =
    enrich_notification_data-lookup library room chat "app" room_result
