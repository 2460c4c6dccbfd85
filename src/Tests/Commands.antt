-- ===== src/Tests/Commands.antt =====
-- The command's runs for one task of three, a send, and a schedule put by a user.
use push_dispatch.Base.{
  ℕ, ◌%◌, ◌<◌, ◌≡◌, refl, String, true, Option, none, some, ◌==◌, ℤ, pos, negsuc, str_eq,
  if◌then◌else◌, lookup, insert, contains_key, arith,
}
use push_dispatch.Push.Errors.{ok}
use push_dispatch.Push.Payload.{
  validate_message, enrich_notification_data, enrich_fields, validate_analytics, has_reserved,
  validate_payload, validate_size,
}
use push_dispatch.Scheduler.Job.{shard_count, job_key, message_for_occurrence}
use push_dispatch.Scheduler.Schedule.{
  new_job, validate_schedule, validate_time, validate_content, owns_key, first_due,
}
use push_dispatch.Command.{Host, Flags, parsed, run_tick, tick_shard, send_message, send_targets}
use push_dispatch.Command.Partition.{visit_all, shards_of, times_in, run_tick_partition}
use push_dispatch.Command.Sent.{IsSent, send_message_success}
use push_dispatch.Api.{Request, answered, wrap}
use push_dispatch.Api.Schedules.{ScheduleStore, ScheduleInput, PutView, put_schedule}
use push_dispatch.Api.Refused.{IsStored, put_schedule_own}
use push_dispatch.Tests.Data.{greeting, at_dusk}
use push_dispatch.Tests.Accepted.{environment, lunch, lunch_job}
use push_dispatch.Tests.Schedule.{services, store}

abbrev flags : Flags
flags = record {
  project = "demo";
  app_id = "app";
  shard = negsuc 0;
  limit = pos 100;
  user = "ada";
  id = "lunch";
  arguments = 0;
}

abbrev digit : String → Option ℤ
digit s = if str_eq s "1" then some (pos 1) else if str_eq s "3" then some (pos 3) else none

abbrev host : Host ℕ
host = record {
  parse = λ command arguments. parsed flags;
  print_help = λ w. (none, w);
  connect = λ project w. (none, w);
  connect_sender = λ project w. (none, w);
  serve = λ w. (none, w);
  encode = λ output w. (none, w);
  read_schedule = λ w. (ok lunch, w);
  read_send = λ w. (ok ("ada", greeting), w);
  put = λ job w. (none, w);
  cancel = λ uid id t w. (none, w);
  task_index = "1";
  task_count = "3";
  atoi = digit;
}

run_tick_partition_example :
    (run_tick host environment services store flags 0
      ≡ visit_all (tick_shard host environment services store flags.limit) (shards_of 1 3) 0)
    × ((k : ℕ) → k < shard_count → times_in k (shards_of 1 3) ≡ (if k % 3 == 1 then 1 else 0))
unfolding str_eq
run_tick_partition_example =
    run_tick_partition host environment services store flags 0 1 3 0 refl refl refl refl
      (omega arith) (omega arith) (omega arith)

sent_result : (send_message host environment services store "ada" greeting 0).0 ≡ none
unfolding send_message str_eq validate_message has_reserved validate_payload
    enrich_notification_data validate_analytics enrich_fields lookup insert validate_size
    send_targets
sent_result = refl

send_message_success_example : IsSent host environment services store "ada" greeting 0
send_message_success_example =
    send_message_success host environment services store "ada" greeting 0 sent_result

abbrev schedules : ScheduleStore ℕ
schedules = record {
  now = λ w. (at_dusk, w);
  put = λ job w. (none, w);
  get_job = λ uid id w. (ok lunch_job, w);
  cancel = λ uid id t w. (none, w);
}

abbrev put_request : Request ScheduleInput
put_request = record {
  configured = true;
  authenticated = ok "ada";
  body = some (record { at_time = at_dusk; daily = none; message = greeting });
  id = "lunch";
}

abbrev put_view : PutView
put_view = record { id = "lunch"; due_at = at_dusk }

put_schedule_result : (put_schedule environment schedules put_request 0).0 ≡ answered put_view
unfolding put_schedule wrap str_eq new_job validate_schedule validate_time validate_content owns_key
    contains_key lookup validate_message message_for_occurrence has_reserved validate_payload
    enrich_notification_data job_key validate_analytics enrich_fields insert validate_size first_due
put_schedule_result = refl

put_schedule_own_example :
    IsStored environment schedules put_request 0
      (put_schedule environment schedules put_request 0).1
      put_view
put_schedule_own_example = put_schedule_own environment schedules put_request 0 put_schedule_result
