-- ===== src/Tests/Schedule.antt =====
-- The scheduler at concrete jobs. The place of the tests is fourteen hours ahead of UTC, and its days
-- have no year or month.
use push_dispatch.Base.{
  ℕ, zero, suc, ◌+◌, ◌*◌, ◌/◌, ◌%◌, ◌≤◌, ◌≡◌, refl, true, ◌||◌, none, List, [], ◌∷◌, has, Distinct,
  pos, Time, minute, hour, str_eq, lookup, insert, delete,
}
use push_dispatch.Push.Errors.{ok}
use push_dispatch.Push.Types.{Target, target_ids}
use push_dispatch.Scheduler.Daily.{
  Wall, Calendar, Daily, daily_next, validate_daily, next_from, scan, matches, noon,
}
use push_dispatch.Scheduler.Daily.Next.{IsNext, daily_next-IsNext}
use push_dispatch.Scheduler.Job.{Job}
use push_dispatch.Scheduler.Worker.{
  Services, deliver, deliver_found, deliver_targets, note_ack, expected_map, same_target,
  acknowledge, is_final, disable_invalid, close_job, note_acks, initial_acks, pending_targets,
}
use push_dispatch.Scheduler.Worker.Attempt.{SameJob, deliver-SameJob}
use push_dispatch.Scheduler.Worker.Acknowledged.{final_for, note_acks_complete, note_acks_sound}
use push_dispatch.Scheduler.Tick.{JobStore, tick, tick_loop}
use push_dispatch.Scheduler.Tick.Counts.{tick-counts}
use push_dispatch.Tests.Data.{reminder, at_dusk, phone, tablet, delivered, slow_sender}

abbrev day_length : ℕ
day_length = 24 * hour

abbrev wall_at : Time → Wall
wall_at t = record {
  year = 1;
  month = 1;
  day = t / day_length;
  year_day = t / day_length;
  hour = t / hour % 24;
  minute = t / minute % 60;
}

abbrev ahead : Calendar
ahead = record {
  load_location = λ name. none;
  in_location = λ name t. wall_at (t + 14 * hour);
  in_utc = wall_at;
  utc_noon = λ year month day. day * day_length + 12 * hour;
}

abbrev midnight : Daily
midnight = record { local_time = pos 0; timezone = "Pacific/Kiritimati" }

abbrev next_midnight : Time
next_midnight = 10 * day_length + 10 * hour

abbrev pub services : Services ℕ
services = record {
  now = λ w. (at_dusk, w);
  active_targets = λ uid t w. (ok (phone ∷ []), w);
  disable_installations = λ refs t w. (none, w);
  send = slow_sender;
  calendar = ahead;
  texts = record { sha256_hex = λ s. s; format_time = λ t. "now" };
}

-- One job is due at the start.
abbrev one_job : ℕ → List Job
one_job zero = reminder ∷ []
one_job (suc w) = []

abbrev pub store : JobStore ℕ
store = record {
  stopped = λ w. none;
  claim_due = λ t shard limit lease w. ((one_job w, none), w);
  finish = λ job updated w. (none, w);
}

deliver-SameJob_example : SameJob reminder (deliver services reminder 0).0
deliver-SameJob_example = deliver-SameJob services reminder 0

tick-counts_example :
    let r = (tick services store true (pos 0) (pos 0) (pos 3) (pos 5) 0).0.0 in
    (r.claimed ≤ 5)
    × (r.completed + r.retrying + r.failed_jobs ≤ r.claimed)
    × (r.claimed ≤ r.completed + r.retrying + r.failed_jobs + 1)
tick-counts_example = tick-counts services store true (pos 0) (pos 0) (pos 3) (pos 5) 0

tick_no_error : (tick services store true (pos 0) (pos 0) (pos 3) (pos 5) 0).0.1 ≡ none
unfolding tick tick_loop deliver deliver_found deliver_targets note_acks pending_targets note_ack
    lookup expected_map insert str_eq same_target acknowledge is_final disable_invalid close_job
tick_no_error = refl

abbrev devices : List Target
devices = phone ∷ tablet ∷ []

devices-Distinct : Distinct (target_ids devices)
unfolding str_eq
devices-Distinct = (refl, (refl, tt))

note_acks_complete_example :
    has
      (note_acks
        (delivered phone ∷ delivered tablet ∷ [])
        (initial_acks reminder (pending_targets [] devices))).completed
      "tablet"
    ≡ true
unfolding note_acks str_eq pending_targets note_ack lookup expected_map insert same_target
    acknowledge is_final delete
note_acks_complete_example =
    note_acks_complete reminder devices (delivered phone ∷ delivered tablet ∷ []) "tablet"
      devices-Distinct refl refl

note_acks_sound_example : (has [] "phone" || final_for (delivered phone ∷ []) "phone") ≡ true
unfolding note_acks str_eq pending_targets note_ack lookup expected_map insert same_target
    acknowledge is_final
note_acks_sound_example =
    note_acks_sound (delivered phone ∷ []) (initial_acks reminder (pending_targets [] devices))
      "phone" refl

daily_next-IsNext_example : IsNext ahead midnight at_dusk (ok next_midnight)
unfolding daily_next validate_daily str_eq next_from scan matches noon
daily_next-IsNext_example = daily_next-IsNext ahead midnight at_dusk
