-- ===== src/Scheduler/Schedule/Accepted.antt =====
-- What holds of an accepted schedule and of its job.
use push_dispatch.Base.{
  ◌%◌, ◌≤◌, ◌≡◌, ◌≢◌, inl, inr, refl, subst, String, len, false, ◌||◌, Option, none, some, List, [],
  ◌∷◌, Map, lookup, contains_key, All, Time, zero_time, str_eq_iff, Bool-cases, Option-cases, arith,
}
use push_dispatch.Push.Errors.{Result-cases, ok}
use push_dispatch.Push.Payload.{analytics_keys}
use push_dispatch.Scheduler.Daily.{Daily}
use push_dispatch.Scheduler.Daily.Next.{IsOccurrence, daily_next-IsOccurrence}
use push_dispatch.Scheduler.Job.{ready, Job, job_key}
use push_dispatch.Scheduler.Schedule.{
  Schedule, Environment, bad_identifier, owns_key, validate_time, validate_content,
  validate_schedule, first_due, job_of, new_job,
}

-- No key of the list is in the map.
abbrev pub Absent : List String → Map String → Type 0
Absent ks m = All (λ k. lookup k m ≡ none) ks

-- A text that can stand in a path.
pub record IsIdentifier (environment : Environment) (v : String) : Type 0 where
  pub present : v ≢ ""
  pub short : len v ≤ 128
  pub trimmed : environment.library.trim_space v ≡ v
  pub one_part : environment.contains_separator v ≡ false
  pub not_here : v ≢ "."
  pub not_parent : v ≢ ".."

-- When the job of an accepted schedule is due: at the given instant, or where there is none, at the
-- next occurrence of the daily time after now.
abbrev pub IsDue : (environment : Environment) → Option Daily → Time → Time → Time → Type 0
IsDue environment none at_time now due = (at_time ≢ zero_time) × (due ≡ at_time)
IsDue environment (some d) at_time now due =
    (at_time ≡ zero_time) × IsOccurrence environment.calendar d now due

pub record IsJobOf (environment : Environment) (s : Schedule) (now : Time) (job : Job)
    : Type 0 where
  pub accepted : validate_schedule environment s ≡ none
  pub good_id : IsIdentifier environment job.id
  pub good_recipient : IsIdentifier environment job.recipient_id
  pub free : Absent analytics_keys job.message.payload
  pub same_id : job.id ≡ s.id
  pub same_recipient : job.recipient_id ≡ s.recipient_id
  pub same_daily : job.daily ≡ s.daily
  pub same_message : job.message ≡ s.message
  pub is_open : job.state ≡ ready
  pub same_shard :
      job.shard ≡ environment.first_hash_byte (job_key environment.texts s.recipient_id s.id) % 32
  pub no_lease : job.lease_token ≡ ""
  pub no_attempts : job.attempts ≡ 0
  pub none_completed : job.completed ≡ []
  pub none_invalid : job.invalid_targets ≡ []
  pub no_error : job.last_error ≡ ""
  pub no_failure : job.has_permanent_failure ≡ false
  pub due : IsDue environment job.daily s.at_time now job.due_at
  pub available : job.available_at ≡ job.due_at
  pub updated : job.updated_at ≡ now

module _ (environment : Environment) where
  pub owns_key-Absent :
      (ks : List String) (m : Map String) → owns_key environment ks m ≡ false → Absent ks m
  unfolding owns_key contains_key
  owns_key-Absent [] m h = tt
  owns_key-Absent (k ∷ ks) m h = (ground arith, owns_key-Absent ks m (ground arith))

  bad_identifier-IsIdentifier :
      (v : String) → bad_identifier environment v ≡ false → IsIdentifier environment v
  bad_identifier-IsIdentifier v h = record {
    present = ground (arith, str_eq_iff v "");
    short = ground arith;
    trimmed = ground (arith, str_eq_iff (environment.library.trim_space v) v);
    one_part = ground arith;
    not_here = ground (arith, str_eq_iff v ".");
    not_parent = ground (arith, str_eq_iff v "..");
  }

  module _ (s : Schedule) where
    pub record IsChecked : Type 0 where
      pub good_id : IsIdentifier environment s.id
      pub good_recipient : IsIdentifier environment s.recipient_id
      pub timed : validate_time environment s.at_time s.daily ≡ none
      pub content : validate_content environment s ≡ none

    pub validate_schedule-IsChecked : validate_schedule environment s ≡ none → IsChecked
    unfolding validate_schedule
    validate_schedule-IsChecked h =
        elim (Bool-cases
          (bad_identifier environment s.id || bad_identifier environment s.recipient_id)) [
            | inl bad ↦ absurd (ground (arith, rw (bad, validate_schedule) at h))
            | inr good ↦ elim (Option-cases (validate_time environment s.at_time s.daily)) [
              | inr (e, bad) ↦ absurd (ground (arith, rw (good, bad, validate_schedule) at h))
              | inl timed ↦ record {
                good_id = bad_identifier-IsIdentifier s.id (ground arith);
                good_recipient = bad_identifier-IsIdentifier s.recipient_id (ground arith);
                timed = timed;
                content = rw (good, timed, validate_schedule) at h;
              }
            ]
          ]

    pub validate_content-Absent :
        validate_content environment s ≡ none → Absent analytics_keys s.message.payload
    unfolding validate_content
    validate_content-Absent h =
        elim (Bool-cases (owns_key environment analytics_keys s.message.payload)) [
          | inl owned ↦ absurd (ground (arith, rw (owned, validate_content) at h))
          | inr free ↦ owns_key-Absent analytics_keys s.message.payload free
        ]

    first_due-IsDue :
        (now : Time) {due : Time}
        → validate_time environment s.at_time s.daily ≡ none
        → first_due environment s now ≡ ok due
        → IsDue environment s.daily s.at_time now due
    unfolding first_due validate_time
    first_due-IsDue now {due} timed h = elim (Option-cases s.daily) [
      | inl single ↦
          let nonzero = rw (single, validate_time) at timed in
          rw single (ground (arith, nonzero), ground (arith, rw (single, first_due) at h))
      | inr (d, daily) ↦
          let zero_at = rw (daily, validate_time) at timed in
          rw daily (
            ground (arith, zero_at),
            daily_next-IsOccurrence environment.calendar d now due (rw (daily, first_due) at h),
          )
    ]

-- The job that `NewJob` makes is of an accepted schedule: its id and its recipient are nonempty
-- texts of at most 128 bytes with no white space around them, no separator, and not one or two
-- dots, and its data has none of the keys of the analytics. It keeps the id, the recipient, the
-- daily time and the message of the schedule; it is ready, in the shard that its key names among
-- 32, updated now, and nothing is done of it: it has no lease, no attempt, no completed or invalid
-- target and no error. It is due and available at the given instant, which is set exactly where
-- there is no daily time; else at the next occurrence after now.
pub new_job-IsJobOf :
    (environment : Environment) (s : Schedule) (now : Time) {job : Job}
    → new_job environment s now ≡ ok job
    → IsJobOf environment s now job
unfolding new_job
new_job-IsJobOf environment s now {job} h = elim (Option-cases (validate_schedule environment s)) [
  | inr (e, refused) ↦ absurd (ground (arith, rw (refused, new_job) at h))
  | inl fine ↦ elim (Result-cases (first_due environment s now)) [
    | inr (e, none_due) ↦ absurd (ground (arith, rw (fine, none_due, new_job) at h))
    | inl (due, found) ↦
        let checked = validate_schedule-IsChecked environment s fine in
        let same : job_of environment s now due ≡ job =
          ground (arith, rw (fine, found, new_job) at h) in
        subst (IsJobOf environment s now) same (record {
          accepted = fine;
          good_id = checked.good_id;
          good_recipient = checked.good_recipient;
          free = validate_content-Absent environment s checked.content;
          same_id = refl;
          same_recipient = refl;
          same_daily = refl;
          same_message = refl;
          is_open = refl;
          same_shard = refl;
          no_lease = refl;
          no_attempts = refl;
          none_completed = refl;
          none_invalid = refl;
          no_error = refl;
          no_failure = refl;
          due = first_due-IsDue environment s now checked.timed found;
          available = refl;
          updated = refl;
        })
  ]
]
