-- ===== src/Scheduler/Schedule/Occurrence.antt =====
-- The message of an accepted schedule passes the check again at each of its occurrences.
use push_dispatch.Base.{
  ◌≤◌, ◌≡◌, ◌⊎◌, inl, inr, refl, String, false, none, some, List, [], ◌∷◌, Map, insert,
  lookup-insert, Time, Distinct, has, keys, str_eq_refl, str_eq, str_eq_iff, Bool-cases,
  Option-cases, arith,
}
use push_dispatch.Push.Errors.{Error, ok}
use push_dispatch.Push.Types.{Message, NotificationAnalytics}
use push_dispatch.Push.Payload.{
  Library, max_value_length, analytics_keys, analytics_fields, is_blank, validate_value,
  validate_analytics, enrich_fields, enrich_notification_data, validate_size, validate_payload,
  validate_message,
}
use push_dispatch.Scheduler.Job.{Job, Texts, message_for_occurrence, job_key}
use push_dispatch.Scheduler.Schedule.{Schedule, Environment, owns_key, validate_content, new_job}
use push_dispatch.Scheduler.Schedule.Accepted.{
  Absent, new_job-IsJobOf, validate_schedule-IsChecked, validate_content-Absent,
}

-- The message with another notification id.
abbrev pub with_notification_id : Message → String → Message
with_notification_id m x = record m { analytics = record m.analytics { notification_id = x } }

-- A SHA-256 sum in hexadecimal digits is a text that analytics accept, and all have one length and
-- need no escapes: the JSON text of a message has the same length with any of them as the
-- notification id.
pub record HashesFit (library : Library) (texts : Texts) : Type 0 where
  pub trimmed : (s : String) → library.trim_space (texts.sha256_hex s) ≡ texts.sha256_hex s
  pub present : (s : String) → str_eq (texts.sha256_hex s) "" ≡ false
  pub short : (s : String) → library.rune_count (texts.sha256_hex s) ≤ max_value_length
  pub same_length :
      (m : Message) (s s' : String)
      → library.encoded_length (with_notification_id m (texts.sha256_hex s))
        ≡ library.encoded_length (with_notification_id m (texts.sha256_hex s'))

insert-Absent :
    (ks : List String) (k v : String) (m : Map String)
    → has ks k ≡ false
    → Absent ks m
    → Absent ks (insert k v m)
insert-Absent [] k v m h a = tt
insert-Absent (j ∷ ks) k v m h a = (
  ground (arith, lookup-insert k j v m, str_eq_iff k j, str_eq_iff j k),
  insert-Absent ks k v m (ground arith) a.1,
)

-- Data with none of the keys takes all fields.
enrich_fields-Absent :
    (fields m : Map String)
    → Distinct (keys fields)
    → Absent (keys fields) m
    → (m' : Map String) × (enrich_fields fields m ≡ ok m')
unfolding enrich_fields
enrich_fields-Absent [] m d a = (m, refl)
enrich_fields-Absent ((k, v) ∷ fields) m d a =
    rw (a.0, enrich_fields)
      (enrich_fields-Absent fields (insert k v m) d.1 (insert-Absent (keys fields) k v m d.0 a.1))

analytics_fields-Distinct : (a : NotificationAnalytics) → Distinct (keys (analytics_fields a))
unfolding str_eq
analytics_fields-Distinct a = (refl, (refl, (refl, (refl, (refl, tt)))))

module _ (library : Library) (texts : Texts) (fit : HashesFit library texts) where
  validate_hash : (s : String) → validate_value library (texts.sha256_hex s) ≡ none
  validate_hash s =
      rw (fit.trimmed s, fit.present s, str_eq_refl (texts.sha256_hex s))
        (ground (arith, fit.short s))

  module _ (m : Message) (uid id : String) where
    abbrev occurrence : Time → Message
    occurrence t = message_for_occurrence texts m uid id t

    validate_analytics_same :
        (t u : Time)
        → validate_analytics library (occurrence t).analytics
          ≡ validate_analytics library (occurrence u).analytics
    unfolding validate_analytics message_for_occurrence job_key
    validate_analytics_same t u = rw (validate_hash _, validate_hash _, validate_analytics)

    occurrence_named : (t : Time) → is_blank (occurrence t).analytics ≡ false
    unfolding message_for_occurrence job_key
    occurrence_named t = rw (fit.present _)

    -- The messages of two occurrences differ in the notification id only.
    encoded_length_same :
        (t u : Time) → library.encoded_length (occurrence t) ≡ library.encoded_length (occurrence u)
    unfolding message_for_occurrence job_key
    encoded_length_same t u = fit.same_length (occurrence t) _ _

    validate_size_same :
        (t u : Time) → validate_size library (occurrence t) ≡ validate_size library (occurrence u)
    unfolding validate_size
    validate_size_same t u = rw (encoded_length_same t u, validate_size)

    -- Where the data has no key of the analytics, the payload of an occurrence is enriched or
    -- refused by the check of its analytics alone.
    validate_payload-cases :
        Absent analytics_keys m.payload
        → (t : Time)
        → ((validate_analytics library (occurrence t).analytics ≡ none)
            × (validate_payload library (occurrence t) ≡ validate_size library (occurrence t)))
          ⊎ ((e : Error) × (validate_analytics library (occurrence t).analytics ≡ some e)
              × (validate_payload library (occurrence t) ≡ some e))
    unfolding validate_payload enrich_notification_data message_for_occurrence
    validate_payload-cases a t =
        let (enriched, added) =
          enrich_fields-Absent (analytics_fields (occurrence t).analytics) m.payload
            (analytics_fields-Distinct (occurrence t).analytics) a in
        elim (Option-cases (validate_analytics library (occurrence t).analytics)) [
          | inl valid ↦ inl (
            valid,
            rw (occurrence_named t, valid, added, validate_payload, enrich_notification_data),
          )
          | inr (e, invalid) ↦ inr (
            e,
            invalid,
            rw (occurrence_named t, invalid, validate_payload, enrich_notification_data),
          )
        ]

    validate_payload_same :
        Absent analytics_keys m.payload
        → (t u : Time) → validate_payload library (occurrence t) ≡ none
        → validate_payload library (occurrence u) ≡ none
    validate_payload_same a t u h = ground (
      arith,
      validate_payload-cases a t,
      validate_payload-cases a u,
      validate_analytics_same t u,
      validate_size_same t u,
    )

    validate_message_same :
        Absent analytics_keys m.payload
        → (t u : Time) → validate_message library (occurrence t) ≡ none
        → validate_message library (occurrence u) ≡ none
    unfolding validate_message message_for_occurrence
    validate_message_same a t u h = ground (arith, validate_payload_same a t u)

validate_content-message :
    (environment : Environment) (s : Schedule)
    → validate_content environment s ≡ none
    → validate_message environment.library (
        message_for_occurrence environment.texts s.message s.recipient_id s.id
          environment.unix_epoch)
      ≡ none
unfolding validate_content
validate_content-message environment s h =
    elim (Bool-cases (owns_key environment analytics_keys s.message.payload)) [
      | inl owned ↦ absurd (ground (arith, rw (owned, validate_content) at h))
      | inr free ↦ rw (free, validate_content) at h
    ]

-- Where analytics accept every hash as a value, and the length of the JSON text of a message is the
-- same with any two hashes as its notification id: the message of a job that `NewJob` makes passes
-- the check of messages, its size included, as it is sent at any occurrence.
pub new_job-validate_message :
    (environment : Environment) (s : Schedule) (now due : Time) {job : Job}
    → HashesFit environment.library environment.texts
    → new_job environment s now ≡ ok job
    → validate_message environment.library
        (message_for_occurrence environment.texts job.message job.recipient_id job.id due)
      ≡ none
new_job-validate_message environment s now due {job} fit h =
    let v = new_job-IsJobOf environment s now h in
    let content = (validate_schedule-IsChecked environment s v.accepted).content in
    rw (v.same_message, v.same_recipient, v.same_id)
      (validate_message_same environment.library environment.texts fit s.message s.recipient_id s.id
        (validate_content-Absent environment s content) environment.unix_epoch due
        (validate_content-message environment s content))
