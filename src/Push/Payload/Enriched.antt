-- ===== src/Push/Payload/Enriched.antt =====
-- What `EnrichNotificationData` returns.
use push_dispatch.Base.{
  ◌≡◌, inl, inr, refl, sym, ap, ◌∙◌, String, Option, none, some, [], ◌∷◌, Map, lookup, insert,
  lookup-insert, str_eq, str_eq_iff, Bool-cases, Option-cases, if◌then◌else◌, arith,
}
use push_dispatch.Push.Errors.{ok}
use push_dispatch.Push.Types.{NotificationAnalytics}
use push_dispatch.Push.Payload.{
  Library, analytics_keys, analytics_fields, is_blank, owned_key, enrich_fields, validate_analytics,
  enrich_notification_data,
}

-- The fields that are added for given analytics.
abbrev pub added_fields : NotificationAnalytics → Map String
added_fields a = if is_blank a then [] else analytics_fields a

abbrev pub or_added : Option String → Option String → Option String
or_added none added = added
or_added (some v) added = some v

or_added-none : (o : Option String) → o ≡ or_added o none
or_added-none none = refl
or_added-none (some v) = refl

enrich_fields-lookup :
    (fields m : Map String) {m' : Map String} (k : String)
    → enrich_fields fields m ≡ ok m'
    → lookup k m' ≡ or_added (lookup k m) (lookup k fields)
unfolding enrich_fields lookup
enrich_fields-lookup [] m {m'} k h =
    let same : m ≡ m' = ground arith in ap (lookup k) (sym same) ∙ or_added-none (lookup k m)
enrich_fields-lookup ((key, value) ∷ fields) m k h = elim (Option-cases (lookup key m)) [
  | inl absent ↦ ground (
    arith,
    absent,
    str_eq_iff key k,
    lookup-insert key k value m,
    enrich_fields-lookup fields (insert key value m) k (rw (absent, enrich_fields) at h),
  )
  | inr (old, at) ↦ elim (Bool-cases (str_eq old value)) [
    | inr other ↦ absurd (ground (arith, rw (at, other, enrich_fields) at h))
    | inl same ↦ ground (
      arith,
      at,
      same,
      str_eq_iff old value,
      str_eq_iff key k,
      lookup-insert key k value m,
      enrich_fields-lookup fields (insert key value m) k (rw (at, same, enrich_fields) at h),
    )
  ]
]

enrich_fields-present :
    (fields m : Map String) {m' : Map String} (k v : String)
    → enrich_fields fields m ≡ ok m'
    → lookup k fields ≡ some v
    → lookup k m' ≡ some v
unfolding enrich_fields lookup
enrich_fields-present [] m k v h p = absurd (ground arith)
enrich_fields-present ((key, value) ∷ fields) m {m'} k v h p = elim (Bool-cases (str_eq key k)) [
  | inl here ↦
      let same : value ≡ v = ground arith in
      enrich_fields-lookup fields (insert key value m) k after
      ∙ rw (lookup-insert key k value m, here) (ap some same)
  | inr there ↦ enrich_fields-present fields (insert key value m) k v after (ground arith)
]
  where
    after : enrich_fields fields (insert key value m) ≡ ok m'
    after = elim (Option-cases (lookup key m)) [
      | inl absent ↦ rw (absent, enrich_fields) at h
      | inr (old, at) ↦ elim (Bool-cases (str_eq old value)) [
        | inr other ↦ absurd (ground (arith, rw (at, other, enrich_fields) at h))
        | inl same ↦ rw (at, same, enrich_fields) at h
      ]
    ]

-- What the code runs for analytics that are blank, and for others.
enrich_added :
    (library : Library) (m : Map String) (a : NotificationAnalytics) {m' : Map String}
    → enrich_notification_data library m a ≡ ok m'
    → enrich_fields (added_fields a) m ≡ ok m'
unfolding enrich_notification_data
enrich_added library m a h = elim (Bool-cases (is_blank a)) [
  | inl blank ↦ elim (Option-cases (owned_key analytics_keys m)) [
    | inl free ↦ rw blank (unfold enrich_fields in rw (blank, free, enrich_notification_data) at h)
    | inr (e, owned) ↦ absurd (ground (arith, rw (blank, owned, enrich_notification_data) at h))
  ]
  | inr given ↦ elim (Option-cases (validate_analytics library a)) [
    | inl valid ↦ rw given (rw (given, valid, enrich_notification_data) at h)
    | inr (e, invalid) ↦ absurd (ground (arith, rw (given, invalid, enrich_notification_data) at h))
  ]
]

-- Where `EnrichNotificationData` accepts the data, a key reads as in the data, or else as in the
-- fields of the analytics, and also the other way round: it loses no data, overrides none, and every
-- field of the analytics is in the result. Blank analytics have no fields.
pub enrich_notification_data-lookup :
    (library : Library) (m : Map String) (a : NotificationAnalytics) (k : String) {m' : Map String}
    → enrich_notification_data library m a ≡ ok m'
    → (lookup k m' ≡ or_added (lookup k m) (lookup k (added_fields a)))
      × (lookup k m' ≡ or_added (lookup k (added_fields a)) (lookup k m))
enrich_notification_data-lookup library m a k h =
    let added = enrich_added library m a h in
    let first = enrich_fields-lookup (added_fields a) m k added in
    (
      first,
      elim (Option-cases (lookup k (added_fields a))) [
        | inl nothing ↦ first ∙ rw nothing (sym (or_added-none (lookup k m)))
        | inr (v, some_field) ↦
            enrich_fields-present (added_fields a) m k v added some_field ∙ rw some_field
      ],
    )
