-- ===== src/Push/Payload.antt =====
-- push/notification_analytics.go and push/validation.go: the data keys that analytics own, and the
-- check of a message. Strings are their bytes. What the code calls of Go's libraries (white space,
-- runes, prefixes, the pattern of labels, and the size of the JSON text) is the parameter `Library`.
pub mod Enriched
use push_dispatch.Base.{
  ℕ, ◌*◌, String, len, Bool, true, false, ◌&&◌, ◌||◌, not, Option, none, some, List, [], ◌∷◌, Map,
  lookup, insert, contains_key, ℤ, pos, negsuc, exceeds, is_negative, hour, str_eq, ltb,
  if◌then◌else◌,
}
use push_dispatch.Push.Errors.{Error, plain, Result, ok, err}
use push_dispatch.Push.Types.{Message, NotificationAnalytics}

pub record Library : Type 0 where
  pub trim_space : String → String
  pub rune_count : String → ℕ
  pub has_prefix : String → String → Bool
  pub matches_label : String → Bool
  pub encoded_length : Message → Result ℕ

abbrev pub max_value_length : ℕ
max_value_length = 100

-- `notificationAnalyticsDataKeys`.
abbrev pub analytics_keys : List String
analytics_keys = "schema_version" ∷ "notification_id" ∷ "app" ∷ "kind" ∷ "analytics_label" ∷ []

-- `expected`, for given analytics.
abbrev pub analytics_fields : NotificationAnalytics → Map String
analytics_fields a =
    ("schema_version", "1")
    ∷ ("notification_id", a.notification_id)
    ∷ ("app", a.app)
    ∷ ("kind", a.kind)
    ∷ ("analytics_label", a.label)
    ∷ []

-- `analytics == (NotificationAnalytics{})`.
abbrev pub is_blank : NotificationAnalytics → Bool
is_blank a = str_eq a.notification_id "" && str_eq a.app "" && str_eq a.kind "" && str_eq a.label ""

-- The loop of `EnrichNotificationData` for blank analytics.
unfoldable pub owned_key : List String → Map String → Option Error
owned_key [] m = none
owned_key (key ∷ keys) m =
    let rest = owned_key keys m in
    if contains_key key m
    then some (plain "notification data key requires NotificationAnalytics")
    else rest

-- The loop over `expected`.
unfoldable pub enrich_fields : Map String → Map String → Result (Map String)
enrich_fields [] enriched = ok enriched
enrich_fields ((key, value) ∷ fields) enriched =
    let rest = enrich_fields fields (insert key value enriched) in
    elim (lookup key enriched) [
      | none ↦ rest
      | some existing ↦
          if not (str_eq existing value)
          then err (plain "notification data key conflicts with NotificationAnalytics")
          else rest
    ]

module _ (library : Library) where
  -- One round of the loop of `NotificationAnalytics.validate`.
  abbrev pub validate_value : String → Option Error
  validate_value value =
      if str_eq (library.trim_space value) ""
      then some (plain "notification analytics value is required")
      else if not (str_eq (library.trim_space value) value)
      then some (plain "notification analytics value must not have surrounding whitespace")
      else if ltb max_value_length (library.rune_count value)
      then some (plain "notification analytics value exceeds 100 characters")
      else none

  -- `NotificationAnalytics.validate`.
  unfoldable pub validate_analytics : NotificationAnalytics → Option Error
  validate_analytics a = elim (validate_value a.notification_id) [
    | some e ↦ some e
    | none ↦ elim (validate_value a.app) [
      | some e ↦ some e
      | none ↦ elim (validate_value a.kind) [
        | some e ↦ some e
        | none ↦
            if not (library.matches_label a.label)
            then some (plain "notification analytics label must match the pattern")
            else none
      ]
    ]
  ]

  -- `EnrichNotificationData`.
  unfoldable pub enrich_notification_data : Map String → NotificationAnalytics → Result (Map String)
  enrich_notification_data m a =
      if is_blank a
      then elim (owned_key analytics_keys m) [ some e ↦ err e | none ↦ ok m ]
      else elim (validate_analytics a) [
        | some e ↦ err e
        | none ↦ enrich_fields (analytics_fields a) m
      ]

  -- The loop over the data keys of `ValidateMessage`.
  abbrev pub is_reserved : String → Bool
  is_reserved k =
      str_eq k ""
      || str_eq k "from"
      || str_eq k "message_type"
      || library.has_prefix k "google."
      || library.has_prefix k "gcm."

  unfoldable pub has_reserved : Map String → Bool
  has_reserved [] = false
  has_reserved ((k, v) ∷ m) = is_reserved k || has_reserved m

  abbrev pub bad_ttl : ℤ → Bool
  bad_ttl ttl = is_negative ttl || exceeds ttl (28 * 24 * hour)

  abbrev pub bad_badge : Option ℤ → Bool
  bad_badge none = false
  bad_badge (some badge) = is_negative badge

  -- The last part of `ValidateMessage`: the payload and its size.
  unfoldable pub validate_size : Message → Option Error
  validate_size m = elim (library.encoded_length m) [
    | err e ↦ some e
    | ok n ↦
        if ltb 3072 n then some (plain "message exceeds 3072-byte library payload budget") else none
  ]

  unfoldable pub validate_payload : Message → Option Error
  validate_payload m = elim (enrich_notification_data m.payload m.analytics) [
    | err e ↦ some e
    | ok enriched ↦ validate_size m
  ]

  -- `ValidateMessage`.
  unfoldable pub validate_message : Message → Option Error
  validate_message m =
      if str_eq m.title "" && str_eq m.body ""
      then some (plain "title or body is required")
      else if bad_ttl m.ttl
      then some (plain "TTL must be between zero and 28 days")
      else if ltb 64 (len m.apple.collapse_id)
      then some (plain "Apple collapse ID exceeds 64 bytes")
      else if bad_badge m.apple.badge
      then some (plain "badge must be nonnegative")
      else if has_reserved m.payload
      then some (plain "reserved data key")
      else validate_payload m
