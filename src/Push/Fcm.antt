-- ===== src/Push/Fcm.antt =====
-- push/fcm/sender.go: the adapter that sends a provider batch through Firebase Cloud Messaging. The
-- messaging client, its tests on errors and the text of an instant are parameters.
pub mod Answers
use push_dispatch.Base.{
  ℕ, ◌+◌, ◌++◌, String, Bool, true, false, ◌||◌, not, Option, none, some, is_some, List, [], ◌∷◌,
  Map, insert, length, ℤ, pos, negsuc, Time, str_eq, ltb, ◌==◌, if◌then◌else◌,
}
use push_dispatch.Push.Errors.{
  Error, plain, wrapped, Result, ok, err, new_send_error, ErrorCode, no_error, unregistered,
  transient, rate_limited, permanent, unknown,
}
use push_dispatch.Push.Types.{
  Target, TargetType, fid, token, other, Message, TargetResult, BatchResult, max_batch_targets,
  NotificationAnalytics,
}
use push_dispatch.Push.Payload.{Library, enrich_notification_data, validate_message}

-- What the adapter sets of the SDK's messages.
pub record AndroidMessage : Type 0 where
  pub collapse_key : String
  pub sound : String
  pub channel_id : String
  pub icon : String
  pub color : String
  pub ttl : Option ℕ

pub record AppleMessage : Type 0 where
  pub headers : Map String
  pub sound : String
  pub badge : Option ℤ

pub record MulticastMessage : Type 0 where
  pub title : String
  pub body : String
  pub payload : Map String
  pub analytics_label : Option String
  pub android : Option AndroidMessage
  pub apple : Option AppleMessage
  pub tokens : List String
  pub fids : List String

pub record SendResponse : Type 0 where
  pub success : Bool
  pub message_id : String
  pub error : Option Error

pub record BatchResponse : Type 0 where
  pub responses : List SendResponse
  pub success_count : ℕ
  pub failure_count : ℕ

-- The client, the SDK's tests on errors, the clock, and the seconds of an instant as a text.
pub record Messaging (W : Type 0) : Type 0 where
  pub send_each : MulticastMessage → W → Result BatchResponse × W
  pub now : W → Time × W
  pub unix_seconds : Time → String
  pub is_unregistered : Error → Bool
  pub is_quota_exceeded : Error → Bool
  pub is_internal : Error → Bool
  pub is_unavailable : Error → Bool
  pub is_third_party_auth_error : Error → Bool
  pub is_invalid_argument : Error → Bool
  pub is_sender_id_mismatch : Error → Bool

abbrev pub positive : ℤ → Option ℕ
positive (pos n) = if n == 0 then none else some n
positive (negsuc n) = none

abbrev pub given : String → Option String
given s = if str_eq s "" then none else some s

abbrev pub is_token : TargetType → Bool
is_token token = true
is_token _ = false

abbrev pub is_fid : TargetType → Bool
is_fid fid = true
is_fid _ = false

-- The two loops over the targets: those of a kind, in their order.
unfoldable pub of_kind : (TargetType → Bool) → List Target → List Target
of_kind kind [] = []
of_kind kind (t ∷ ts) = let rest = of_kind kind ts in if kind t.target_type then t ∷ rest else rest

unfoldable pub ordered_targets : List Target → List Target
ordered_targets ts = of_kind is_token ts ++ of_kind is_fid ts

abbrev pub addresses : List Target → List String
addresses [] = []
addresses (t ∷ ts) = t.address ∷ addresses ts

module _ {W : Type 0} (library : Library) (messaging : Messaging W) where
  -- `classifyError`.
  unfoldable pub classify_error : Option Error → ErrorCode
  classify_error none = no_error
  classify_error (some e) =
      if messaging.is_unregistered e
      then unregistered
      else if messaging.is_quota_exceeded e
      then rate_limited
      else if messaging.is_internal e || messaging.is_unavailable e
      then transient
      else if messaging.is_third_party_auth_error e
      then unknown
      else if messaging.is_invalid_argument e || messaging.is_sender_id_mismatch e
      then permanent
      else unknown

  -- The headers for Apple: the expiration, then the collapse id.
  abbrev pub expiration_header : Option ℕ → Time → Map String
  expiration_header none now = []
  expiration_header (some ttl) now =
      insert "apns-expiration" (messaging.unix_seconds (now + ttl)) []

  abbrev pub collapse_header : Option String → Map String → Map String
  collapse_header none headers = headers
  collapse_header (some id) headers = insert "apns-collapse-id" id headers

  abbrev pub android_part : Message → Option AndroidMessage
  android_part m =
      if is_some (positive m.ttl)
        || not (str_eq m.android.sound "")
        || not (str_eq m.android.channel_id "")
        || not (str_eq m.android.icon "")
        || not (str_eq m.android.color "")
        || not (str_eq m.android.collapse_key "")
      then some (record {
        collapse_key = m.android.collapse_key;
        sound = m.android.sound;
        channel_id = m.android.channel_id;
        icon = m.android.icon;
        color = m.android.color;
        ttl = positive m.ttl;
      })
      else none

  abbrev pub apple_part : Message → Time → Option AppleMessage
  apple_part m now =
      if is_some (positive m.ttl)
        || not (str_eq m.apple.sound "")
        || is_some m.apple.badge
        || not (str_eq m.apple.collapse_id "")
      then some (record {
        headers =
            collapse_header (given m.apple.collapse_id) (expiration_header (positive m.ttl) now);
        sound = m.apple.sound;
        badge = m.apple.badge;
      })
      else none

  -- `toMulticastMessage`.
  unfoldable pub to_multicast_message : Message → Time → Result MulticastMessage
  to_multicast_message m now = elim (enrich_notification_data library m.payload m.analytics) [
    | err e ↦ err e
    | ok payload ↦ ok (record {
      title = m.title;
      body = m.body;
      payload = payload;
      analytics_label = given m.analytics.label;
      android = android_part m;
      apple = apple_part m now;
      tokens = [];
      fids = [];
    })
  ]

  -- The body of the loop over the responses.
  unfoldable pub result_of : Target → SendResponse → TargetResult
  result_of t r =
      if r.success
      then record { target = t; message_id = r.message_id; code = no_error; error = none }
      else record { target = t; message_id = ""; code = classify_error r.error; error = r.error }

  -- The loop over the responses, where there is one for each target.
  unfoldable pub results_of : List Target → List SendResponse → List TargetResult
  results_of [] rs = []
  results_of (t ∷ ts) [] = []
  results_of (t ∷ ts) (r ∷ rs) = result_of t r ∷ results_of ts rs

  abbrev pub no_result : BatchResult
  no_result = record { results = []; success_count = 0; failure_count = 0 }

  -- `SendBatch` after the answer of the client.
  unfoldable pub read_response : List Target → Result BatchResponse → BatchResult × Option Error
  read_response ordered (err e) =
      (no_result, new_send_error (classify_error (some e)) (some (wrapped "send FCM multicast" e)))
  read_response ordered (ok response) =
      if not (length response.responses == length ordered)
      then (no_result, some (plain "FCM returned another number of target results"))
      else (
        record {
          results = results_of ordered response.responses;
          success_count = response.success_count;
          failure_count = response.failure_count;
        },
        none,
      )

  -- `SendBatch` once the message is valid.
  unfoldable pub send_multicast : Message → List Target → W → (BatchResult × Option Error) × W
  send_multicast m targets w =
      let (t, w₁) = messaging.now w in
      let ordered = ordered_targets targets in
      elim (to_multicast_message m t) [
        | err e ↦ ((no_result, some (wrapped "build FCM message" e)), w₁)
        | ok multicast ↦
            if not (length ordered == length targets)
            then ((no_result, some (plain "FCM batch contains an unsupported target type")), w₁)
            else let (answer, w₂) =
                messaging.send_each
                  (record multicast {
                    tokens = addresses (of_kind is_token targets);
                    fids = addresses (of_kind is_fid targets);
                  })
                  w₁ in
              (read_response ordered answer, w₂)
      ]

  -- `SendBatch`.
  unfoldable pub send_fcm : Message → List Target → W → (BatchResult × Option Error) × W
  send_fcm m targets w =
      if length targets == 0
      then ((no_result, none), w)
      else if ltb max_batch_targets (length targets)
      then ((no_result, some (plain "FCM batch has too many targets")), w)
      else elim (validate_message library m) [
        | some e ↦ ((no_result, some e), w)
        | none ↦ send_multicast m targets w
      ]
