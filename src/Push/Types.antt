-- ===== src/Push/Types.antt =====
-- push/push.go and the payload of push/notification_analytics.go: the data that the dispatcher, the
-- provider adapter, the store and the scheduler share.
use push_dispatch.Base.{
  ℕ, ℤ, String, Bool, true, false, Option, none, some, List, [], ◌∷◌, Map, str_eq, if◌then◌else◌,
}
use push_dispatch.Push.Errors.{Error, plain, ErrorCode}
use Prim.Native.String.{◌++◌ as append}

abbrev pub max_batch_targets : ℕ
max_batch_targets = 500

abbrev pub default_batch_concurrency : ℕ
default_batch_concurrency = 1

abbrev pub max_batch_concurrency : ℕ
max_batch_concurrency = 4

-- Go's `TargetType` and `Provider` are strings: `other` stands for any string but the named ones.
pub data TargetType : Type 0 where
  fid token : TargetType
  other : String → TargetType

abbrev pub target_type_text : TargetType → String
target_type_text fid = "fid"
target_type_text token = "token"
target_type_text (other s) = s

-- `TargetType.Valid`.
abbrev pub valid_target_type : TargetType → Bool
valid_target_type fid = true
valid_target_type token = true
valid_target_type (other s) = false

pub record Target : Type 0 where
  pub id : String
  pub recipient_id : String
  pub target_type : TargetType
  pub address : String

pub record AppleConfig : Type 0 where
  pub sound : String
  pub badge : Option ℤ
  pub collapse_id : String

pub record AndroidConfig : Type 0 where
  pub sound : String
  pub channel_id : String
  pub icon : String
  pub color : String
  pub collapse_key : String

pub record NotificationAnalytics : Type 0 where
  pub notification_id : String
  pub app : String
  pub kind : String
  pub label : String

pub record Message : Type 0 where
  pub title : String
  pub body : String
  pub payload : Map String
  pub analytics : NotificationAnalytics
  pub ttl : ℤ
  pub apple : AppleConfig
  pub android : AndroidConfig

pub record TargetResult : Type 0 where
  pub target : Target
  pub message_id : String
  pub code : ErrorCode
  pub error : Option Error

pub record BatchResult : Type 0 where
  pub results : List TargetResult
  pub success_count : ℕ
  pub failure_count : ℕ

-- `BatchSender.SendBatch` over a world that the call may change and that answers it.
abbrev pub BatchSender : Type 0 → Type 0
BatchSender W = Message → List Target → W → (BatchResult × Option Error) × W

-- `validateTarget`.
unfoldable pub validate_target : Target → Option Error
validate_target target =
    if str_eq target.address ""
    then some (plain "push target address is required")
    else if valid_target_type target.target_type
    then none
    else some (plain "unsupported push target type")

-- `targetKey` (push/dispatcher.go).
unfoldable pub target_key : Target → String
target_key target = append (target_type_text target.target_type) (append "\0" target.address)

abbrev pub target_ids : List Target → List String
target_ids [] = []
target_ids (t ∷ ts) = t.id ∷ target_ids ts

abbrev pub target_keys : List Target → List String
target_keys [] = []
target_keys (target ∷ targets) = target_key target ∷ target_keys targets
