-- ===== src/Push/Installation.antt =====
-- push/installation.go: the installations of an app on devices, their registration, and when they
-- are active. White space, lower case, timezones and hashes belong
-- to Go's library and are parameters.
pub mod Registered
use Prim.Native.String.{◌++◌ as append}
use push_dispatch.Base.{
  ℕ, ◌*◌, String, len, Bool, true, false, ◌&&◌, ◌||◌, not, Option, none, some, List, [], ◌∷◌, Map,
  lookup, Time, is_zero_time, zero_time, time_sub, within, hour, str_eq, ltb, if◌then◌else◌,
}
use push_dispatch.Push.Errors.{Error, plain, Result, ok, err, ErrorCode, unregistered}
use push_dispatch.Push.Types.{
  TargetType, fid, token, other, target_type_text, valid_target_type, TargetResult,
}

abbrev pub installation_active_window : ℕ
installation_active_window = 45 * 24 * hour

abbrev pub max_target_length : ℕ
max_target_length = 4096

abbrev pub max_timezone_length : ℕ
max_timezone_length = 128

abbrev pub max_locale_length : ℕ
max_locale_length = 64

abbrev pub max_app_version_length : ℕ
max_app_version_length = 64

-- `Provider`, `Platform` and `Permission` are texts: these are the named ones.
abbrev pub provider_fcm : String
provider_fcm = "fcm"

abbrev pub valid_platform : String → Bool
valid_platform p = str_eq p "ios" || str_eq p "android"

abbrev pub valid_permission : String → Bool
valid_permission p = str_eq p "granted" || str_eq p "denied" || str_eq p "unknown"

pub record Installation : Type 0 where
  pub provider : String
  pub target_type : TargetType
  pub fid_text : String
  pub token_text : String
  pub platform : String
  pub permission : String
  pub timezone : String
  pub locale : String
  pub app_version : String
  pub enabled : Bool
  pub created_at : Time
  pub updated_at : Time
  pub last_seen_at : Time
  pub disabled_at : Time
  pub delivered : Option (Map String)

pub record RegistrationRequest : Type 0 where
  pub provider : String
  pub target_type : TargetType
  pub target : String
  pub platform : String
  pub permission : String
  pub timezone : String
  pub locale : String
  pub app_version : String
  pub enabled : Option Bool

pub record HeartbeatRequest : Type 0 where
  pub permission : Option String
  pub timezone : Option String
  pub enabled : Option Bool

pub record InstallationRef : Type 0 where
  pub uid : String
  pub installation_id : String

pub record InstallationHeartbeat : Type 0 where
  pub permission : Option String
  pub timezone : Option String
  pub enabled : Option Bool
  pub seen_at : Time

pub record InstallationLibrary : Type 0 where
  pub trim_space : String → String
  pub to_lower : String → String
  pub load_location : String → Option Error
  pub sha256_hex : String → String

-- `Installation.Address`.
unfoldable pub address_by : TargetType → String → String → String
address_by fid fid_text token_text = fid_text
address_by token fid_text token_text = token_text
address_by (other s) fid_text token_text = ""

abbrev pub address_of : Installation → String
address_of i = address_by i.target_type i.fid_text i.token_text

-- `Installation.ActiveAt`.
unfoldable pub active_at : Installation → Time → Bool
active_at i now =
    str_eq i.provider provider_fcm
    && valid_target_type i.target_type
    && not (str_eq (address_of i) "")
    && valid_platform i.platform
    && i.enabled
    && str_eq i.permission "granted"
    && not (is_zero_time i.last_seen_at)
    && within (time_sub now i.last_seen_at) installation_active_window

abbrev pub reads_as : Option String → String → Bool
reads_as none value = str_eq "" value
reads_as (some v) value = str_eq v value

-- `Installation.DeliveredFor`; a nil map is `none`.
abbrev pub delivers : Option (Map String) → String → String → Bool
delivers none key value = false
delivers (some m) key value = reads_as (lookup key m) value

unfoldable pub delivered_for : Installation → String → String → Bool
delivered_for i key value = delivers i.delivered key value

-- The map of deliveries that `PreserveRegistrationState` keeps.
abbrev pub kept_deliveries : Option (Map String) → Option (Map String) → Option (Map String)
kept_deliveries none replacement = replacement
kept_deliveries (some []) replacement = replacement
kept_deliveries (some (entry ∷ m)) replacement = some (entry ∷ m)

-- `PreserveRegistrationState`.
unfoldable pub preserve_registration_state : Installation → Installation → Installation
preserve_registration_state existing replacement = record replacement {
  created_at =
      if not (is_zero_time existing.created_at)
      then existing.created_at
      else replacement.created_at;
  delivered = kept_deliveries existing.delivered replacement.delivered;
}

abbrev pub or_unknown : String → String
or_unknown p = if str_eq p "" then "unknown" else p

abbrev pub enabled_or_true : Option Bool → Bool
enabled_or_true none = true
enabled_or_true (some b) = b

abbrev pub fid_for : TargetType → String → String
fid_for fid target = target
fid_for _ target = ""

abbrev pub token_for : TargetType → String → String
token_for fid target = ""
token_for _ target = target

module _ (library : InstallationLibrary) where
  -- `InstallationID`.
  unfoldable pub installation_id : String → TargetType → String → String
  installation_id provider target_type target =
      library.sha256_hex
        (append provider (append "\0" (append (target_type_text target_type) (append "\0" target))))

  -- `ValidateTimezone`.
  unfoldable pub validate_timezone : String → Option Error
  validate_timezone timezone =
      if str_eq timezone ""
      then none
      else if ltb max_timezone_length (len timezone)
      then some (plain "timezone must be at most 128 characters")
      else elim (library.load_location timezone) [
        | some e ↦ some (plain "invalid timezone")
        | none ↦ none
      ]

  -- `ValidateHeartbeat`.
  abbrev pub validate_heartbeat_timezone : Option String → Option Error
  validate_heartbeat_timezone none = none
  validate_heartbeat_timezone (some timezone) = validate_timezone timezone

  unfoldable pub validate_heartbeat : HeartbeatRequest → Option Error
  validate_heartbeat request = elim request.permission [
    | none ↦ validate_heartbeat_timezone request.timezone
    | some p ↦
        if not (valid_permission p)
        then some (plain "invalid permission")
        else validate_heartbeat_timezone request.timezone
  ]

  abbrev pub platform_of : RegistrationRequest → String
  platform_of request = library.to_lower (library.trim_space request.platform)

  -- The checks of `NewInstallation` before and after the one of the timezone.
  unfoldable pub check_target : RegistrationRequest → Option Error
  check_target request =
      let target = library.trim_space request.target in
      if not (str_eq request.provider provider_fcm)
      then some (plain "provider must be fcm")
      else if not (valid_target_type request.target_type)
      then some (plain "targetType must be fid or token")
      else if str_eq target "" || ltb max_target_length (len target)
      then some (plain "target is required and must be at most 4096 characters")
      else if not (valid_platform (platform_of request))
      then some (plain "platform must be ios or android")
      else if not (valid_permission (or_unknown request.permission))
      then some (plain "invalid permission")
      else none

  unfoldable pub check_texts : RegistrationRequest → Option Error
  check_texts request =
      if ltb max_locale_length (len (library.trim_space request.locale))
      then some (plain "locale must be at most 64 characters")
      else if ltb max_app_version_length (len (library.trim_space request.app_version))
      then some (plain "appVersion must be at most 64 characters")
      else none

  unfoldable pub installation_of : RegistrationRequest → Time → Installation
  installation_of request now =
      let target = library.trim_space request.target in
      let enabled = enabled_or_true request.enabled in
      record {
        provider = request.provider;
        target_type = request.target_type;
        fid_text = fid_for request.target_type target;
        token_text = token_for request.target_type target;
        platform = platform_of request;
        permission = or_unknown request.permission;
        timezone = request.timezone;
        locale = library.trim_space request.locale;
        app_version = library.trim_space request.app_version;
        enabled = enabled;
        created_at = now;
        updated_at = now;
        last_seen_at = now;
        disabled_at = if enabled then zero_time else now;
        delivered = none;
      }

  -- `NewInstallation`.
  unfoldable pub new_installation : RegistrationRequest → Time → Result (String × Installation)
  new_installation request now = elim (check_target request) [
    | some e ↦ err e
    | none ↦ elim (validate_timezone request.timezone) [
      | some e ↦ err e
      | none ↦ elim (check_texts request) [
        | some e ↦ err e
        | none ↦ ok (
          installation_id request.provider request.target_type (library.trim_space request.target),
          installation_of request now,
        )
      ]
    ]
  ]
