-- ===== src/Api/Devices.antt =====
-- api/devices.go: the handlers of devices.
use Prim.Native.Char.{Char, code}
use push_dispatch.Base.{
  String, len, Bool, true, false, ◌||◌, ◌&&◌, not, Option, none, some, is_some, Time, ◌==◌, leb,
  if◌then◌else◌,
}
use push_dispatch.Push.Errors.{Error, Result, ok, err}
use push_dispatch.Push.Installation.{
  Installation, InstallationHeartbeat, InstallationLibrary, RegistrationRequest, HeartbeatRequest,
  new_installation, validate_heartbeat,
}
use push_dispatch.Api.{Response, refused, answered, no_content, Request, is_error, wrap}

-- The interface `InstallationStore` (push/targets.go) and the clock.
pub record InstallationStore (W : Type 0) : Type 0 where
  pub now : W → Time × W
  pub upsert : String → String → Installation → W → Option Error × W
  pub heartbeat : String → String → InstallationHeartbeat → W → Option Error × W
  pub disable : String → String → Time → W → Option Error × W

-- `validID`: sixty-four digits of a hash.
abbrev pub is_hex : Char → Bool
is_hex c = leb 97 (code c) && leb (code c) 102 || leb 48 (code c) && leb (code c) 57

unfoldable pub all_hex : String → Bool
all_hex String.[] = true
all_hex (String.◌∷◌ c s) = is_hex c && all_hex s

unfoldable pub valid_id : String → Bool
valid_id id = if not (len id == 64) then false else all_hex id

-- `storeError`.
unfoldable pub store_error : {A : Type 0} → Error → Response A
store_error e =
    if is_error "push installation not found" e || is_error "push installation user not found" e
    then refused 404 "not found"
    else if is_error "account deletion prevents push registration" e
    then refused 409 "registration blocked"
    else refused 503 "storage unavailable"

abbrev pub receipt : {W : Type 0} → String → Option Error × W → Response String × W
receipt id (none, w) = (answered id, w)
receipt id (some e, w) = (store_error e, w)

abbrev pub removal_answer : {W : Type 0} → Option Error × W → Response String × W
removal_answer (none, w) = (no_content, w)
removal_answer (some e, w) =
    if is_error "push installation not found" e then (no_content, w) else (store_error e, w)

module _ {W : Type 0} (library : InstallationLibrary) (contains_separator : String → Bool)
    (store : InstallationStore W) where
  -- `POST /v1/devices`.
  abbrev pub register_checked : String → Result (String × Installation) → W → Response String × W
  register_checked uid (err e) w = (refused 400 "invalid registration", w)
  register_checked uid (ok (id, installation)) w = receipt id (store.upsert uid id installation w)

  abbrev pub register_body : Option RegistrationRequest → String → W → Response String × W
  register_body none uid w = (refused 400 "invalid JSON", w)
  register_body (some request) uid w =
      let (t, w₁) = store.now w in register_checked uid (new_installation library request t) w₁

  unfoldable pub register_device : Request RegistrationRequest → W → Response String × W
  register_device request w = wrap contains_separator (register_body request.body) request w

  -- `POST /v1/devices/{id}/heartbeat`.
  abbrev pub heartbeat_of : HeartbeatRequest → Time → InstallationHeartbeat
  heartbeat_of request t = record {
    permission = request.permission;
    timezone = request.timezone;
    enabled = request.enabled;
    seen_at = t;
  }

  abbrev pub beat_body : Option HeartbeatRequest → String → String → W → Response String × W
  beat_body none id uid w = (refused 400 "invalid JSON", w)
  beat_body (some request) id uid w =
      let (t, w₁) = store.now w in
      let beaten = receipt id (store.heartbeat uid id (heartbeat_of request t) w₁) in
      if not (valid_id id) || is_some (validate_heartbeat library request)
      then (refused 400 "invalid heartbeat", w)
      else beaten

  unfoldable pub beat_device : Request HeartbeatRequest → W → Response String × W
  beat_device request w = wrap contains_separator (beat_body request.body request.id) request w

  -- `DELETE /v1/devices/{id}`, which has no body.
  abbrev pub removal_body : String → String → W → Response String × W
  removal_body id uid w =
      let (t, w₁) = store.now w in
      let removed = removal_answer (store.disable uid id t w₁) in
      if not (valid_id id) then (refused 400 "invalid installation", w) else removed

  unfoldable pub remove_device : Request (Unit {0}) → W → Response String × W
  remove_device request w = wrap contains_separator (removal_body request.id) request w
