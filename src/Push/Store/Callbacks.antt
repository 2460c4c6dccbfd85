-- ===== src/Push/Store/Callbacks.antt =====
-- push/store/store.go: the callbacks of the transactions, with the functions that they call.
use push_dispatch.Base.{
  ◌++◌, String, Bool, true, false, ◌&&◌, ◌||◌, not, Option, none, some, List, [], ◌∷◌, Map, map,
  lookup, insert, Time, zero_time, str_eq, str_lt, sort, length, ◌==◌, if◌then◌else◌,
}
use push_dispatch.Push.Errors.{wrapped, Result, ok, err, ◌>>=◌, ◌>>◌, refuse_if}
use push_dispatch.Push.Installation.{
  Installation, InstallationHeartbeat, address_of, delivered_for, preserve_registration_state,
}
use push_dispatch.Push.Store.Prune.{delete_status_blocked, retire, prune}
use push_dispatch.Push.Store.Documents.{
  Fetched, found, not_found, unavailable, Snapshot, Write, set_installations, set_owner,
  delete_owner, Config, Callback, installation_not_found, user_not_found, account_deletion_fenced,
  decoded,
}

-- Whether the status of a deletion request blocks the account; `none` is a status that is not there
-- or not a text.
abbrev pub status_blocks : Config → Option String → Bool
status_blocks config none = true
status_blocks config (some name) = delete_status_blocked name true config.blocked_statuses

abbrev pub blocks_account : Config → Option String → Bool
blocks_account config status =
    if length config.blocked_statuses == 0
    then true
    else config.has_status_field && status_blocks config status

abbrev pub check_fence : Config → Fetched (Option String) → Result (Unit {0})
check_fence config (found status) = refuse_if (blocks_account config status) account_deletion_fenced
check_fence config not_found = ok tt
check_fence config (unavailable e) = err (wrapped "get account deletion fence" e)

-- What `UpsertPushInstallation` reads: the installations of the user, the user of the target, and the
-- installations of another user who has it.
abbrev pub read_user : Config → Fetched (Result (Map Installation)) → Result (Map Installation)
read_user config (found r) = decoded "decode push installations" r
read_user config not_found = if config.create_users then ok [] else err user_not_found
read_user config (unavailable e) = err (wrapped "get push installation user" e)

abbrev pub read_owner : Fetched (Result String) → Result String
read_owner (found r) = decoded "decode push target owner" r
read_owner not_found = ok ""
read_owner (unavailable e) = err (wrapped "get push target owner" e)

abbrev pub read_prior : Fetched (Result (Map Installation)) → Result (Map Installation)
read_prior (found r) = decoded "decode prior push target owner" r
read_prior not_found = ok []
read_prior (unavailable e) = err (wrapped "get prior push target owner" e)

abbrev pub is_moved : String → String → Bool
is_moved owner uid = not (str_eq owner "") && not (str_eq owner uid)

-- `ownerBelongsTo`.
abbrev pub owner_belongs_to : String → String → Bool
owner_belongs_to owner uid = not (str_eq uid "") && str_eq owner uid

-- `ownedPrunedTargetRefs`: the ids in order, of which those that the user owns are kept.
abbrev pub add_owned :
    String → String → Fetched (Result String) → Result (List String) → Result (List String)
add_owned uid id not_found rest = rest
add_owned uid id (unavailable e) rest = err (wrapped "get pruned push target owner" e)
add_owned uid id (found r) rest = decoded "decode pruned push target owner" r >>= λ owner.
    rest >>= λ refs. ok (if owner_belongs_to owner uid then id ∷ refs else refs)

unfoldable pub owned_among : Snapshot → String → List String → Result (List String)
owned_among s uid [] = ok []
owned_among s uid (id ∷ ids) = add_owned uid id (s.owners id) (owned_among s uid ids)

abbrev pub owned_pruned_targets : Snapshot → String → List String → Result (List String)
owned_pruned_targets s uid ids = owned_among s uid (sort str_lt ids)

-- The installation to store: what `PreserveRegistrationState` keeps of one that is there.
abbrev pub preserved : Option Installation → Installation → Installation
preserved none installation = installation
preserved (some existing) installation = preserve_registration_state existing installation

abbrev pub retire_writes : String → Time → Map Installation × Bool → List Write
retire_writes owner t (installations, true) = set_installations owner installations (some t) ∷ []
retire_writes owner t (installations, false) = []

-- The callback of `UpsertPushInstallation`.
unfoldable pub upsert_writes :
    Snapshot
    → String
    → String
    → Installation
    → Map Installation
    → String
    → Map Installation
    → Result (List Write)
upsert_writes s uid id original stored owner prior =
    let installation = preserved (lookup id stored) original in
    let pruned = prune (insert id installation stored) id installation.updated_at in
    owned_pruned_targets s uid pruned.1 >>= λ dropped. ok (
      (if is_moved owner uid
        then retire_writes owner installation.updated_at (retire prior id installation.updated_at)
        else [])
      ++ (set_installations uid pruned.0 (some installation.updated_at)
          ∷ set_owner id uid installation.updated_at
          ∷ map delete_owner dropped))

unfoldable pub upsert_body : Config → String → String → Installation → Callback
upsert_body config uid id original s =
    (if config.has_fences then check_fence config (s.fences uid) else ok tt)
    >> (read_user config (s.users uid) >>= λ stored. read_owner (s.owners id) >>= λ owner.
        (if is_moved owner uid then read_prior (s.users owner) else ok []) >>= λ prior.
        upsert_writes s uid id original stored owner prior)

-- The callback of `HeartbeatPushInstallation`.
abbrev pub or_keep {ℓ} : {A : Type ℓ} → Option A → A → A
or_keep none a = a
or_keep (some b) a = b

abbrev pub disabled_at_for : Option Bool → Time → Time → Time
disabled_at_for none seen_at t = t
disabled_at_for (some true) seen_at t = zero_time
disabled_at_for (some false) seen_at t = seen_at

unfoldable pub beat : InstallationHeartbeat → Installation → Installation
beat heartbeat i = record i {
  permission = or_keep heartbeat.permission i.permission;
  timezone = or_keep heartbeat.timezone i.timezone;
  enabled = or_keep heartbeat.enabled i.enabled;
  disabled_at = disabled_at_for heartbeat.enabled heartbeat.seen_at i.disabled_at;
  last_seen_at = heartbeat.seen_at;
  updated_at = heartbeat.seen_at;
}

abbrev pub read_beating : Fetched (Result (Map Installation)) → Result (Map Installation)
read_beating (found r) = decoded "decode push installations" r
read_beating not_found = err installation_not_found
read_beating (unavailable e) = err (wrapped "get user for push heartbeat" e)

abbrev pub with_address : Option Installation → Result Installation
with_address none = err installation_not_found
with_address (some i) = if str_eq (address_of i) "" then err installation_not_found else ok i

unfoldable pub heartbeat_writes :
    Snapshot → String → String → InstallationHeartbeat → Map Installation → Result (List Write)
heartbeat_writes s uid id heartbeat stored = with_address (lookup id stored) >>= λ i.
    let pruned = prune (insert id (beat heartbeat i) stored) id heartbeat.seen_at in
    owned_pruned_targets s uid pruned.1 >>= λ dropped.
    ok (set_installations uid pruned.0 (some heartbeat.seen_at) ∷ map delete_owner dropped)

unfoldable pub heartbeat_body : String → String → InstallationHeartbeat → Callback
heartbeat_body uid id heartbeat s =
    read_beating (s.users uid) >>= λ stored. heartbeat_writes s uid id heartbeat stored

-- The callback of `markDelivered`; the loop visits the ids in the order of the list.
abbrev pub mark : String → String → Installation → Installation
mark key value i = record i { delivered = some (insert key value (marks_of i.delivered)) }
  where
    marks_of : Option (Map String) → Map String
    marks_of none = []
    marks_of (some m) = m

abbrev pub skips_mark : String → String → Option Installation → Bool
skips_mark key value none = true
skips_mark key value (some i) = str_eq (address_of i) "" || delivered_for i key value

abbrev pub mark_found :
    String → String → String → Option Installation → Map Installation → Map Installation
mark_found id key value none m = m
mark_found id key value (some i) m = insert id (mark key value i) m

unfoldable pub mark_all :
    List String → String → String → Map Installation × Bool → Map Installation × Bool
mark_all [] key value state = state
mark_all (id ∷ ids) key value (m, changed) =
    let skipped = mark_all ids key value (m, changed) in
    let marked = mark_all ids key value (mark_found id key value (lookup id m) m, true) in
    if skips_mark key value (lookup id m) then skipped else marked

abbrev pub mark_writes : String → Map Installation × Bool → List Write
mark_writes uid (installations, true) = set_installations uid installations none ∷ []
mark_writes uid (installations, false) = []

abbrev pub mark_read :
    String
    → List String
    → String
    → String
    → Fetched (Result (Map Installation))
    → Result (List Write)
mark_read uid ids key value not_found = ok []
mark_read uid ids key value (unavailable e) = err (wrapped "get user for push delivery marker" e)
mark_read uid ids key value (found r) =
    decoded "decode push installations for delivery marker" r >>= λ stored.
    ok (mark_writes uid (mark_all ids key value (stored, false)))

unfoldable pub mark_body : String → List String → String → String → Callback
mark_body uid ids key value s = mark_read uid ids key value (s.users uid)

-- The callback of `disable`.
unfoldable pub retire_all : List String → Time → Map Installation × Bool → Map Installation × Bool
retire_all [] t state = state
retire_all (id ∷ ids) t (m, matched) =
    let next = retire m id t in retire_all ids t (next.0, matched || next.1)

abbrev pub disable_writes : String → Time → Bool → Map Installation × Bool → Result (List Write)
disable_writes uid t require_match (installations, true) =
    ok (set_installations uid installations (some t) ∷ [])
disable_writes uid t require_match (installations, false) =
    refuse_if require_match installation_not_found >> ok []

abbrev pub disable_read :
    String → List String → Time → Bool → Fetched (Result (Map Installation)) → Result (List Write)
disable_read uid ids t require_match not_found =
    refuse_if require_match installation_not_found >> ok []
disable_read uid ids t require_match (unavailable e) = err e
disable_read uid ids t require_match (found r) = decoded "decode push installations" r >>= λ stored.
    disable_writes uid t require_match (retire_all ids t (stored, false))

unfoldable pub disable_body : String → List String → Time → Bool → Callback
disable_body uid ids t require_match s = disable_read uid ids t require_match (s.users uid)

-- The callback of `deleteOwnerIfOwned`.
abbrev pub delete_owner_read : String → String → Fetched (Result String) → Result (List Write)
delete_owner_read id uid not_found = ok []
delete_owner_read id uid (unavailable e) = err (wrapped "get owned push target" e)
delete_owner_read id uid (found r) = decoded "decode owned push target" r >>= λ owner.
    ok (if not (str_eq owner uid) then [] else delete_owner id ∷ [])

unfoldable pub delete_owner_body : String → String → Callback
delete_owner_body id uid s = delete_owner_read id uid (s.owners id)
