-- ===== src/Push/Store/Operations.antt =====
-- push/store/store.go and push/store/targets.go: the methods of the store, and push/targets.go: the
-- references to disable after a send. A method changes the database only through its transactions.
use push_dispatch.Base.{
  ◌++◌, String, len, Bool, true, false, ◌&&◌, ◌||◌, not, Option, none, some, List, [], ◌∷◌, Map,
  keys, lookup, insert, has, Time, is_zero_time, str_eq, str_lt, sort, ltb, if◌then◌else◌,
}
use push_dispatch.Push.Errors.{
  Error, Errors, nil, cons, plain, wrapped, Result, ok, err, ◌>>=◌, ErrorCode, unregistered,
}
use push_dispatch.Push.Types.{Target, TargetResult, BatchResult}
use push_dispatch.Push.Send.{join_errors}
use push_dispatch.Push.Installation.{
  Installation, InstallationRef, InstallationHeartbeat, address_of, active_at,
}
use push_dispatch.Push.Store.Newest.{newest_active_installation}
use push_dispatch.Push.Store.Documents.{
  Fetched, found, not_found, unavailable, Config, Callback, Database, installation_not_found,
  user_not_found, decoded,
}
use push_dispatch.Push.Store.Callbacks.{
  upsert_body, heartbeat_body, mark_body, disable_body, delete_owner_body,
}

-- `UnregisteredInstallationRefs`.
abbrev pub is_invalid_target : TargetResult → Bool
is_invalid_target r =
    is_unregistered_code r.code
    && not (str_eq r.target.recipient_id "")
    && not (str_eq r.target.id "")
  where
    is_unregistered_code : ErrorCode → Bool
    is_unregistered_code unregistered = true
    is_unregistered_code _ = false

unfoldable pub refs_among : List TargetResult → List InstallationRef
refs_among [] = []
refs_among (r ∷ rs) =
    let rest = refs_among rs in
    if is_invalid_target r
    then record { uid = r.target.recipient_id; installation_id = r.target.id } ∷ rest
    else rest

abbrev pub unregistered_installation_refs : BatchResult → List InstallationRef
unregistered_installation_refs result = refs_among result.results

-- `byUser`, for each user a set of ids as a list of different ones.
abbrev pub ids_of : Option (List String) → List String
ids_of none = []
ids_of (some ids) = ids

abbrev pub add_id : String → List String → List String
add_id id ids = if has ids id then ids else ids ++ (id ∷ [])

unfoldable pub by_user : List InstallationRef → Map (List String) → Map (List String)
by_user [] m = m
by_user (ref ∷ refs) m =
    let skipped = by_user refs m in
    let added =
      by_user refs (insert ref.uid (add_id ref.installation_id (ids_of (lookup ref.uid m))) m) in
    if str_eq ref.uid "" || str_eq ref.installation_id "" then skipped else added

abbrev pub with_error : Option Error → Errors → Errors
with_error none es = es
with_error (some e) es = cons e es

-- A target of the user, as `ActiveTargets` and `NewestActiveTarget` make it.
abbrev pub target_of : String → String → Installation → Target
target_of uid id i = record {
  id = id;
  recipient_id = uid;
  target_type = i.target_type;
  address = address_of i;
}

-- The loop of `ActiveTargets` over the ids; all of them are keys of the map.
abbrev pub target_if_active :
    String → Time → String → Option Installation → List Target → List Target
target_if_active uid now id none rest = rest
target_if_active uid now id (some i) rest =
    if active_at i now then target_of uid id i ∷ rest else rest

unfoldable pub targets_among : String → Time → Map Installation → List String → List Target
targets_among uid now stored [] = []
targets_among uid now stored (id ∷ ids) =
    target_if_active uid now id (lookup id stored) (targets_among uid now stored ids)

unfoldable pub active_targets_of : String → Time → Map Installation → List Target
active_targets_of uid now stored = targets_among uid now stored (sort str_lt (keys stored))

-- `NewestActiveTarget` after its read.
abbrev pub newest_target : String → Map Installation → Time → Result Target
newest_target uid stored now =
    let newest = newest_active_installation stored now in
    if not newest.1 then err installation_not_found else ok (target_of uid newest.0.0 newest.0.1)

abbrev pub active_answer :
    String → Time → Fetched (Result (Map Installation)) → Result (List Target)
active_answer uid now (found r) = r >>= λ stored. ok (active_targets_of uid now stored)
active_answer uid now not_found = ok []
active_answer uid now (unavailable e) = err e

abbrev pub newest_answer : String → Time → Fetched (Result (Map Installation)) → Result Target
newest_answer uid now (found r) =
    decoded "decode push installations" r >>= λ stored. newest_target uid stored now
newest_answer uid now not_found = err user_not_found
newest_answer uid now (unavailable e) = err (wrapped "get push installation user" e)

module _ {W : Type 0} (database : Database W) (config : Config) where
  -- The defaults of `UpsertPushInstallation`.
  abbrev pub with_updated_at : Installation → W → Installation × W
  with_updated_at i w =
      let (t, w') = database.now w in
      if is_zero_time i.updated_at then (record i { updated_at = t }, w') else (i, w)

  abbrev pub with_created_at : Installation → Installation
  with_created_at i =
      if is_zero_time i.created_at then record i { created_at = i.updated_at } else i

  -- `UpsertPushInstallation`.
  unfoldable pub upsert : String → String → Installation → W → Option Error × W
  upsert uid id installation w =
      let (i, w') = with_updated_at installation w in
      database.transact (upsert_body config uid id (with_created_at i)) w'

  -- `HeartbeatPushInstallation`.
  unfoldable pub heartbeat : String → String → InstallationHeartbeat → W → Option Error × W
  heartbeat uid id beat w = database.transact (heartbeat_body uid id beat) w

  -- `DisablePushInstallation`.
  unfoldable pub disable_one : String → String → Time → W → Option Error × W
  disable_one uid id t w = database.transact (disable_body uid (id ∷ []) t true) w

  -- The loops over the users, whose errors are joined.
  unfoldable pub for_users : (String → List String → Callback) → Map (List String) → W → Errors × W
  for_users body [] w = (nil, w)
  for_users body ((uid, ids) ∷ users) w =
      let (e, w₁) = database.transact (body uid ids) w in
      let (es, w₂) = for_users body users w₁ in (with_error e es, w₂)

  -- `DisablePushInstallations`.
  unfoldable pub disable : List InstallationRef → Time → W → Option Error × W
  disable refs t w =
      let (es, w') = for_users (λ uid ids. disable_body uid ids t false) (by_user refs []) w in
      (join_errors es, w')

  -- `MarkPushInstallationsDelivered`.
  abbrev pub is_invalid_marker : String → String → Bool
  is_invalid_marker key value =
      str_eq key "" || str_eq value "" || ltb 64 (len key) || ltb 128 (len value)

  unfoldable pub mark_delivered : List InstallationRef → String → String → W → Option Error × W
  mark_delivered refs key value w =
      let (es, w') = for_users (λ uid ids. mark_body uid ids key value) (by_user refs []) w in
      if is_invalid_marker key value
      then (some (plain "invalid push delivery marker"), w)
      else (join_errors es, w')

  -- `DeleteOwnersForUser`.
  unfoldable pub delete_each : String → List String → W → Errors × W
  delete_each uid [] w = (nil, w)
  delete_each uid (id ∷ ids) w =
      let (e, w₁) = database.transact (delete_owner_body id uid) w in
      let (es, w₂) = delete_each uid ids w₁ in (with_error e es, w₂)

  abbrev pub delete_listed : String → Result (List String) × W → Option Error × W
  delete_listed uid (err e, w) = (some (wrapped "list owned push targets" e), w)
  delete_listed uid (ok ids, w) = let (es, w') = delete_each uid ids w in (join_errors es, w')

  unfoldable pub delete_owners_for_user : String → W → Option Error × W
  delete_owners_for_user uid w = delete_listed uid (database.list_owned uid w)

  -- `ActiveTargets`.
  unfoldable pub active_targets : String → Time → W → Result (List Target) × W
  active_targets uid now w =
      let (answer, w') = database.get_user uid w in (active_answer uid now answer, w')

  -- `NewestActiveTarget`.
  unfoldable pub newest_active_target : String → Time → W → Result Target × W
  newest_active_target uid now w =
      let (answer, w') = database.get_user uid w in (newest_answer uid now answer, w')
