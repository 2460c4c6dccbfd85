-- ===== src/Push/Store/Prune.antt =====
-- push/store/store.go: `retire`, `prune`, `NewestActiveInstallation` and `deleteStatusBlocked`, the
-- functions on the installations of one user.
pub mod Lookups
pub mod Limits
pub mod Oldest
use push_dispatch.Base.{
  ℕ, ◌+◌, ◌++◌, String, Bool, true, false, ◌&&◌, ◌||◌, not, Option, none, some, List, [], ◌∷◌, Map,
  ◌*◌, lookup, insert, delete, length, Time, is_zero_time, time_sub, exceeds, hour, str_eq, str_lt,
  sort, ltb, leb, ◌==◌, if◌then◌else◌,
}
use push_dispatch.Push.Installation.{Installation}

abbrev pub installation_retention : ℕ
installation_retention = 90 * 24 * hour

abbrev pub disabled_install_retention : ℕ
disabled_install_retention = 30 * 24 * hour

abbrev pub max_installations_per_user : ℕ
max_installations_per_user = 20

-- `deleteStatusBlocked`.
abbrev pub blocked_or_unknown : Option Bool → Bool
blocked_or_unknown none = true
blocked_or_unknown (some blocked) = blocked

unfoldable pub delete_status_blocked : String → Bool → Map Bool → Bool
delete_status_blocked status valid configured =
    if not valid then true else blocked_or_unknown (lookup status configured)

-- `retire`: the installation without its address.
abbrev pub retired : Time → Installation → Installation
retired disabled_at i = record i {
  enabled = false;
  fid_text = "";
  token_text = "";
  disabled_at = disabled_at;
  updated_at = disabled_at;
}

unfoldable pub retire : Map Installation → String → Time → Map Installation × Bool
retire installations id disabled_at = elim (lookup id installations) [
  | none ↦ (installations, false)
  | some i ↦ (insert id (retired disabled_at i) installations, true)
]

-- `lastSeen`.
abbrev pub last_seen : Installation → Time
last_seen i = if is_zero_time i.last_seen_at then i.updated_at else i.last_seen_at

-- The two tests of the first loop of `prune`.
unfoldable pub is_expired : Time → Installation → Bool
is_expired now i =
    not (is_zero_time (last_seen i)) && exceeds (time_sub now (last_seen i)) installation_retention
    || not i.enabled
      && not (is_zero_time i.disabled_at)
      && exceeds (time_sub now i.disabled_at) disabled_install_retention

-- The first loop of `prune`, over the entries, which it deletes from the map.
unfoldable pub expire :
    String
    → Time
    → Map Installation
    → Map Installation
    → List String
    → Map Installation × List String
expire keep now [] installations removed = (installations, removed)
expire keep now ((id, i) ∷ entries) installations removed =
    let kept = expire keep now entries installations removed in
    let dropped = expire keep now entries (delete id installations) (removed ++ (id ∷ [])) in
    if str_eq id keep then kept else if is_expired now i then dropped else kept

-- `candidates`: an id and when it was last seen.
unfoldable pub candidates : String → Map Installation → Map Time
candidates keep [] = []
candidates keep ((id, i) ∷ entries) =
    let rest = candidates keep entries in if str_eq id keep then rest else (id, last_seen i) ∷ rest

-- The order of `sort.Slice`.
unfoldable pub seen_before : String × Time → String × Time → Bool
seen_before (id, t) (id', t') = if t == t' then str_lt id id' else ltb t t'

-- The last loop of `prune`.
unfoldable pub evict : Map Time → Map Installation → List String → Map Installation × List String
evict [] installations removed = (installations, removed)
evict ((id, t) ∷ rest) installations removed =
    let next = evict rest (delete id installations) (removed ++ (id ∷ [])) in
    if leb (length installations) max_installations_per_user then (installations, removed) else next

-- `prune` after its first loop.
unfoldable pub cap : String → Map Installation × List String → Map Installation × List String
cap keep (installations, removed) =
    let evicted = evict (sort seen_before (candidates keep installations)) installations removed in
    if leb (length installations) max_installations_per_user
    then (installations, sort str_lt removed)
    else (evicted.0, sort str_lt evicted.1)

-- `prune`.
unfoldable pub prune : Map Installation → String → Time → Map Installation × List String
prune installations keep now = cap keep (expire keep now installations installations [])
