-- ===== src/Push/Store/Newest.antt =====
-- push/store/store.go, `NewestActiveInstallation`: the loop over the installations of a user.
pub mod Choice
use push_dispatch.Base.{
  ℕ, String, Bool, true, false, ◌&&◌, ◌||◌, not, Option, none, some, List, [], ◌∷◌, Map, Time,
  zero_time, str_eq, str_lt, ltb, ◌==◌, if◌then◌else◌,
}
use push_dispatch.Push.Types.{other}
use push_dispatch.Push.Installation.{Installation, active_at}

-- `var newest push.Installation`.
abbrev pub no_installation : Installation
no_installation = record {
  provider = "";
  target_type = other "";
  fid_text = "";
  token_text = "";
  platform = "";
  permission = "";
  timezone = "";
  locale = "";
  app_version = "";
  enabled = false;
  created_at = zero_time;
  updated_at = zero_time;
  last_seen_at = zero_time;
  disabled_at = zero_time;
  delivered = none;
}

-- Seen later, or at the same time and with the lesser id.
unfoldable pub newer : String × Installation → String × Installation → Bool
newer (id, i) (id', i') =
    ltb i'.last_seen_at i.last_seen_at || (i.last_seen_at == i'.last_seen_at) && str_lt id id'

-- The loop, with `newestID` and `newest`.
unfoldable pub newest_from : Time → Map Installation → String × Installation → String × Installation
newest_from now [] best = best
newest_from now ((id, i) ∷ entries) best =
    let same = newest_from now entries best in
    let next = newest_from now entries (id, i) in
    if not (active_at i now)
    then same
    else if str_eq best.0 "" || newer (id, i) best
    then next
    else same

-- `NewestActiveInstallation`.
unfoldable pub newest_active_installation : Map Installation → Time → (String × Installation) × Bool
newest_active_installation installations now =
    let best = newest_from now installations ("", no_installation) in (best, not (str_eq best.0 ""))
