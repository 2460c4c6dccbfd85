-- ===== src/Tests/Installed.antt =====
-- The installations of one user, more than are kept.
use push_dispatch.Base.{
  ℕ, ◌+◌, length, ◌≡◌, ◌≤◌, refl, String, List, [], ◌∷◌, Map, lookup, insert, insert-Distinct,
  delete, keys, Distinct, IsSorted, insert_sorted, sort, str_lt, str_eq, str_eq_iff, arith,
}
use push_dispatch.Push.Installation.{Installation, installation_of}
use push_dispatch.Push.Store.Prune.{
  prune, cap, candidates, evict, expire, is_expired, seen_before, last_seen,
}
use push_dispatch.Push.Store.Prune.Lookups.{IsRemoval, prune-IsRemoval}
use push_dispatch.Push.Store.Prune.Oldest.{prune_oldest}
use push_dispatch.Push.Store.Newest.{newest_active_installation}
use push_dispatch.Push.Store.Newest.Choice.{newest_active_installation_order}
use push_dispatch.Tests.Data.{at_dusk}
use push_dispatch.Tests.Register.{registered}

abbrev handset : Installation
handset = registered.1

-- The handset, last seen `n` nanoseconds after dusk.
abbrev seen : ℕ → Installation
seen n = record handset { last_seen_at = at_dusk + n }

abbrev installed : List String → Map Installation
installed [] = []
installed (id ∷ ids) = insert id (seen (length ids)) (installed ids)

installed-Distinct : (ids : List String) → Distinct (keys (installed ids))
installed-Distinct [] = tt
installed-Distinct (id ∷ ids) =
    insert-Distinct id (seen (length ids)) (installed ids) (installed-Distinct ids)

abbrev letters : List String
letters =
    "a" ∷ "b" ∷ "c" ∷ "d" ∷ "e" ∷ "f" ∷ "g" ∷ "h" ∷ "i" ∷ "j" ∷ "k" ∷ "l" ∷ "m" ∷ "n" ∷ "o" ∷ "p"
    ∷ "q" ∷ "r" ∷ "s" ∷ "t" ∷ "u" ∷ "v" ∷ []

prune-IsRemoval_example :
    let after = prune (installed letters) "a" at_dusk in
    IsRemoval (installed letters) "a" after.0 after.1 × IsSorted str_lt after.1
prune-IsRemoval_example =
    prune-IsRemoval (installed letters) "a" at_dusk (installed-Distinct letters)

-- Of twenty-two, the two that were not seen for longest are removed.
prune_oldest_example : last_seen (seen 0) ≤ last_seen (seen 20)
unfolding lookup insert str_eq is_expired installation_of prune cap expire evict sort candidates
    insert_sorted seen_before str_lt delete
prune_oldest_example =
    prune_oldest (installed letters) "a" at_dusk "v" "b" (seen 0) (seen 20)
      (installed-Distinct letters) refl refl refl refl refl

abbrev pair : Map Installation
pair = ("p", handset) ∷ ("q", handset) ∷ []

abbrev reversed : Map Installation
reversed = ("q", handset) ∷ ("p", handset) ∷ []

newest_active_installation_order_example :
    newest_active_installation pair at_dusk ≡ newest_active_installation reversed at_dusk
unfolding str_eq lookup
newest_active_installation_order_example =
    newest_active_installation_order pair reversed at_dusk (refl, (refl, tt)) (refl, (refl, tt))
      refl refl pair-lookup
  where
    pair-lookup : (k : String) → lookup k pair ≡ lookup k reversed
    pair-lookup k = ground (arith, str_eq_iff "p" k, str_eq_iff "q" k)
