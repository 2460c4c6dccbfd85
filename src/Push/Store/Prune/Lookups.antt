-- ===== src/Push/Store/Prune/Lookups.antt =====
-- Which installations `prune` removes and which it keeps.
use push_dispatch.Base.{
  ◌≡◌, inl, inr, refl, sym, ap, ◌∙◌, ◌++◌, String, true, false, ◌||◌, none, some, is_some, List, [],
  ◌∷◌, Map, All, lookup, delete, lookup-delete, delete-Distinct, keys, has, Distinct,
  lookup_entries, Time, str_eq, str_eq_iff, str_lt, str_lt_asymm, str_lt_negtrans, insert_sorted,
  sort, IsSorted, IsOrder, sort-IsSorted, All-sort, length, All-mono, Bool-cases, if◌then◌else◌,
  leb, arith,
}
use push_dispatch.Push.Installation.{Installation}
use push_dispatch.Push.Store.Prune.{
  is_expired, expire, candidates, seen_before, evict, cap, prune, max_installations_per_user,
}

pub has-append_one :
    (r : List String) (id j : String) → has (r ++ (id ∷ [])) j ≡ (has r j || str_eq id j)
has-append_one [] id j = ground arith
has-append_one (x ∷ r) id j = ground (arith, has-append_one r id j)

-- A map with some ids removed: what is left is as before, the kept id is not removed, and only
-- installations that were there are removed.
pub record IsRemoval (before : Map Installation) (keep : String) (after : Map Installation)
    (removed : List String) : Type 0 where
  pub lookups : (j : String) → lookup j after ≡ (if has removed j then none else lookup j before)
  pub kept : has removed keep ≡ false
  pub only : (j : String) → has removed j ≡ true → is_some (lookup j before) ≡ true
  pub distinct : Distinct (keys after)

pub IsRemoval-refl :
    (m : Map Installation) (keep : String) → Distinct (keys m) → IsRemoval m keep m []
IsRemoval-refl m keep d = record {
  lookups = λ j. refl;
  kept = refl;
  only = λ j h. absurd (ground arith);
  distinct = d;
}

pub delete-IsRemoval :
    (before : Map Installation) (keep : String) (m : Map Installation) (r : List String)
    (id : String)
    → IsRemoval before keep m r
    → str_eq id keep ≡ false
    → is_some (lookup id before) ≡ true
    → IsRemoval before keep (delete id m) (r ++ (id ∷ []))
delete-IsRemoval before keep m r id v ne at = record {
  lookups = λ j. ground (arith, lookup-delete id j m, has-append_one r id j, v.lookups j);
  kept = ground (arith, has-append_one r id keep, v.kept);
  only = λ j h. ground (arith, has-append_one r id j, v.only j, str_eq_iff id j, at);
  distinct = delete-Distinct id m v.distinct;
}

-- The entries of a list are of the map.
abbrev pub AreOf : Map Installation → Map Installation → Type 0
AreOf before es = All (λ e. lookup e.0 before ≡ some e.1) es

expire-IsRemoval :
    (before : Map Installation) (keep : String) (now : Time) (es m : Map Installation)
    (r : List String)
    → AreOf before es
    → IsRemoval before keep m r
    → let after = expire keep now es m r in IsRemoval before keep after.0 after.1
unfolding expire
expire-IsRemoval before keep now [] m r a v = v
expire-IsRemoval before keep now ((id, i) ∷ es) m r a v = elim (Bool-cases (str_eq id keep)) [
  | inl same ↦ rw same (expire-IsRemoval before keep now es m r a.1 v)
  | inr other ↦ elim (Bool-cases (is_expired now i)) [
    | inr alive ↦ rw (other, alive) (expire-IsRemoval before keep now es m r a.1 v)
    | inl expired ↦
        rw (other, expired)
          (expire-IsRemoval before keep now es (delete id m) (r ++ (id ∷ [])) a.1
            (delete-IsRemoval before keep m r id v other (ap is_some a.0)))
  ]
]

-- A candidate is not the kept id, and it is in the map.
abbrev pub IsCandidate : Map Installation → String → String × Time → Type 0
IsCandidate before keep c = (str_eq c.0 keep ≡ false) × (is_some (lookup c.0 before) ≡ true)

evict-IsRemoval :
    (before : Map Installation) (keep : String) (cs : Map Time) (m : Map Installation)
    (r : List String)
    → All (IsCandidate before keep) cs
    → IsRemoval before keep m r
    → let after = evict cs m r in IsRemoval before keep after.0 after.1
unfolding evict
evict-IsRemoval before keep [] m r a v = v
evict-IsRemoval before keep ((id, t) ∷ cs) m r a v =
    elim (Bool-cases (leb (length m) max_installations_per_user)) [
      | inl fits ↦ rw fits v
      | inr more ↦ rw more (
          evict-IsRemoval before keep cs (delete id m) (r ++ (id ∷ [])) a.1
            (delete-IsRemoval before keep m r id v a.0.0 a.0.1))
    ]

pub candidates-IsCandidate :
    (before : Map Installation) (keep : String) (es : Map Installation)
    → All (λ e. is_some (lookup e.0 before) ≡ true) es
    → All (IsCandidate before keep) (candidates keep es)
unfolding candidates
candidates-IsCandidate before keep [] a = tt
candidates-IsCandidate before keep ((id, i) ∷ es) a = elim (Bool-cases (str_eq id keep)) [
  | inl same ↦ rw same (candidates-IsCandidate before keep es a.1)
  | inr other ↦ rw other ((other, a.0), candidates-IsCandidate before keep es a.1)
]

pub has-insert_sorted :
    (x j : String) (ys : List String) → has (insert_sorted str_lt x ys) j ≡ (str_eq x j || has ys j)
unfolding insert_sorted
has-insert_sorted x j [] = refl
has-insert_sorted x j (y ∷ ys) = ground (arith, has-insert_sorted x j ys)

pub has-sort : (xs : List String) (j : String) → has (sort str_lt xs) j ≡ has xs j
unfolding sort
has-sort [] j = refl
has-sort (x ∷ xs) j = ground (arith, has-insert_sorted x j (sort str_lt xs), has-sort xs j)

pub str_lt-IsOrder : IsOrder str_lt
str_lt-IsOrder = record { asymm = str_lt_asymm; negtrans = str_lt_negtrans }

sort-IsRemoval :
    (before : Map Installation) (keep : String) (m : Map Installation) (r : List String)
    → IsRemoval before keep m r
    → IsRemoval before keep m (sort str_lt r)
sort-IsRemoval before keep m r v = record {
  lookups = λ j. rw (has-sort r j) (v.lookups j);
  kept = has-sort r keep ∙ v.kept;
  only = λ j h. v.only j (sym (has-sort r j) ∙ h);
  distinct = v.distinct;
}

-- What is left is in the map.
left-AreOf :
    (before : Map Installation) (keep : String) (m : Map Installation) (r : List String)
    → IsRemoval before keep m r
    → All (λ e. is_some (lookup e.0 before) ≡ true) m
left-AreOf before keep m r v =
    All-mono _ _ (λ e h. ground (arith, v.lookups e.0, h)) m (lookup_entries m v.distinct)

cap-IsRemoval :
    (before : Map Installation) (keep : String) (m : Map Installation) (r : List String)
    → IsRemoval before keep m r
    → let after = cap keep (m, r) in IsRemoval before keep after.0 after.1
unfolding cap
cap-IsRemoval before keep m r v = elim (Bool-cases (leb (length m) max_installations_per_user)) [
  | inl fits ↦ rw fits (sort-IsRemoval before keep m r v)
  | inr more ↦
      let cs = sort seen_before (candidates keep m) in
      let valid =
        All-sort seen_before (IsCandidate before keep) (candidates keep m)
          (candidates-IsCandidate before keep m (left-AreOf before keep m r v)) in
      rw more (
        sort-IsRemoval before keep (evict cs m r).0 (evict cs m r).1
          (evict-IsRemoval before keep cs m r valid v))
]

pub expired-IsRemoval :
    (m : Map Installation) (keep : String) (now : Time)
    → Distinct (keys m)
    → let after = expire keep now m m [] in IsRemoval m keep after.0 after.1
expired-IsRemoval m keep now d =
    expire-IsRemoval m keep now m m [] (lookup_entries m d) (IsRemoval-refl m keep d)

cap-IsSorted :
    (keep : String) (m : Map Installation) (r : List String) → IsSorted str_lt (cap keep (m, r)).1
unfolding cap
cap-IsSorted keep m r = elim (Bool-cases (leb (length m) max_installations_per_user)) [
  | inl fits ↦ rw fits (sort-IsSorted str_lt r str_lt-IsOrder)
  | inr more ↦ rw more (sort-IsSorted str_lt _ str_lt-IsOrder)
]

-- For a map with different ids: `prune` reports in their order the ids that it removes, all of them
-- ids of the map and none the id to keep, and every other id reads as before.
pub prune-IsRemoval :
    (m : Map Installation) (keep : String) (now : Time)
    → Distinct (keys m)
    → let after = prune m keep now in IsRemoval m keep after.0 after.1 × IsSorted str_lt after.1
unfolding prune
prune-IsRemoval m keep now d =
    let after = expire keep now m m [] in
    (
      cap-IsRemoval m keep after.0 after.1 (expired-IsRemoval m keep now d),
      cap-IsSorted keep after.0 after.1,
    )
