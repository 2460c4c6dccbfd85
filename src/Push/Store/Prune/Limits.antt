-- ===== src/Push/Store/Prune/Limits.antt =====
-- How many installations `prune` leaves, and that it removes the oldest.
use push_dispatch.Base.{
  ◌+◌, ◌≤◌, ◌≡◌, inl, inr, refl, ap, ◌∙◌, ◌++◌, String, true, false, ◌&&◌, ◌||◌, not, some, is_some,
  List, [], ◌∷◌, Map, All, All-mono, lookup_entries, lookup, delete, lookup-delete, delete-Distinct,
  length-delete, keys, has, Distinct, has-keys, Time, str_eq, str_eq_iff, insert_sorted, sort,
  All-sort, length-sort, length, Bool-cases, if◌then◌else◌, leb, arith,
}
use push_dispatch.Push.Installation.{Installation}
use push_dispatch.Push.Store.Prune.{
  last_seen, expire, candidates, seen_before, evict, cap, prune, max_installations_per_user,
}
use push_dispatch.Push.Store.Prune.Lookups.{candidates-IsCandidate, expired-IsRemoval}

-- The sorted candidates have different ids if the candidates have.
has-insert_seen :
    (c : String × Time) (j : String) (cs : Map Time)
    → has (keys (insert_sorted seen_before c cs)) j ≡ (str_eq c.0 j || has (keys cs) j)
unfolding insert_sorted
has-insert_seen c j [] = refl
has-insert_seen c j (d ∷ cs) = ground (arith, has-insert_seen c j cs)

Distinct-insert_seen :
    (c : String × Time) (cs : Map Time)
    → has (keys cs) c.0 ≡ false
    → Distinct (keys cs)
    → Distinct (keys (insert_sorted seen_before c cs))
unfolding insert_sorted
Distinct-insert_seen c [] h d = (refl, tt)
Distinct-insert_seen c (e ∷ cs) h d = elim (Bool-cases (seen_before e c)) [
  | inl b ↦ rw b (
    ground (arith, has-insert_seen c e.0 cs, str_eq_iff e.0 c.0, str_eq_iff c.0 e.0),
    Distinct-insert_seen c cs (ground arith) d.1,
  )
  | inr b ↦ rw b (h, d)
]

has-sort_seen : (cs : Map Time) (j : String) → has (keys (sort seen_before cs)) j ≡ has (keys cs) j
unfolding sort
has-sort_seen [] j = refl
has-sort_seen (c ∷ cs) j =
    ground (arith, has-insert_seen c j (sort seen_before cs), has-sort_seen cs j)

pub Distinct-sort_seen :
    (cs : Map Time) → Distinct (keys cs) → Distinct (keys (sort seen_before cs))
unfolding sort
Distinct-sort_seen [] d = tt
Distinct-sort_seen (c ∷ cs) d =
    Distinct-insert_seen c (sort seen_before cs) (has-sort_seen cs c.0 ∙ d.0)
      (Distinct-sort_seen cs d.1)

has-candidates :
    (keep : String) (m : Map Installation) (j : String)
    → has (keys (candidates keep m)) j ≡ (has (keys m) j && not (str_eq j keep))
unfolding candidates
has-candidates keep [] j = refl
has-candidates keep ((id, i) ∷ m) j =
    ground (arith, str_eq_iff id j, str_eq_iff id keep, str_eq_iff j keep, has-candidates keep m j)

pub Distinct-candidates :
    (keep : String) (m : Map Installation) → Distinct (keys m) → Distinct (keys (candidates keep m))
unfolding candidates
Distinct-candidates keep [] d = tt
Distinct-candidates keep ((id, i) ∷ m) d =
    ground (arith, has-candidates keep m id, Distinct-candidates keep m d.1)

candidates_absent :
    (keep : String) (m : Map Installation)
    → has (keys m) keep ≡ false
    → length (candidates keep m) ≡ length m
unfolding candidates
candidates_absent keep [] h = refl
candidates_absent keep ((id, i) ∷ m) h = ground (arith, candidates_absent keep m)

-- All installations but at most the kept one are candidates.
length-candidates :
    (keep : String) (m : Map Installation)
    → Distinct (keys m)
    → length m ≤ length (candidates keep m) + 1
unfolding candidates
length-candidates keep [] d = omega arith
length-candidates keep ((id, i) ∷ m) d =
    ground (arith, str_eq_iff id keep, candidates_absent keep m, length-candidates keep m d.1)

keys_left :
    (id : String) (m : Map Installation) (cs : Map Time)
    → has (keys cs) id ≡ false
    → All (λ c. is_some (lookup c.0 m) ≡ true) cs
    → All (λ c. is_some (lookup c.0 (delete id m)) ≡ true) cs
keys_left id m [] h a = tt
keys_left id m (c ∷ cs) h a = (
  ground (arith, lookup-delete id c.0 m, str_eq_iff id c.0, str_eq_iff c.0 id),
  keys_left id m cs (ground arith) a.1,
)

evict-fits :
    (cs : Map Time) (m : Map Installation) (r : List String)
    → Distinct (keys cs)
    → Distinct (keys m)
    → All (λ c. is_some (lookup c.0 m) ≡ true) cs
    → length m ≤ max_installations_per_user + length cs
    → length (evict cs m r).0 ≤ max_installations_per_user
unfolding evict
evict-fits [] m r dc dm a h = omega (arith, h)
evict-fits ((id, t) ∷ cs) m r dc dm a h =
    elim (Bool-cases (leb (length m) max_installations_per_user)) [
      | inl fits ↦ rw fits (ground arith)
      | inr more ↦ rw more (
          evict-fits cs (delete id m) (r ++ (id ∷ [])) dc.1 (delete-Distinct id m dm)
            (keys_left id m cs dc.0 a.1)
            (omega (arith, h, length-delete id m dm (has-keys id m ∙ a.0))))
    ]

cap-fits :
    (keep : String) (m : Map Installation) (r : List String)
    → Distinct (keys m)
    → length (cap keep (m, r)).0 ≤ max_installations_per_user
unfolding cap
cap-fits keep m r d = elim (Bool-cases (leb (length m) max_installations_per_user)) [
  | inl fits ↦ rw fits (ground arith)
  | inr more ↦
      let cs = candidates keep m in
      let here =
        All-mono _ _ (λ c h. h.1) cs
          (candidates-IsCandidate m keep m
            (All-mono _ _ (λ e h. ap is_some h) m (lookup_entries m d))) in
      rw more (
        evict-fits (sort seen_before cs) m r (Distinct-sort_seen cs (Distinct-candidates keep m d))
          d (All-sort seen_before (λ c. is_some (lookup c.0 m) ≡ true) cs here)
          (omega (arith, length-sort seen_before cs, length-candidates keep m d)))
]

-- For a map with different ids, `prune` leaves at most twenty installations.
pub prune-fits :
    (m : Map Installation) (keep : String) (now : Time)
    → Distinct (keys m)
    → length (prune m keep now).0 ≤ max_installations_per_user
unfolding prune
prune-fits m keep now d =
    let after = expire keep now m m [] in
    cap-fits keep after.0 after.1 (expired-IsRemoval m keep now d).distinct

lookup-insert_seen :
    (c : String × Time) (cs : Map Time) (k : String)
    → has (keys cs) c.0 ≡ false
    → lookup k (insert_sorted seen_before c cs) ≡ (if str_eq c.0 k then some c.1 else lookup k cs)
unfolding insert_sorted lookup
lookup-insert_seen c [] k h = refl
lookup-insert_seen c (e ∷ cs) k h =
    ground
      (arith, str_eq_iff e.0 k, str_eq_iff c.0 k, str_eq_iff e.0 c.0, lookup-insert_seen c cs k)

-- Sorting the candidates keeps their times, and a candidate has the time of its installation.
pub lookup-sort_seen :
    (cs : Map Time) (k : String) → Distinct (keys cs) → lookup k (sort seen_before cs) ≡ lookup k cs
unfolding sort lookup
lookup-sort_seen [] k d = refl
lookup-sort_seen (c ∷ cs) k d = ground (
  arith,
  lookup-insert_seen c (sort seen_before cs) k,
  has-sort_seen cs c.0,
  lookup-sort_seen cs k d.1,
)

pub lookup-candidates :
    (keep : String) (m : Map Installation) (k : String) (i : Installation)
    → str_eq k keep ≡ false
    → lookup k m ≡ some i
    → lookup k (candidates keep m) ≡ some (last_seen i)
unfolding candidates lookup
lookup-candidates keep [] k i n h = absurd (ground arith)
lookup-candidates keep ((id, x) ∷ m) k i n h =
    ground (arith, str_eq_iff id k, str_eq_iff id keep, lookup-candidates keep m k i n)
