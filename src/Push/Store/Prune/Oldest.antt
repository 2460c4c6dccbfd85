-- ===== src/Push/Store/Prune/Oldest.antt =====
-- `prune` evicts the installations that were seen the longest ago.
use push_dispatch.Base.{
  ◌≤◌, ◌≡◌, inl, inr, refl, sym, ◌∙◌, ◌++◌, String, true, false, none, some, List, [], ◌∷◌, Map,
  lookup, delete, keys, has, Distinct, Time, str_eq, str_eq_iff, str_lt_asymm, str_lt_negtrans,
  sort, IsSorted, IsOrder, sort-IsSorted, length, lookup_entries, All-lookup, Bool-cases, leb,
  arith,
}
use push_dispatch.Push.Installation.{Installation}
use push_dispatch.Push.Store.Prune.{
  last_seen, is_expired, expire, candidates, seen_before, evict, cap, prune,
  max_installations_per_user,
}
use push_dispatch.Push.Store.Prune.Lookups.{
  AreOf, expired-IsRemoval, has-append_one, has-sort, prune-IsRemoval,
}
use push_dispatch.Push.Store.Prune.Limits.{
  Distinct-sort_seen, Distinct-candidates, lookup-sort_seen, lookup-candidates,
}

seen_before-IsOrder : IsOrder seen_before
unfolding seen_before
seen_before-IsOrder = record {
  asymm = λ (x, t) (y, u) h. ground (arith, str_lt_asymm x y);
  negtrans = λ (x, t) (y, u) (z, v) h k. ground (arith, str_lt_negtrans x y z);
}

evict_keeps :
    (cs : Map Time) (m : Map Installation) (r : List String) (k : String)
    → has r k ≡ true
    → has (evict cs m r).1 k ≡ true
unfolding evict
evict_keeps [] m r k h = h
evict_keeps ((id, t) ∷ cs) m r k h = elim (Bool-cases (leb (length m) max_installations_per_user)) [
  | inl fits ↦ rw fits h
  | inr more ↦
      rw more (evict_keeps cs (delete id m) (r ++ (id ∷ [])) k (has-append_one r id k ∙ rw h))
]

evict_oldest :
    (cs : Map Time) (m : Map Installation) (r : List String) (j k : String) (t u : Time)
    → IsSorted seen_before cs
    → Distinct (keys cs)
    → has r j ≡ false
    → has (evict cs m r).1 j ≡ true
    → has (evict cs m r).1 k ≡ false
    → lookup j cs ≡ some t
    → lookup k cs ≡ some u
    → t ≤ u
unfolding evict lookup seen_before
evict_oldest [] m r j k t u s d n g l p q = absurd (ground arith)
evict_oldest ((id, v) ∷ cs) m r j k t u s d n g l p q =
    elim (Bool-cases (leb (length m) max_installations_per_user)) [
      | inl fits ↦ absurd (ground (arith, rw (fits, evict) at g))
      | inr more ↦ elim (Bool-cases (str_eq id k)) [
        | inl gone ↦
            let stays =
              evict_keeps cs (delete id m) (r ++ (id ∷ [])) k
                (ground (arith, has-append_one r id k)) in
            absurd (ground (arith, stays, rw (more, evict) at l))
        | inr later ↦ elim (Bool-cases (str_eq id j)) [
          | inl first ↦
              let after : seen_before (k, u) (id, v) ≡ false =
                All-lookup (λ c. seen_before c (id, v) ≡ false) cs k u s.0 (ground arith) in
              ground (arith, after)
          | inr next ↦
              evict_oldest cs (delete id m) (r ++ (id ∷ [])) j k t u s.1 d.1
                (ground (arith, has-append_one r id j)) (rw (more, evict) at g)
                (rw (more, evict) at l) (ground arith) (ground arith)
        ]
      ]
    ]

-- Only what is expired is removed by the first loop.
expire_only :
    (before : Map Installation) (keep : String) (now : Time) (es m : Map Installation)
    (r : List String) (j : String) (i : Installation)
    → AreOf before es
    → lookup j before ≡ some i
    → is_expired now i ≡ false
    → has r j ≡ false
    → has (expire keep now es m r).1 j ≡ false
unfolding expire
expire_only before keep now [] m r j i a at alive n = n
expire_only before keep now ((id, x) ∷ es) m r j i a at alive n =
    elim (Bool-cases (str_eq id keep)) [
      | inl same ↦ rw same (expire_only before keep now es m r j i a.1 at alive n)
      | inr other ↦ elim (Bool-cases (is_expired now x)) [
        | inr live ↦ rw (other, live) (expire_only before keep now es m r j i a.1 at alive n)
        | inl expired ↦
            rw (other, expired)
              (expire_only before keep now es (delete id m) (r ++ (id ∷ [])) j i a.1 at alive
                (ground (arith, has-append_one r id j, a.0, str_eq_iff id j)))
      ]
    ]

cap_keeps :
    (keep : String) (m : Map Installation) (r : List String) (k : String)
    → has r k ≡ true
    → has (cap keep (m, r)).1 k ≡ true
unfolding cap
cap_keeps keep m r k h = elim (Bool-cases (leb (length m) max_installations_per_user)) [
  | inl fits ↦ rw fits (has-sort r k ∙ h)
  | inr more ↦ rw more (has-sort _ k ∙ evict_keeps (sort seen_before (candidates keep m)) m r k h)
]

cap_oldest :
    (keep : String) (m : Map Installation) (r : List String) (j k : String) (i x : Installation)
    → Distinct (keys m)
    → has r j ≡ false
    → has (cap keep (m, r)).1 j ≡ true
    → has (cap keep (m, r)).1 k ≡ false
    → str_eq j keep ≡ false
    → str_eq k keep ≡ false
    → lookup j m ≡ some i
    → lookup k m ≡ some x
    → last_seen i ≤ last_seen x
unfolding cap
cap_oldest keep m r j k i x d n g l nj nk p q =
    elim (Bool-cases (leb (length m) max_installations_per_user)) [
      | inl fits ↦ absurd (ground (arith, has-sort r j, rw (fits, cap) at g))
      | inr more ↦
          let cs = candidates keep m in
          let dc = Distinct-candidates keep m d in
          let removed = (evict (sort seen_before cs) m r).1 in
          evict_oldest (sort seen_before cs) m r j k (last_seen i) (last_seen x)
            (sort-IsSorted seen_before cs seen_before-IsOrder) (Distinct-sort_seen cs dc) n
            (sym (has-sort removed j) ∙ (rw (more, cap) at g))
            (sym (has-sort removed k) ∙ (rw (more, cap) at l))
            (lookup-sort_seen cs j dc ∙ lookup-candidates keep m j i nj p)
            (lookup-sort_seen cs k dc ∙ lookup-candidates keep m k x nk q)
    ]

-- For a map with different ids: an installation that has not expired and that `prune` removes was
-- seen no later than any that it leaves, the one to keep aside.
pub prune_oldest :
    (m : Map Installation) (keep : String) (now : Time) (j k : String) (i x : Installation)
    → Distinct (keys m)
    → lookup j m ≡ some i
    → is_expired now i ≡ false
    → lookup j (prune m keep now).0 ≡ none
    → lookup k (prune m keep now).0 ≡ some x
    → str_eq k keep ≡ false
    → last_seen i ≤ last_seen x
unfolding prune
prune_oldest m keep now j k i x d p alive gone left nk =
    let after = expire keep now m m [] in
    let v = expired-IsRemoval m keep now d in
    let w = (prune-IsRemoval m keep now d).0 in
    let stays : has after.1 j ≡ false =
      expire_only m keep now m m [] j i (lookup_entries m d) p alive refl in
    let removed : has (cap keep after).1 j ≡ true = ground (arith, w.lookups j, p, gone) in
    let kept : has (cap keep after).1 k ≡ false = ground (arith, w.lookups k, left) in
    let before : has after.1 k ≡ false = ground (arith, cap_keeps keep after.0 after.1 k, kept) in
    cap_oldest keep after.0 after.1 j k i x v.distinct stays removed kept
      (ground (arith, str_eq_iff j keep, w.kept, removed)) nk
      (ground (arith, v.lookups j, stays, p))
      (ground (arith, v.lookups k, before, w.lookups k, kept, left))
