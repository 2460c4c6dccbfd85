-- ===== src/Push/Store/Newest/Choice.antt =====
-- Which installation `NewestActiveInstallation` returns, and that the order of the map is irrelevant.
use mathlib.Core.List.{append_assoc, append-nil}
use mathlib.Core.Path.{ap₂}
use mathlib.Core.Option.{some-injective}
use push_dispatch.Base.{
  ◌≡◌, ◌⊎◌, inl, inr, refl, sym, ap, subst, ◌∙◌, ◌++◌, String, Bool, true, false, ◌&&◌, ◌||◌, some,
  [], ◌∷◌, Map, All, All-append, All-mono, lookup, keys, has, Distinct, lookup_entries, All-lookup,
  Time, str_eq, str_eq_iff, str_lt_asymm, str_lt_negtrans, str_lt_total, IsOrder, Bool-cases, arith,
}
use push_dispatch.Push.Installation.{Installation, active_at}
use push_dispatch.Push.Store.Newest.{
  no_installation, newer, newest_from, newest_active_installation,
}

newer-IsOrder : IsOrder newer
unfolding newer
newer-IsOrder = record {
  asymm = λ (x, i) (y, j) h. ground (arith, str_lt_asymm x y);
  negtrans = λ (x, i) (y, j) (z, k) h l. ground (arith, str_lt_negtrans x y z);
}

-- Of two installations neither of which is newer, the ids are equal.
newer_total : (x y : String × Installation) → newer x y ≡ false → newer y x ≡ false → x.0 ≡ y.0
unfolding newer
newer_total (x, i) (y, j) h k = str_lt_total x y (ground arith) (ground arith)

module _ (m : Map Installation) (now : Time) where
  -- No active installation of the list is newer.
  abbrev pub NotBeaten : Map Installation → String × Installation → Type 0
  NotBeaten es best = All (λ e. (active_at e.1 now && newer e best) ≡ false) es

  -- The best installation of the map, as far as the list goes.
  pub record IsNewest (es : Map Installation) (best : String × Installation) : Type 0 where
    pub named : str_eq best.0 "" ≡ false
    pub is_active : active_at best.1 now ≡ true
    pub from_map : lookup best.0 m ≡ some best.1
    pub not_beaten : NotBeaten es best

  abbrev pub NoneActive : Map Installation → Type 0
  NoneActive es = All (λ e. active_at e.1 now ≡ false) es

  abbrev pub IsBest : Map Installation → String × Installation → Type 0
  IsBest es best = ((best ≡ ("", no_installation)) × NoneActive es) ⊎ IsNewest es best

  skip-IsBest :
      (done : Map Installation) (e best : String × Installation)
      → (active_at e.1 now ≡ false) ⊎ (str_eq best.0 "" ≡ false) × (newer e best ≡ false)
      → IsBest done best
      → IsBest (done ++ (e ∷ [])) best
  skip-IsBest done e best (inl idle) (inl (b, a)) =
      inl (b, All-append (λ x. active_at x.1 now ≡ false) done (e ∷ []) a (idle, tt))
  skip-IsBest done e best (inr (b, n)) (inl (c, a)) =
      absurd (ground (arith, ap (λ (x : String × Installation). x.0) c, str_eq_iff best.0 ""))
  skip-IsBest done e best why (inr v) = inr (record {
    named = v.named;
    is_active = v.is_active;
    from_map = v.from_map;
    not_beaten = All-append _ done (e ∷ []) v.not_beaten (ground (arith, why), tt);
  })

  take-IsBest :
      (done : Map Installation) (e best : String × Installation)
      → str_eq e.0 "" ≡ false
      → lookup e.0 m ≡ some e.1
      → active_at e.1 now ≡ true
      → (str_eq best.0 "" || newer e best) ≡ true
      → IsBest done best
      → IsBest (done ++ (e ∷ [])) e
  take-IsBest done e best n at live won b = inr (record {
    named = n;
    is_active = live;
    from_map = at;
    not_beaten = All-append _ done (e ∷ []) (earlier b) (ground (arith, self), tt);
  })
    where
      self : newer e e ≡ false
      self = elim (Bool-cases (newer e e)) [ inl h ↦ newer-IsOrder.asymm e e h | inr h ↦ h ]

      earlier : IsBest done best → NotBeaten done e
      earlier (inl (c, a)) =
          All-mono (λ x. active_at x.1 now ≡ false) _ (λ x h. ground (arith, h)) done a
      earlier (inr v) =
          All-mono _ _
            (λ x h.
              ground
                (arith, h, newer-IsOrder.negtrans e best x, newer-IsOrder.asymm e best, v.named))
            done v.not_beaten

  newest_from-IsBest :
      (done es : Map Installation) (best : String × Installation)
      → All (λ e. lookup e.0 m ≡ some e.1) es
      → has (keys es) "" ≡ false
      → IsBest done best
      → IsBest (done ++ es) (newest_from now es best)
  unfolding newest_from
  newest_from-IsBest done [] best a n b = rw (append-nil done) b
  newest_from-IsBest done ((id, i) ∷ es) best a n b =
      subst (λ l. IsBest l (newest_from now ((id, i) ∷ es) best))
        (append_assoc done ((id, i) ∷ []) es)
        (elim (Bool-cases (active_at i now)) [
          | inr idle ↦
              rw (idle, newest_from)
                (newest_from-IsBest (done ++ ((id, i) ∷ [])) es best a.1 (ground arith)
                  (skip-IsBest done (id, i) best (inl idle) b))
          | inl live ↦ elim (Bool-cases (str_eq best.0 "" || newer (id, i) best)) [
            | inl won ↦
                rw (live, won, newest_from)
                  (newest_from-IsBest (done ++ ((id, i) ∷ [])) es (id, i) a.1 (ground arith)
                    (take-IsBest done (id, i) best (ground arith) a.0 live won b))
            | inr lost ↦
                rw (live, lost, newest_from)
                  (newest_from-IsBest (done ++ ((id, i) ∷ [])) es best a.1 (ground arith)
                    (skip-IsBest done (id, i) best (inr (ground arith, ground arith)) b))
          ]
        ])

  -- What the result says: there is no active installation, or this one is not beaten.
  abbrev pub IsResult : (String × Installation) × Bool → Type 0
  IsResult r =
      ((r ≡ (("", no_installation), false)) × NoneActive m) ⊎ ((r.1 ≡ true) × IsNewest m r.0)

  -- For a map with different ids, none of them empty: the result is an active installation of the
  -- map than which no active one is newer, or there is no active one and the result says so.
  pub newest_active_installation-IsBest :
      Distinct (keys m) → has (keys m) "" ≡ false → IsResult (newest_active_installation m now)
  unfolding newest_active_installation
  newest_active_installation-IsBest d n =
      elim (newest_from-IsBest [] m ("", no_installation) (lookup_entries m d) n (inl (refl, tt))) [
        | inl (none_named, idle) ↦ inl (rw none_named (unfold str_eq in refl), idle)
        | inr v ↦ inr (ground (arith, v.named), v)
      ]

-- The order in which Go visits the map is irrelevant: two maps with different ids, none of them
-- empty, in which each id reads the same give the same result.
pub newest_active_installation_order :
    (m n : Map Installation) (now : Time)
    → Distinct (keys m)
    → Distinct (keys n)
    → has (keys m) "" ≡ false
    → has (keys n) "" ≡ false
    → ((k : String) → lookup k m ≡ lookup k n)
    → newest_active_installation m now ≡ newest_active_installation n now
newest_active_installation_order m n now dm dn em en same =
    decide (newest_active_installation-IsBest m now dm em)
      (newest_active_installation-IsBest n now dn en)
  where
    decide :
        IsResult m now (newest_active_installation m now)
        → IsResult n now (newest_active_installation n now)
        → newest_active_installation m now ≡ newest_active_installation n now
    decide (inl (e, idle)) (inl (f, idle')) = e ∙ sym f
    decide (inl (e, idle)) (inr (f, v)) = absurd (
        ground (
          arith,
          All-lookup (λ x. active_at x.1 now ≡ false) m _ _ idle (same _ ∙ v.from_map),
          v.is_active,
        ))
    decide (inr (f, v)) (inl (e, idle)) = absurd (
        ground (
          arith,
          All-lookup (λ x. active_at x.1 now ≡ false) n _ _ idle (sym (same _) ∙ v.from_map),
          v.is_active,
        ))
    decide (inr (e, v)) (inr (f, w)) =
        let a = (newest_active_installation m now).0 in
        let b = (newest_active_installation n now).0 in
        let over =
          All-lookup (λ x. (active_at x.1 now && newer x a) ≡ false) m b.0 b.1 v.not_beaten
            (same b.0 ∙ w.from_map) in
        let under =
          All-lookup (λ x. (active_at x.1 now && newer x b) ≡ false) n a.0 a.1 w.not_beaten
            (sym (same a.0) ∙ v.from_map) in
        let ids =
          newer_total a b (ground (arith, under, v.is_active))
            (ground (arith, over, w.is_active)) in
        let installations =
          some-injective a.1 b.1
            (sym v.from_map ∙ ap (λ k. lookup k m) ids ∙ same b.0 ∙ w.from_map) in
        ap₂ (λ x y. (x, y)) (ap₂ (λ x y. (x, y)) ids installations) (e ∙ sym f)
