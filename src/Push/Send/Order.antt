-- ===== src/Push/Send/Order.antt =====
-- `Send` gives the same result in whatever order the batches finish, and what it reports.
use mathlib.Core.Option.{some-injective}
use mathlib.Core.Path.{ap₂}
use push_dispatch.Base.{
  ℕ, zero, suc, ◌+◌, ◌<◌, ◌≡◌, ◌⊎◌, inl, inr, refl, sym, ap, subst, ◌∙◌, some, List, [], ◌∷◌,
  length, get_elem?, All, ltb, ◌==◌, ◌&&◌, if◌then◌else◌, arith,
}
use push_dispatch.Push.Send.{Outcome, put_outcome, collect}

-- The outcome stands at its index in the list.
abbrev pub StandsIn : List Outcome → Outcome → Type 0
StandsIn os o = get_elem? os o.index ≡ some o

-- The outcome is among those of a list.
abbrev pub ArrivesIn : List Outcome → Outcome → Type 0
ArrivesIn [] o = ⊥
ArrivesIn (a ∷ arrived) o = (a ≡ o) ⊎ ArrivesIn arrived o

-- What comes through the channel are the outcomes of the jobs, all of them, in any order.
pub record IsArrivalOf (sent arrived : List Outcome) : Type 0 where
  pub only : All (StandsIn sent) arrived
  pub every : All (ArrivesIn arrived) sent

get_elem?-put_outcome :
    (os : List Outcome) (i j : ℕ) (o : Outcome)
    → get_elem? (put_outcome os i o) j
      ≡ (if (i == j) && ltb i (length os) then some o else get_elem? os j)
unfolding put_outcome
get_elem?-put_outcome [] i j o = ground arith
get_elem?-put_outcome (x ∷ os) zero zero o = ground arith
get_elem?-put_outcome (x ∷ os) zero (suc j) o = ground arith
get_elem?-put_outcome (x ∷ os) (suc i) zero o = ground arith
get_elem?-put_outcome (x ∷ os) (suc i) (suc j) o = ground (arith, get_elem?-put_outcome os i j o)

length-put_outcome :
    (os : List Outcome) (i : ℕ) (o : Outcome) → length (put_outcome os i o) ≡ length os
unfolding put_outcome
length-put_outcome [] i o = refl
length-put_outcome (x ∷ os) zero o = refl
length-put_outcome (x ∷ os) (suc i) o = ap suc (length-put_outcome os i o)

length-collect : (os arrived : List Outcome) → length (collect os arrived) ≡ length os
unfolding collect
length-collect os [] = refl
length-collect os (a ∷ arrived) =
    length-collect (put_outcome os a.index a) arrived ∙ length-put_outcome os a.index a

get_elem?-lt : (os : List Outcome) (i : ℕ) {o : Outcome} → get_elem? os i ≡ some o → i < length os
get_elem?-lt [] i h = absurd (ground arith)
get_elem?-lt (x ∷ os) zero h = omega arith
get_elem?-lt (x ∷ os) (suc i) h = omega (arith, get_elem?-lt os i h)

-- What an index of the array holds once the outcome of that index has come, or held before.
get_elem?-collect :
    (sent os arrived : List Outcome) (o : Outcome)
    → length os ≡ length sent
    → get_elem? sent o.index ≡ some o
    → All (StandsIn sent) arrived
    → (get_elem? os o.index ≡ some o) ⊎ ArrivesIn arrived o
    → get_elem? (collect os arrived) o.index ≡ some o
unfolding collect
get_elem?-collect sent os [] o l e a (inl h) = h
get_elem?-collect sent os [] o l e a (inr h) = absurd h
get_elem?-collect sent os (x ∷ arrived) o l e a h =
    get_elem?-collect sent (put_outcome os x.index x) arrived o
      (length-put_outcome os x.index x ∙ l) e a.1 (placed h)
  where
    here :
        get_elem? (put_outcome os x.index x) o.index
        ≡ (if (x.index == o.index) && ltb x.index (length os) then some x else get_elem? os o.index)
    here = get_elem?-put_outcome os x.index o.index x

    same : x.index ≡ o.index → x ≡ o
    same q = some-injective x o (sym a.0 ∙ ap (get_elem? sent) q ∙ e)

    placed :
        (get_elem? os o.index ≡ some o) ⊎ ((x ≡ o) ⊎ ArrivesIn arrived o)
        → (get_elem? (put_outcome os x.index x) o.index ≡ some o) ⊎ ArrivesIn arrived o
    placed (inr (inr later)) = inr later
    placed (inl old) = inl (here ∙ ground (arith, old, same, get_elem?-lt os o.index old))
    placed (inr (inl new)) =
        inl (here ∙ ground (arith, new, get_elem?-lt sent o.index e, l, ap (λ z. z.index) new))

get_elem?-ext :
    (xs ys : List Outcome)
    → length xs ≡ length ys
    → ((i : ℕ) (y : Outcome) → get_elem? ys i ≡ some y → get_elem? xs i ≡ some y)
    → xs ≡ ys
get_elem?-ext [] [] l h = refl
get_elem?-ext [] (y ∷ ys) l h = absurd (omega arith)
get_elem?-ext (x ∷ xs) [] l h = absurd (omega arith)
get_elem?-ext (x ∷ xs) (y ∷ ys) l h =
    ap₂ ◌∷◌ (some-injective x y (h 0 y refl))
      (get_elem?-ext xs ys (omega arith) (λ i z q. h (suc i) z q))

-- Each outcome stands at its own index.
abbrev pub IndexedFrom : ℕ → List Outcome → Type 0
IndexedFrom n [] = Unit
IndexedFrom n (o ∷ os) = (o.index ≡ n) × IndexedFrom (n + 1) os

index-get_elem? :
    (n : ℕ) (os : List Outcome) (i : ℕ) (o : Outcome)
    → IndexedFrom n os
    → get_elem? os i ≡ some o
    → o.index ≡ n + i
index-get_elem? n [] i o h e = absurd (ground arith)
index-get_elem? n (x ∷ os) zero o h e =
    omega (arith, h.0, ap (λ (z : Outcome). z.index) (some-injective x o e))
index-get_elem? n (x ∷ os) (suc i) o h e = omega (arith, index-get_elem? (n + 1) os i o h.1 e)

All-get_elem? :
    (P : Outcome → Type 0) (os : List Outcome) (i : ℕ) (o : Outcome)
    → All P os
    → get_elem? os i ≡ some o
    → P o
All-get_elem? P [] i o a e = absurd (ground arith)
All-get_elem? P (x ∷ os) zero o a e = subst P (some-injective x o e) a.0
All-get_elem? P (x ∷ os) (suc i) o a e = All-get_elem? P os i o a.1 e

-- The array holds the outcomes in the order of the batches.
pub collect-IsArrivalOf :
    (sent blank arrived : List Outcome)
    → IndexedFrom 0 sent
    → length blank ≡ length sent
    → IsArrivalOf sent arrived
    → collect blank arrived ≡ sent
collect-IsArrivalOf sent blank arrived indexed l v =
    get_elem?-ext (collect blank arrived) sent (length-collect blank arrived ∙ l) λ i o e.
      let at : o.index ≡ i = omega (arith, index-get_elem? 0 sent i o indexed e) in
      subst (λ j. get_elem? (collect blank arrived) j ≡ some o) at
        (get_elem?-collect sent blank arrived o l
          (subst (λ j. get_elem? sent j ≡ some o) (sym at) e) v.only
          (inr (All-get_elem? _ sent i o v.every e)))
