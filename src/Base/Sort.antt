-- ===== src/Base/Sort.antt =====
-- Sorting by a strict order given as a test, as `sort.Strings` and `sort.Slice` do it: where the order
-- tells all elements apart there is one sorted list, so the way to sort does not matter.
use Prim.Native.Nat.{suc}
use mathlib.Core.Path.{◌≡◌, refl}
use mathlib.Core.Logic.{inl, inr}
use mathlib.Core.Bool.{Bool, true, false}
use mathlib.Core.List.{List, [], ◌∷◌}
use native.Mathlib.Omega.{arith}
use push_dispatch.Base.Tests.{if◌then◌else◌, Bool-cases}
use push_dispatch.Base.Lists.{length, All, All-mono}

module _ {ℓ} {A : Type ℓ} (before : A → A → Bool) where
  unfoldable pub insert_sorted : A → List A → List A
  insert_sorted x [] = x ∷ []
  insert_sorted x (y ∷ ys) =
      let rest = insert_sorted x ys in if before y x then y ∷ rest else x ∷ y ∷ ys

  unfoldable pub sort : List A → List A
  sort [] = []
  sort (x ∷ xs) = insert_sorted x (sort xs)

  -- No element comes before an earlier one.
  abbrev pub IsSorted : List A → Type ℓ
  IsSorted [] = Unit
  IsSorted (x ∷ xs) = All (λ y. before y x ≡ false) xs × IsSorted xs

  -- The order of the test: of two elements at most one comes before the other, and not to come
  -- before is transitive.
  pub record IsOrder : Type ℓ where
    pub asymm : (x y : A) → before x y ≡ true → before y x ≡ false
    pub negtrans : (x y z : A) → before y x ≡ false → before z y ≡ false → before z x ≡ false

  pub All-insert_sorted {κ} :
      (P : A → Type κ) (x : A) (ys : List A) → P x → All P ys → All P (insert_sorted x ys)
  unfolding insert_sorted
  All-insert_sorted P x [] p a = (p, tt)
  All-insert_sorted P x (y ∷ ys) p a = elim (Bool-cases (before y x)) [
    | inl h ↦ rw h (a.0, All-insert_sorted P x ys p a.1)
    | inr h ↦ rw h (p, a)
  ]

  pub All-sort {κ} : (P : A → Type κ) (xs : List A) → All P xs → All P (sort xs)
  unfolding sort
  All-sort P [] a = tt
  All-sort P (x ∷ xs) a = All-insert_sorted P x (sort xs) a.0 (All-sort P xs a.1)

  length-insert_sorted : (x : A) (ys : List A) → length (insert_sorted x ys) ≡ suc (length ys)
  unfolding insert_sorted
  length-insert_sorted x [] = refl
  length-insert_sorted x (y ∷ ys) = ground (arith, length-insert_sorted x ys)

  pub length-sort : (xs : List A) → length (sort xs) ≡ length xs
  unfolding sort
  length-sort [] = refl
  length-sort (x ∷ xs) = omega (arith, length-insert_sorted x (sort xs), length-sort xs)

  insert_sorted-IsSorted :
      (x : A) (ys : List A) → IsOrder → IsSorted ys → IsSorted (insert_sorted x ys)
  unfolding insert_sorted
  insert_sorted-IsSorted x [] o s = (tt, tt)
  insert_sorted-IsSorted x (y ∷ ys) o s = elim (Bool-cases (before y x)) [
    | inl h ↦ rw h (
      All-insert_sorted (λ z. before z y ≡ false) x ys (o.asymm y x h) s.0,
      insert_sorted-IsSorted x ys o s.1,
    )
    | inr h ↦
        rw h ((h, All-mono _ (λ z. before z x ≡ false) (λ z k. o.negtrans x y z h k) ys s.0), s)
  ]

  pub sort-IsSorted : (xs : List A) → IsOrder → IsSorted (sort xs)
  unfolding sort
  sort-IsSorted [] o = tt
  sort-IsSorted (x ∷ xs) o = insert_sorted-IsSorted x (sort xs) o (sort-IsSorted xs o)
