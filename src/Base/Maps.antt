-- ===== src/Base/Maps.antt =====
-- Go's maps with text keys, as association lists: a write to a key that is there replaces its
-- value in place. `range` visits the entries of a list in its order; what Go leaves open about the
-- order is which of the lists with the same entries stands for the map.
use Prim.Native.Nat.{suc}
use Prim.Native.String.{String}
use mathlib.Core.Path.{◌≡◌, refl, subst}
use mathlib.Core.Logic.{inl, inr}
use mathlib.Core.Bool.{Bool, true, false, ◌||◌}
use mathlib.Core.List.{List, [], ◌∷◌}
use mathlib.Core.Option.{Option, none, some, some-injective}
use native.Mathlib.Omega.{arith}
use push_dispatch.Base.Tests.{str_eq, str_eq_iff, str_eq_refl, Bool-cases, if◌then◌else◌}
use push_dispatch.Base.Lists.{length, All}

abbrev pub Map {ℓ} : Type ℓ → Type ℓ
Map V = List (String × V)

abbrev pub is_some {ℓ} : {A : Type ℓ} → Option A → Bool
is_some none = false
is_some (some a) = true

-- Membership of a text in a list of texts, and texts that are all different.
abbrev pub has : List String → String → Bool
has [] k = false
has (j ∷ js) k = str_eq j k || has js k

abbrev pub Distinct : List String → Type 0
Distinct [] = Unit
Distinct (j ∷ js) = (has js j ≡ false) × Distinct js

module _ {ℓ} {V : Type ℓ} where
  unfoldable pub lookup : String → Map V → Option V
  lookup k [] = none
  lookup k ((j, v) ∷ m) = if str_eq j k then some v else lookup k m

  unfoldable pub insert : String → V → Map V → Map V
  insert k v [] = (k, v) ∷ []
  insert k v ((j, w) ∷ m) = if str_eq j k then (k, v) ∷ m else (j, w) ∷ insert k v m

  unfoldable pub delete : String → Map V → Map V
  delete k [] = []
  delete k ((j, w) ∷ m) = if str_eq j k then delete k m else (j, w) ∷ delete k m

  unfoldable pub contains_key : String → Map V → Bool
  contains_key k m = is_some (lookup k m)

  abbrev pub keys : Map V → List String
  keys [] = []
  keys ((j, v) ∷ m) = j ∷ keys m

  pub lookup-insert :
      (k j : String) (v : V) (m : Map V)
      → lookup j (insert k v m) ≡ (if str_eq k j then some v else lookup j m)
  unfolding lookup insert
  lookup-insert k j v [] = refl
  lookup-insert k j v ((i, w) ∷ m) =
      ground (arith, str_eq_iff k j, str_eq_iff i k, str_eq_iff i j, lookup-insert k j v m)

  pub lookup-delete :
      (k j : String) (m : Map V) → lookup j (delete k m) ≡ (if str_eq k j then none else lookup j m)
  unfolding lookup delete
  lookup-delete k j [] = ground arith
  lookup-delete k j ((i, w) ∷ m) =
      ground (arith, str_eq_iff k j, str_eq_iff i k, str_eq_iff i j, lookup-delete k j m)

  pub lookup-eq-none_of_has : (k : String) (m : Map V) → has (keys m) k ≡ false → lookup k m ≡ none
  unfolding lookup
  lookup-eq-none_of_has k [] h = refl
  lookup-eq-none_of_has k ((j, v) ∷ m) h = ground (arith, lookup-eq-none_of_has k m)

  pub has-keys : (k : String) (m : Map V) → has (keys m) k ≡ is_some (lookup k m)
  unfolding lookup
  has-keys k [] = refl
  has-keys k ((j, v) ∷ m) = ground (arith, has-keys k m)

  pub has-keys-insert :
      (k j : String) (v : V) (m : Map V)
      → has (keys (insert k v m)) j ≡ (str_eq k j || has (keys m) j)
  unfolding insert
  has-keys-insert k j v [] = refl
  has-keys-insert k j v ((i, w) ∷ m) =
      ground (arith, str_eq_iff k j, str_eq_iff i k, str_eq_iff i j, has-keys-insert k j v m)

  pub insert-Distinct :
      (k : String) (v : V) (m : Map V) → Distinct (keys m) → Distinct (keys (insert k v m))
  unfolding insert
  insert-Distinct k v [] d = (refl, tt)
  insert-Distinct k v ((j, w) ∷ m) d =
      ground
        (arith, str_eq_iff j k, str_eq_iff k j, has-keys-insert k j v m, insert-Distinct k v m d.1)

  pub has-keys-delete :
      (k j : String) (m : Map V) → has (keys m) j ≡ false → has (keys (delete k m)) j ≡ false
  unfolding delete
  has-keys-delete k j [] h = refl
  has-keys-delete k j ((i, w) ∷ m) h = ground (arith, has-keys-delete k j m)

  pub delete-Distinct : (k : String) (m : Map V) → Distinct (keys m) → Distinct (keys (delete k m))
  unfolding delete
  delete-Distinct k [] d = tt
  delete-Distinct k ((j, w) ∷ m) d =
      ground (arith, has-keys-delete k j m d.0, delete-Distinct k m d.1)

  pub delete_absent : (k : String) (m : Map V) → has (keys m) k ≡ false → delete k m ≡ m
  unfolding delete
  delete_absent k [] h = refl
  delete_absent k ((j, w) ∷ m) h = ground (arith, delete_absent k m)

  -- A key that is there once is taken out once.
  pub length-delete :
      (k : String) (m : Map V)
      → Distinct (keys m)
      → has (keys m) k ≡ true
      → suc (length (delete k m)) ≡ length m
  unfolding delete
  length-delete k [] d h = absurd (ground arith)
  length-delete k ((j, w) ∷ m) d h =
      ground (arith, str_eq_iff j k, delete_absent k m, length-delete k m d.1)

module _ {ℓ} {V : Type ℓ} where
  entries-cons :
      (j : String) (v : V) (m n : Map V)
      → has (keys n) j ≡ false
      → All (λ e. lookup e.0 m ≡ some e.1) n
      → All (λ e. lookup e.0 ((j, v) ∷ m) ≡ some e.1) n
  unfolding lookup
  entries-cons j v m [] h a = tt
  entries-cons j v m ((k, w) ∷ n) h a =
      (ground (arith, str_eq_iff j k, str_eq_iff k j), entries-cons j v m n (ground arith) a.1)

  -- Where the keys are different, each entry is the one that a lookup of its key finds.
  pub lookup_entries : (m : Map V) → Distinct (keys m) → All (λ e. lookup e.0 m ≡ some e.1) m
  unfolding lookup
  lookup_entries [] d = tt
  lookup_entries ((j, v) ∷ m) d =
      (rw (str_eq_refl j), entries-cons j v m m d.0 (lookup_entries m d.1))

-- What holds of the entries holds of what a lookup finds.
pub All-lookup {ℓ κ} :
    {V : Type ℓ} (P : String × V → Type κ) (m : Map V) (k : String) (v : V)
    → All P m
    → lookup k m ≡ some v
    → P (k, v)
unfolding lookup
All-lookup P [] k v a h = absurd (ground arith)
All-lookup P ((j, w) ∷ m) k v a h = elim (Bool-cases (str_eq j k)) [
  | inl same ↦
      let e : j ≡ k = ground (arith, str_eq_iff j k) in
      let f : w ≡ v = some-injective w v (rw (same, lookup) at h) in
      subst (λ x. P (k, x)) f (subst (λ x. P (x, w)) e a.0)
  | inr other ↦ All-lookup P m k v a.1 (rw (other, lookup) at h)
]
