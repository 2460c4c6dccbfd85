-- ===== src/Push/Targets/Unique.antt =====
-- What `deduplicateTargets` returns: the first target of each key, in the order of the input.
use mathlib.Core.List.{append_assoc, append-nil, Sublistᴰ}
use push_dispatch.Base.{
  ◌≡◌, refl, sym, ap, ◌∙◌, ◌++◌, String, Bool, true, false, ◌||◌, List, [], ◌∷◌, Map, lookup,
  lookup-insert, insert, contains_key, has, Distinct, All, none, str_eq, str_eq_iff, str_eq_refl,
  if◌then◌else◌, arith, Bool-cases, Option-cases, inl, inr,
}
use push_dispatch.Push.Errors.{ok}
use push_dispatch.Push.Types.{Target, validate_target, target_key, target_keys}
use push_dispatch.Push.Targets.{deduplicate_from, deduplicate_targets}

-- The first target of each key that has not been seen.
pub firsts : (String → Bool) → List Target → List Target
firsts seen [] = []
firsts seen (t ∷ ts) =
    let rest = firsts (λ k. str_eq (target_key t) k || seen k) ts in
    let rest' = firsts seen ts in if seen (target_key t) then rest' else t ∷ rest

abbrev pub IsValid : Target → Type 0
IsValid t = validate_target t ≡ none

-- The locals after one round of the loop.
abbrev next_seen : Target → Map (Unit {0}) → Map (Unit {0})
next_seen t m = if contains_key (target_key t) m then m else insert (target_key t) tt m

abbrev next_unique : Target → Map (Unit {0}) → List Target → List Target
next_unique t m unique = if contains_key (target_key t) m then unique else unique ++ (t ∷ [])

deduplicate_from-cons :
    (m : Map (Unit {0})) (unique : List Target) (t : Target) (ts : List Target)
    → IsValid t
    → deduplicate_from m unique (t ∷ ts)
      ≡ deduplicate_from (next_seen t m) (next_unique t m unique) ts
unfolding deduplicate_from
deduplicate_from-cons m unique t ts v = rw (v, deduplicate_from)

contains_key-insert :
    (m : Map (Unit {0})) (seen : String → Bool) (key : String)
    → ((k : String) → contains_key k m ≡ seen k)
    → (k : String) → contains_key k (insert key tt m) ≡ (str_eq key k || seen k)
unfolding contains_key
contains_key-insert m seen key same k = ground (arith, lookup-insert key k tt m, same k)

-- The loop, with a map that holds the keys `seen`.
deduplicate_from-firsts :
    (m : Map (Unit {0})) (seen : String → Bool) (unique ts : List Target)
    → ((k : String) → contains_key k m ≡ seen k)
    → All IsValid ts
    → deduplicate_from m unique ts ≡ ok (unique ++ firsts seen ts)
unfolding firsts
deduplicate_from-firsts m seen unique [] same v =
    unfold deduplicate_from in ap ok (sym (append-nil unique))
deduplicate_from-firsts m seen unique (t ∷ ts) same v =
    deduplicate_from-cons m unique t ts v.0 ∙ elim (Bool-cases (seen (target_key t))) [
      | inl old ↦ rw (same (target_key t), old) (deduplicate_from-firsts m seen unique ts same v.1)
      | inr new ↦
          rw (same (target_key t), new)
            (deduplicate_from-firsts (insert (target_key t) tt m)
                (λ k. str_eq (target_key t) k || seen k) (unique ++ (t ∷ [])) ts
                (contains_key-insert m seen (target_key t) same) v.1
              ∙ ap ok (append_assoc unique (t ∷ []) _))
    ]

firsts-not_seen :
    (seen : String → Bool) (ts : List Target) (k : String)
    → seen k ≡ true
    → has (target_keys (firsts seen ts)) k ≡ false
unfolding firsts
firsts-not_seen seen [] k h = refl
firsts-not_seen seen (t ∷ ts) k h = ground (
  arith,
  str_eq_iff (target_key t) k,
  firsts-not_seen seen ts k,
  firsts-not_seen (λ j. str_eq (target_key t) j || seen j) ts k,
)

firsts-Distinct :
    (seen : String → Bool) (ts : List Target) → Distinct (target_keys (firsts seen ts))
unfolding firsts
firsts-Distinct seen [] = tt
firsts-Distinct seen (t ∷ ts) = ground (
  arith,
  str_eq_refl (target_key t),
  firsts-Distinct seen ts,
  firsts-Distinct (λ k. str_eq (target_key t) k || seen k) ts,
  firsts-not_seen (λ k. str_eq (target_key t) k || seen k) ts (target_key t),
)

firsts_complete :
    (seen : String → Bool) (ts : List Target) (k : String)
    → seen k ≡ false
    → has (target_keys (firsts seen ts)) k ≡ has (target_keys ts) k
unfolding firsts
firsts_complete seen [] k h = refl
firsts_complete seen (t ∷ ts) k h = ground (
  arith,
  str_eq_iff (target_key t) k,
  firsts_complete seen ts k,
  firsts_complete (λ j. str_eq (target_key t) j || seen j) ts k,
)

firsts-Sublist : (seen : String → Bool) (ts : List Target) → Sublistᴰ (firsts seen ts) ts
unfolding firsts
firsts-Sublist seen [] = Sublistᴰ.slnil
firsts-Sublist seen (t ∷ ts) = elim (Bool-cases (seen (target_key t))) [
  | inl old ↦ rw old (Sublistᴰ.cons (firsts-Sublist seen ts))
  | inr new ↦
      rw new (Sublistᴰ.cons-cons refl (firsts-Sublist (λ k. str_eq (target_key t) k || seen k) ts))
]

-- Where every target is valid, deduplication succeeds, and its result has each key of the input
-- and no other, each once, with the targets in the order of the input.
pub deduplicate_targets_unique :
    (ts : List Target)
    → All IsValid ts
    → (us : List Target) × (deduplicate_targets ts ≡ ok us)
      × Distinct (target_keys us)
      × ((k : String) → has (target_keys us) k ≡ has (target_keys ts) k)
      × Sublistᴰ us ts
unfolding deduplicate_targets contains_key lookup
deduplicate_targets_unique ts v = (
  firsts (λ _. false) ts,
  deduplicate_from-firsts [] (λ _. false) [] ts (λ k. refl) v,
  firsts-Distinct (λ _. false) ts,
  (λ k. firsts_complete (λ _. false) ts k refl),
  firsts-Sublist (λ _. false) ts,
)

deduplicate_from-IsValid :
    (m : Map (Unit {0})) (unique ts : List Target) {us : List Target}
    → deduplicate_from m unique ts ≡ ok us
    → All IsValid ts
unfolding deduplicate_from
deduplicate_from-IsValid m unique [] h = tt
deduplicate_from-IsValid m unique (t ∷ ts) h = elim (Option-cases (validate_target t)) [
  | inl valid ↦ (
    valid,
    deduplicate_from-IsValid (next_seen t m) (next_unique t m unique) ts
        (sym (deduplicate_from-cons m unique t ts valid) ∙ h),
  )
  | inr (e, invalid) ↦ absurd (ground arith)
]

-- One invalid target makes deduplication fail: where it succeeds, every target was valid.
pub deduplicate_targets-IsValid :
    (ts : List Target) {us : List Target} → deduplicate_targets ts ≡ ok us → All IsValid ts
unfolding deduplicate_targets
deduplicate_targets-IsValid ts h = deduplicate_from-IsValid [] [] ts h
