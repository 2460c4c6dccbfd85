-- ===== src/Push/Targets.antt =====
-- `deduplicateTargets` and `chunkTargets` of push/dispatcher.go.
pub mod Unique
pub mod Chunks
use push_dispatch.Base.{
  ℕ, zero, suc, ◌+◌, ◌-◌, String, ◌++◌, Bool, Option, none, some, List, [], ◌∷◌, Map, lookup,
  insert, contains_key, length, take, drop, ltb, if◌then◌else◌,
}
use push_dispatch.Push.Errors.{Error, Result, ok, err}
use push_dispatch.Push.Types.{Target, validate_target, target_key}

-- The loop of `deduplicateTargets`, with its locals `seen` and `unique`.
deduplicate_from : Map (Unit {0}) → List Target → List Target → Result (List Target)
deduplicate_from seen unique [] = ok unique
deduplicate_from seen unique (target ∷ targets) =
    let key = target_key target in
    let next =
      deduplicate_from (if contains_key key seen then seen else insert key tt seen)
        (if contains_key key seen then unique else unique ++ (target ∷ [])) targets in
    elim (validate_target target) [ some e ↦ err e | none ↦ next ]

-- `deduplicateTargets`.
unfoldable pub deduplicate_targets : List Target → Result (List Target)
unfolding deduplicate_from
deduplicate_targets targets = deduplicate_from [] [] targets

-- The loop of `chunkTargets` over `start`, with fuel for its rounds.
chunk_from : ℕ → List Target → ℕ → ℕ → List (List Target)
chunk_from zero targets size start = []
chunk_from (suc fuel) targets size start =
    let stop = if ltb (length targets) (start + size) then length targets else start + size in
    let rest = chunk_from fuel targets size (start + size) in
    if ltb start (length targets) then take (stop - start) (drop start targets) ∷ rest else []

-- `chunkTargets`: a round moves `start` on by `size`, so a round for each target is enough.
unfoldable pub chunk_targets : List Target → ℕ → List (List Target)
unfolding chunk_from
chunk_targets targets size = chunk_from (length targets) targets size 0
