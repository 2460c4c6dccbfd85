-- ===== src/Push/Targets/Chunks.antt =====
-- What `chunkTargets` returns.
use mathlib.Core.List.{flatten, append-nil}
use push_dispatch.Base.{
  ℕ, zero, suc, ◌+◌, ◌-◌, ◌≤◌, ◌<◌, ◌≡◌, ◌++◌, List, length, take, drop, take-append-drop, drop-add,
  drop_all, take_all, length-take, length-drop, All, ltb, arith, Bool-cases, if◌then◌else◌, inl,
  inr,
}
use push_dispatch.Push.Types.{Target}
use push_dispatch.Push.Targets.{chunk_from, chunk_targets}

-- Where a round of the loop stops.
abbrev stop_at : List Target → ℕ → ℕ → ℕ
stop_at ts size start = if ltb (length ts) (start + size) then length ts else start + size

round_splits :
    (ts : List Target) (start size : ℕ)
    → start < length ts
    → take (stop_at ts size start - start) (drop start ts) ++ drop (start + size) ts ≡ drop start ts
round_splits ts start size h = elim (Bool-cases (ltb (length ts) (start + size))) [
  | inl past ↦
      rw
        (
          past,
          drop_all (start + size) ts (ground arith),
          take_all (length ts - start) (drop start ts) (omega (arith, length-drop start ts)),
        )
        (append-nil _)
  | inr inside ↦
      let e : start + size - start ≡ size = omega arith in
      rw (inside, e, drop-add start size ts) (take-append-drop size (drop start ts))
]

-- A chunk has at least one target, and no more than the size.
abbrev pub FitsIn : ℕ → List Target → Type 0
FitsIn size chunk = (0 < length chunk) × (length chunk ≤ size)

round_fits :
    (ts : List Target) (start size : ℕ)
    → 0 < size
    → start < length ts
    → FitsIn size (take (stop_at ts size start - start) (drop start ts))
round_fits ts start size p h =
    ground
      (arith, length-take (stop_at ts size start - start) (drop start ts), length-drop start ts)

flatten-chunk_from :
    (fuel : ℕ) (ts : List Target) (size start : ℕ)
    → 0 < size
    → length ts ≤ start + fuel
    → flatten (chunk_from fuel ts size start) ≡ drop start ts
unfolding chunk_from flatten
flatten-chunk_from zero ts size start p h = rw (drop_all start ts (omega arith))
flatten-chunk_from (suc fuel) ts size start p h = elim (Bool-cases (ltb start (length ts))) [
  | inl more ↦
      rw (more, flatten-chunk_from fuel ts size (start + size) p (omega arith))
        (round_splits ts start size (ground arith))
  | inr done ↦ rw (done, drop_all start ts (ground arith))
]

chunk_from-FitsIn :
    (fuel : ℕ) (ts : List Target) (size start : ℕ)
    → 0 < size
    → All (FitsIn size) (chunk_from fuel ts size start)
unfolding chunk_from
chunk_from-FitsIn zero ts size start p = tt
chunk_from-FitsIn (suc fuel) ts size start p = elim (Bool-cases (ltb start (length ts))) [
  | inl more ↦
      rw more
        (round_fits ts start size p (ground arith), chunk_from-FitsIn fuel ts size (start + size) p)
  | inr done ↦ rw done tt
]

-- For a positive size the chunks, one after the other, are the targets in their order, none lost
-- and none twice, and each chunk has at least one target and at most `size`.
pub flatten-chunk_targets :
    (ts : List Target) (size : ℕ)
    → 0 < size
    → (flatten (chunk_targets ts size) ≡ ts) × All (FitsIn size) (chunk_targets ts size)
unfolding chunk_targets
flatten-chunk_targets ts size p = (
  flatten-chunk_from (length ts) ts size 0 p (omega arith),
  chunk_from-FitsIn (length ts) ts size 0 p,
)
