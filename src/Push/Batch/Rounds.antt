-- ===== src/Push/Batch/Rounds.antt =====
-- One whole round of `sendBatch`: the targets without an answer, and what the round amounts to.
use push_dispatch.Base.{
  ℕ, ◌≡◌, ◌⊎◌, inl, inr, refl, String, Bool, true, false, ◌&&◌, ◌||◌, not, Option, some, List, [],
  ◌∷◌, Map, lookup, insert, contains_key, is_some, lookup-insert, keys, has, has-keys, Distinct,
  Option-cases, insert-Distinct, lookup_entries, All, ltb, str_eq, str_eq_iff, if◌then◌else◌, arith,
}
use push_dispatch.Push.Errors.{Error}
use push_dispatch.Push.Types.{Target, TargetResult, BatchResult, target_key, target_keys}
use push_dispatch.Push.Retry.{retryable_error_code}
use push_dispatch.Push.Batch.{
  Round, pending_map, missing_code, missing_error, note_results, note_missing, note_all_missing,
  settle_round,
}
use push_dispatch.Push.Batch.Settling.{
  result_keys, settled_by, settled_by-retried, settled_by-absent, settle-retry, settle-final,
  settle-accounted, note_results-retry, note_results-accounted, note_results-final,
  note_results-recorded, note_results-keeps,
}

-- The entry stands for what the map of pending targets holds.
abbrev IsEntryOf : Map Target → String × Target → Type 0
IsEntryOf m e = lookup e.0 m ≡ some e.1

abbrev missing_result : Option Error → Target → TargetResult
missing_result send_err t = record {
  target = t;
  message_id = "";
  code = missing_code send_err;
  error = some (missing_error send_err);
}

module _ (max_attempts attempt : ℕ) (send_err : Option Error) where
  abbrev retries_missing : Bool
  retries_missing = retryable_error_code (missing_code send_err) && ltb attempt max_attempts

  note_missing-retry :
      (e : String × Target) (round : Round) (k : String)
      → lookup k (note_missing max_attempts attempt send_err e round).retry_by_key ≡ (
          if not (contains_key e.0 round.accounted) && (retries_missing && str_eq e.0 k)
          then some e.1
          else lookup k round.retry_by_key)
  unfolding note_missing
  note_missing-retry (key, t) round k =
      ground (arith, settle-retry retries_missing key t (missing_result send_err t) round k)

  note_missing-accounted :
      (e : String × Target) (round : Round)
      → (note_missing max_attempts attempt send_err e round).accounted ≡ round.accounted
  unfolding note_missing
  note_missing-accounted (key, t) round =
      ground (arith, settle-accounted retries_missing key t (missing_result send_err t) round)

  note_missing-final :
      (e : String × Target) (round : Round) (k : String)
      → lookup k (note_missing max_attempts attempt send_err e round).final_results ≡ (
          if not (contains_key e.0 round.accounted) && (not retries_missing && str_eq e.0 k)
          then some (missing_result send_err e.1)
          else lookup k round.final_results)
  unfolding note_missing
  note_missing-final (key, t) round k =
      ground (arith, settle-final retries_missing key t (missing_result send_err t) round k)

  module _ (pending_by_key : Map Target) where
    note_all_missing-retry :
        (es : Map Target) (round : Round) (k : String) (t : Target)
        → All (IsEntryOf pending_by_key) es
        → lookup k (note_all_missing max_attempts attempt send_err es round).retry_by_key ≡ some t
        → (lookup k round.retry_by_key ≡ some t)
          ⊎ ((contains_key k round.accounted ≡ false)
              × (lookup k pending_by_key ≡ some t)
              × (ltb attempt max_attempts ≡ true))
    unfolding note_all_missing
    note_all_missing-retry [] round k t a h = inl h
    note_all_missing-retry ((key, u) ∷ es) round k t a h = ground (
      arith,
      a.0,
      str_eq_iff key k,
      note_all_missing-retry es (note_missing max_attempts attempt send_err (key, u) round) k t a.1
          h,
      note_missing-retry (key, u) round k,
      note_missing-accounted (key, u) round,
    )

    note_all_missing-final :
        (es : Map Target) (round : Round) (k : String) (x : TargetResult)
        → All (IsEntryOf pending_by_key) es
        → lookup k (note_all_missing max_attempts attempt send_err es round).final_results ≡ some x
        → (lookup k round.final_results ≡ some x) ⊎ (lookup k pending_by_key ≡ some x.target)
    unfolding note_all_missing
    note_all_missing-final [] round k x a h = inl h
    note_all_missing-final ((key, u) ∷ es) round k x a h = ground (
      arith,
      a.0,
      str_eq_iff key k,
      note_all_missing-final es (note_missing max_attempts attempt send_err (key, u) round) k x a.1
          h,
      note_missing-final (key, u) round k,
    )

  note_all_missing-recorded :
      (es : Map Target) (round : Round) (k : String)
      → contains_key k round.accounted ≡ false
      → let after = note_all_missing max_attempts attempt send_err es round in
        (is_some (lookup k after.final_results) || is_some (lookup k after.retry_by_key)) ≡ (
          has (keys es) k
          || is_some (lookup k round.final_results)
          || is_some (lookup k round.retry_by_key))
  unfolding note_all_missing
  note_all_missing-recorded [] round k h = refl
  note_all_missing-recorded ((key, u) ∷ es) round k h = ground (
    arith,
    str_eq_iff key k,
    note_all_missing-recorded es (note_missing max_attempts attempt send_err (key, u) round) k,
    note_missing-retry (key, u) round k,
    note_missing-final (key, u) round k,
    note_missing-accounted (key, u) round,
  )

  note_all_missing-keeps :
      (es : Map Target) (round : Round) (k : String)
      → let after = note_all_missing max_attempts attempt send_err es round in
        (is_some (lookup k round.final_results) || is_some (lookup k round.retry_by_key)) ≡ true
        → (is_some (lookup k after.final_results) || is_some (lookup k after.retry_by_key)) ≡ true
  unfolding note_all_missing
  note_all_missing-keeps [] round k h = h
  note_all_missing-keeps ((key, u) ∷ es) round k h = ground (
    arith,
    note_all_missing-keeps es (note_missing max_attempts attempt send_err (key, u) round) k,
    note_missing-retry (key, u) round k,
    note_missing-final (key, u) round k,
  )

-- The map of pending targets.
pending_map-Distinct :
    (m : Map Target) (ts : List Target) → Distinct (keys m) → Distinct (keys (pending_map m ts))
unfolding pending_map
pending_map-Distinct m [] d = d
pending_map-Distinct m (t ∷ ts) d =
    pending_map-Distinct (insert (target_key t) t m) ts (insert-Distinct (target_key t) t m d)

-- `owner` names the target of each key.
abbrev pub Owns : (String → Option Target) → Target → Type 0
Owns owner t = owner (target_key t) ≡ some t

lookup-pending_map :
    (owner : String → Option Target) (m : Map Target) (ts : List Target) (k : String) (t : Target)
    → All (Owns owner) ts
    → lookup k (pending_map m ts) ≡ some t
    → (lookup k m ≡ some t) ⊎ ((owner k ≡ some t) × (has (target_keys ts) k ≡ true))
unfolding pending_map
lookup-pending_map owner m [] k t a h = inl h
lookup-pending_map owner m (u ∷ ts) k t a h = ground (
  arith,
  a.0,
  str_eq_iff (target_key u) k,
  lookup-pending_map owner (insert (target_key u) u m) ts k t a.1 h,
  lookup-insert (target_key u) k u m,
)

pending_map-has :
    (m : Map Target) (ts : List Target) (k : String)
    → is_some (lookup k (pending_map m ts)) ≡ (has (target_keys ts) k || is_some (lookup k m))
unfolding pending_map
pending_map-has m [] k = refl
pending_map-has m (u ∷ ts) k = ground (
  arith,
  str_eq_iff (target_key u) k,
  pending_map-has (insert (target_key u) u m) ts k,
  lookup-insert (target_key u) k u m,
)

pending_entries : (ts : List Target) → All (IsEntryOf (pending_map [] ts)) (pending_map [] ts)
pending_entries ts = lookup_entries (pending_map [] ts) (pending_map-Distinct [] ts tt)

module _ (owner : String → Option Target) (max_attempts attempt : ℕ) (pending : List Target)
    (result : BatchResult) (send_err : Option Error) (final : Map TargetResult)
    (owns : All (Owns owner) pending) where
  abbrev after : Round
  after = settle_round max_attempts attempt pending result send_err final

  abbrev by_key : Map Target
  by_key = pending_map [] pending

  abbrev fresh : Round
  fresh = record {
    retry_by_key = [];
    retry_code_by_key = [];
    accounted = [];
    final_results = final;
  }

  abbrev noted : Round
  noted = note_results max_attempts attempt by_key result.results fresh

  lookup-pending :
      (k : String) (t : Target)
      → lookup k (pending_map [] pending) ≡ some t
      → (owner k ≡ some t) × (has (target_keys pending) k ≡ true)
  unfolding lookup
  lookup-pending k t h = ground (arith, lookup-pending_map owner [] pending k t owns h)

  -- A target that is retried was pending, and it is not the last attempt.
  pub settle_round-retry :
      (k : String) (t : Target)
      → lookup k after.retry_by_key ≡ some t
      → (owner k ≡ some t)
        × (has (target_keys pending) k ≡ true)
        × (ltb attempt max_attempts ≡ true)
  unfolding settle_round lookup contains_key
  settle_round-retry k t h = ground (
    arith,
    note_all_missing-retry max_attempts attempt send_err by_key by_key noted k t
        (pending_entries pending) h,
    note_results-retry max_attempts attempt by_key result.results fresh k t,
    lookup-pending k t,
  )

  -- Nor does an answer settle it, where there is at most one answer for a key.
  pub settle_round-unsettled :
      (k : String) (t : Target)
      → Distinct (result_keys result.results)
      → lookup k after.retry_by_key ≡ some t
      → settled_by result.results k ≡ false
  unfolding settle_round lookup contains_key
  settle_round-unsettled k t d h = ground (
    arith,
    note_all_missing-retry max_attempts attempt send_err by_key by_key noted k t
        (pending_entries pending) h,
    note_results-retry max_attempts attempt by_key result.results fresh k t,
    note_results-accounted max_attempts attempt by_key result.results fresh k t,
    settled_by-absent result.results k,
    settled_by-retried result.results k d,
  )

  -- A final result was final before, or it is for a target that was pending.
  pub settle_round-final :
      (k : String) (x : TargetResult)
      → lookup k after.final_results ≡ some x
      → (lookup k final ≡ some x)
        ⊎ ((owner k ≡ some x.target) × (has (target_keys pending) k ≡ true))
  unfolding settle_round
  settle_round-final k x h = ground (
    arith,
    note_all_missing-final max_attempts attempt send_err by_key by_key noted k x
        (pending_entries pending) h,
    note_results-final max_attempts attempt by_key result.results fresh k x,
    lookup-pending k x.target,
  )

  -- After the round each target that was pending or final is final or retried.
  pub settle_round-recorded :
      (k : String)
      → (has (target_keys pending) k || is_some (lookup k final)) ≡ true
      → (is_some (lookup k after.final_results) || is_some (lookup k after.retry_by_key)) ≡ true
  unfolding settle_round lookup contains_key
  settle_round-recorded k h = elim (Option-cases (lookup k by_key)) [
    | inl e ↦ ground (
      arith,
      pending_map-has [] pending k,
      note_results-keeps max_attempts attempt by_key result.results fresh k,
      note_all_missing-keeps max_attempts attempt send_err by_key noted k,
    )
    | inr (t, e) ↦ ground (
      arith,
      has-keys k by_key,
      note_results-recorded max_attempts attempt by_key result.results fresh k t e,
      note_results-accounted max_attempts attempt by_key result.results fresh k t e,
      note_all_missing-recorded max_attempts attempt send_err by_key noted k,
      note_all_missing-keeps max_attempts attempt send_err by_key noted k,
    )
  ]
