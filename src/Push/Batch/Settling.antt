-- ===== src/Push/Batch/Settling.antt =====
-- One round of `sendBatch`, key by key: which targets are retried, and which results are final.
use push_dispatch.Base.{
  ℕ, ◌≡◌, ◌⊎◌, inl, inr, refl, String, Bool, true, false, ◌&&◌, ◌||◌, not, none, some, List, [],
  ◌∷◌, Map, lookup, insert, contains_key, is_some, lookup-insert, has, Distinct, Option-cases, ltb,
  str_eq, str_eq_iff, if◌then◌else◌, arith,
}
use push_dispatch.Push.Types.{Target, TargetResult, target_key}
use push_dispatch.Push.Retry.{retryable_error_code}
use push_dispatch.Push.Batch.{Round, code_of, settle, note_result, note_results}

abbrev pub result_keys : List TargetResult → List String
result_keys [] = []
result_keys (r ∷ rs) = target_key r.target ∷ result_keys rs

abbrev pub retryable : TargetResult → Bool
retryable r = retryable_error_code (code_of r)

-- An answer asks to retry the key, or settles it.
abbrev pub retried_by : List TargetResult → String → Bool
retried_by [] k = false
retried_by (r ∷ rs) k = (str_eq (target_key r.target) k && retryable r) || retried_by rs k

abbrev pub settled_by : List TargetResult → String → Bool
settled_by [] k = false
settled_by (r ∷ rs) k = (str_eq (target_key r.target) k && not (retryable r)) || settled_by rs k

pub settled_by-absent :
    (rs : List TargetResult) (k : String) → has (result_keys rs) k ≡ false → settled_by rs k ≡ false
settled_by-absent [] k h = refl
settled_by-absent (r ∷ rs) k h = ground (arith, settled_by-absent rs k)

retried_by-absent :
    (rs : List TargetResult) (k : String) → has (result_keys rs) k ≡ false → retried_by rs k ≡ false
retried_by-absent [] k h = refl
retried_by-absent (r ∷ rs) k h = ground (arith, retried_by-absent rs k)

-- With one answer for a key, a key that an answer asks to retry is settled by none.
pub settled_by-retried :
    (rs : List TargetResult) (k : String)
    → Distinct (result_keys rs)
    → retried_by rs k ≡ true
    → settled_by rs k ≡ false
settled_by-retried [] k d h = refl
settled_by-retried (r ∷ rs) k d h = ground (
  arith,
  str_eq_iff (target_key r.target) k,
  settled_by-absent rs k,
  retried_by-absent rs k,
  settled_by-retried rs k d.1,
)

pub settle-retry :
    (b : Bool) (key : String) (u : Target) (r : TargetResult) (round : Round) (k : String)
    → lookup k (settle b key u r round).retry_by_key
      ≡ (if b && str_eq key k then some u else lookup k round.retry_by_key)
unfolding settle
settle-retry true key u r round k = lookup-insert key k u round.retry_by_key
settle-retry false key u r round k = refl

pub settle-final :
    (b : Bool) (key : String) (u : Target) (r : TargetResult) (round : Round) (k : String)
    → lookup k (settle b key u r round).final_results
      ≡ (if not b && str_eq key k then some r else lookup k round.final_results)
unfolding settle
settle-final true key u r round k = refl
settle-final false key u r round k = lookup-insert key k r round.final_results

pub settle-accounted :
    (b : Bool) (key : String) (u : Target) (r : TargetResult) (round : Round)
    → (settle b key u r round).accounted ≡ round.accounted
unfolding settle
settle-accounted true key u r round = refl
settle-accounted false key u r round = refl

-- The answer as it is recorded for a pending target.
abbrev pub recorded : TargetResult → Target → TargetResult
recorded r t = record r { target = t; code = code_of r }

module _ (max_attempts attempt : ℕ) (pending_by_key : Map Target) where
  abbrev retries : TargetResult → Bool
  retries r = retryable r && ltb attempt max_attempts

  note_result_unknown :
      (r : TargetResult) (round : Round)
      → lookup (target_key r.target) pending_by_key ≡ none
      → note_result max_attempts attempt pending_by_key r round ≡ round
  unfolding note_result
  note_result_unknown r round h = rw (h, note_result)

  note_result_pending :
      (r : TargetResult) (round : Round) (t : Target)
      → lookup (target_key r.target) pending_by_key ≡ some t
      → note_result max_attempts attempt pending_by_key r round
        ≡ settle
            (retries r)
            (target_key r.target)
            t
            (recorded r t)
            (record round { accounted = insert (target_key r.target) tt round.accounted })
  unfolding note_result
  note_result_pending r round t h = rw (h, note_result)

  note_result-retry :
      (r : TargetResult) (round : Round) (k : String)
      → lookup k (note_result max_attempts attempt pending_by_key r round).retry_by_key ≡ (
          if str_eq (target_key r.target) k && retries r && is_some (lookup k pending_by_key)
          then lookup k pending_by_key
          else lookup k round.retry_by_key)
  note_result-retry r round k = elim (Option-cases (lookup (target_key r.target) pending_by_key)) [
    | inl h ↦ ground (arith, note_result_unknown r round h, str_eq_iff (target_key r.target) k)
    | inr (t, h) ↦
        rw
          (
            note_result_pending r round t h,
            settle-retry (retries r) (target_key r.target) t (recorded r t)
                (record round { accounted = insert (target_key r.target) tt round.accounted }) k,
          )
          (ground (arith, str_eq_iff (target_key r.target) k))
  ]

  note_result-accounted :
      (r : TargetResult) (round : Round) (k : String) (t : Target)
      → lookup k pending_by_key ≡ some t
      → contains_key k (note_result max_attempts attempt pending_by_key r round).accounted
        ≡ (str_eq (target_key r.target) k || contains_key k round.accounted)
  unfolding contains_key
  note_result-accounted r round k t e =
      elim (Option-cases (lookup (target_key r.target) pending_by_key)) [
        | inl h ↦ ground (arith, note_result_unknown r round h, str_eq_iff (target_key r.target) k)
        | inr (u, h) ↦
            rw
              (
                note_result_pending r round u h,
                settle-accounted (retries r) (target_key r.target) u (recorded r u)
                    (record round { accounted = insert (target_key r.target) tt round.accounted }),
                lookup-insert (target_key r.target) k tt round.accounted,
              )
              (ground arith)
      ]

  pub note_results-retry :
      (rs : List TargetResult) (round : Round) (k : String) (t : Target)
      → lookup k (note_results max_attempts attempt pending_by_key rs round).retry_by_key ≡ some t
      → (lookup k round.retry_by_key ≡ some t)
        ⊎ ((retried_by rs k ≡ true)
            × (lookup k pending_by_key ≡ some t)
            × (ltb attempt max_attempts ≡ true))
  unfolding note_results
  note_results-retry [] round k t h = inl h
  note_results-retry (r ∷ rs) round k t h = ground (
    arith,
    note_results-retry rs (note_result max_attempts attempt pending_by_key r round) k t h,
    note_result-retry r round k,
  )

  pub note_results-accounted :
      (rs : List TargetResult) (round : Round) (k : String) (t : Target)
      → lookup k pending_by_key ≡ some t
      → contains_key k (note_results max_attempts attempt pending_by_key rs round).accounted
        ≡ (has (result_keys rs) k || contains_key k round.accounted)
  unfolding note_results
  note_results-accounted [] round k t h = refl
  note_results-accounted (r ∷ rs) round k t h = ground (
    arith,
    note_results-accounted rs (note_result max_attempts attempt pending_by_key r round) k t h,
    note_result-accounted r round k t h,
  )

  note_result-final :
      (r : TargetResult) (round : Round) (k : String) (x : TargetResult)
      → lookup k (note_result max_attempts attempt pending_by_key r round).final_results ≡ some x
      → (lookup k round.final_results ≡ some x) ⊎ (lookup k pending_by_key ≡ some x.target)
  note_result-final r round k x e =
      elim (Option-cases (lookup (target_key r.target) pending_by_key)) [
        | inl h ↦ inl (rw (note_result_unknown r round h) at e)
        | inr (u, h) ↦ ground (
          arith,
          note_result_pending r round u h,
          e,
          h,
          str_eq_iff (target_key r.target) k,
          settle-final (retries r) (target_key r.target) u (recorded r u)
              (record round { accounted = insert (target_key r.target) tt round.accounted }) k,
        )
      ]

  pub note_results-final :
      (rs : List TargetResult) (round : Round) (k : String) (x : TargetResult)
      → lookup k (note_results max_attempts attempt pending_by_key rs round).final_results ≡ some x
      → (lookup k round.final_results ≡ some x) ⊎ (lookup k pending_by_key ≡ some x.target)
  unfolding note_results
  note_results-final [] round k x h = inl h
  note_results-final (r ∷ rs) round k x h = ground (
    arith,
    note_results-final rs (note_result max_attempts attempt pending_by_key r round) k x h,
    note_result-final r round k x,
  )

  -- Each answer for a pending target leaves the target retried or final.
  note_result-recorded :
      (r : TargetResult) (round : Round) (k : String) (t : Target)
      → lookup k pending_by_key ≡ some t
      → let after = note_result max_attempts attempt pending_by_key r round in
        (is_some (lookup k after.final_results) || is_some (lookup k after.retry_by_key)) ≡ (
          str_eq (target_key r.target) k
          || is_some (lookup k round.final_results)
          || is_some (lookup k round.retry_by_key))
  note_result-recorded r round k t e =
      elim (Option-cases (lookup (target_key r.target) pending_by_key)) [
        | inl h ↦ ground (arith, note_result_unknown r round h, str_eq_iff (target_key r.target) k)
        | inr (u, h) ↦
            rw
              (
                note_result_pending r round u h,
                settle-final (retries r) (target_key r.target) u (recorded r u)
                    (record round { accounted = insert (target_key r.target) tt round.accounted })
                    k,
                settle-retry (retries r) (target_key r.target) u (recorded r u)
                    (record round { accounted = insert (target_key r.target) tt round.accounted })
                    k,
              )
              (ground arith)
      ]

  pub note_results-recorded :
      (rs : List TargetResult) (round : Round) (k : String) (t : Target)
      → lookup k pending_by_key ≡ some t
      → let after = note_results max_attempts attempt pending_by_key rs round in
        (is_some (lookup k after.final_results) || is_some (lookup k after.retry_by_key)) ≡ (
          has (result_keys rs) k
          || is_some (lookup k round.final_results)
          || is_some (lookup k round.retry_by_key))
  unfolding note_results
  note_results-recorded [] round k t h = refl
  note_results-recorded (r ∷ rs) round k t h = ground (
    arith,
    note_results-recorded rs (note_result max_attempts attempt pending_by_key r round) k t h,
    note_result-recorded r round k t h,
  )

  note_result-keeps :
      (r : TargetResult) (round : Round) (k : String)
      → let after = note_result max_attempts attempt pending_by_key r round in
        (is_some (lookup k round.final_results) || is_some (lookup k round.retry_by_key)) ≡ true
        → (is_some (lookup k after.final_results) || is_some (lookup k after.retry_by_key)) ≡ true
  note_result-keeps r round k e =
      elim (Option-cases (lookup (target_key r.target) pending_by_key)) [
        | inl h ↦ ground (arith, note_result_unknown r round h)
        | inr (u, h) ↦
            rw
              (
                note_result_pending r round u h,
                settle-final (retries r) (target_key r.target) u (recorded r u)
                    (record round { accounted = insert (target_key r.target) tt round.accounted })
                    k,
                settle-retry (retries r) (target_key r.target) u (recorded r u)
                    (record round { accounted = insert (target_key r.target) tt round.accounted })
                    k,
              )
              (ground arith)
      ]

  pub note_results-keeps :
      (rs : List TargetResult) (round : Round) (k : String)
      → let after = note_results max_attempts attempt pending_by_key rs round in
        (is_some (lookup k round.final_results) || is_some (lookup k round.retry_by_key)) ≡ true
        → (is_some (lookup k after.final_results) || is_some (lookup k after.retry_by_key)) ≡ true
  unfolding note_results
  note_results-keeps [] round k h = h
  note_results-keeps (r ∷ rs) round k h =
      note_results-keeps rs (note_result max_attempts attempt pending_by_key r round) k
        (note_result-keeps r round k h)
