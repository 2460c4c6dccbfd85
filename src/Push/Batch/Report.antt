-- ===== src/Push/Batch/Report.antt =====
-- What `sendBatch` reports: its results, its counts and its error.
use push_dispatch.Base.{
  ℕ, zero, suc, ◌+◌, ◌<◌, ◌≡◌, inl, inr, refl, ◌∙◌, String, Bool, true, false, ◌&&◌, ◌||◌, not,
  Option, none, some, List, [], ◌∷◌, map, lookup, is_some, has, Distinct, Option-cases, All, length,
  ltb, if◌then◌else◌, arith,
}
use push_dispatch.Push.Errors.{Error}
use push_dispatch.Push.Types.{Target, TargetResult, Message, target_key, target_keys}
use push_dispatch.Push.Retry.{Dispatcher}
use push_dispatch.Push.Batch.{
  Attempts, attempts, send_batch, result_for, summarize, is_success, is_unresolved_code,
  unresolved_error,
}
use push_dispatch.Push.Batch.Rounds.{Owns}
use push_dispatch.Push.Batch.Calls.{find_target, find_target-Owns}
use push_dispatch.Push.Batch.Final.{OwnsResults, IsClosed, attempts-IsClosed}

-- The loop starts with no result and every target pending.
abbrev pub no_attempts : Attempts
no_attempts = record { final_results = []; last_err = none }

loop-IsClosed :
    {W : Type 0} (d : Dispatcher W) (message : Message) (targets : List Target) (w : W)
    (distinct : Distinct (target_keys targets))
    → 0 < d.max_attempts
    → IsClosed d message targets
        (find_target targets)
        (find_target-Owns targets distinct)
        (attempts d message targets d.max_attempts 1 targets no_attempts w).0.final_results
unfolding lookup
loop-IsClosed d message targets w distinct positive =
    attempts-IsClosed d message targets (find_target targets) (find_target-Owns targets distinct)
      d.max_attempts 1 targets no_attempts w (omega arith)
      (record {
        pending_owned = find_target-Owns targets distinct;
        results_owned = λ k x h. absurd (ground arith);
        covered = λ k h. ground arith;
      })

-- With at least one attempt and different keys, the loop ends with a final result for each target
-- of the batch, whatever the provider, the waits and the jitter do: no target is left pending.
pub attempts_complete :
    {W : Type 0} (d : Dispatcher W) (message : Message) (targets : List Target) (w : W) (k : String)
    → Distinct (target_keys targets)
    → 0 < d.max_attempts
    → has (target_keys targets) k ≡ true
    → is_some (
        lookup k
          (attempts d message targets d.max_attempts 1 targets no_attempts w).0.final_results)
      ≡ true
attempts_complete d message targets w k distinct positive h =
    (loop-IsClosed d message targets w distinct positive).complete k h

result_for-target :
    (owner : String → Option Target) (a : Attempts) (t : Target)
    → Owns owner t
    → OwnsResults owner a.final_results
    → (result_for a t).target ≡ t
unfolding result_for
result_for-target owner a t o h = elim (Option-cases (lookup (target_key t) a.final_results)) [
  | inl e ↦ rw (e, result_for)
  | inr (x, e) ↦ rw (e, result_for) (ground (arith, o, h (target_key t) x e))
]

summarize-targets :
    (owner : String → Option Target) (a : Attempts) (ts : List Target)
    → All (Owns owner) ts
    → OwnsResults owner a.final_results
    → map (λ r. r.target) (summarize a ts).combined.results ≡ ts
unfolding summarize
summarize-targets owner a [] o h = refl
summarize-targets owner a (t ∷ ts) o h =
    ground (arith, result_for-target owner a t o.0 h, summarize-targets owner a ts o.1 h)

-- The number of successes, and whether some result is not resolved.
abbrev pub successes : List TargetResult → ℕ
successes [] = 0
successes (r ∷ rs) = if is_success r then suc (successes rs) else successes rs

abbrev pub any_unresolved : List TargetResult → Bool
any_unresolved [] = false
any_unresolved (r ∷ rs) = not (is_success r) && is_unresolved_code r.code || any_unresolved rs

summarize-counts :
    (a : Attempts) (ts : List Target)
    → let s = summarize a ts in
      (s.combined.success_count ≡ successes s.combined.results)
      × (s.combined.success_count + s.combined.failure_count ≡ length ts)
      × (ltb 0 s.unresolved ≡ any_unresolved s.combined.results)
unfolding summarize
summarize-counts a [] = (refl, refl, refl)
summarize-counts a (t ∷ ts) = ground (arith, summarize-counts a ts)

is_some-unresolved_error : (n : ℕ) (e : Option Error) → is_some (unresolved_error n e) ≡ ltb 0 n
unfolding unresolved_error
is_some-unresolved_error zero e = refl
is_some-unresolved_error (suc n) none = ground arith
is_some-unresolved_error (suc n) (some e) = ground arith

-- With at least one attempt and different keys, `sendBatch` returns one result for each target, in
-- the order of the batch; its counts are the number of successes and of all others; and it returns
-- an error exactly when the result of some target is transient, rate limited or unknown.
pub send_batch-report :
    {W : Type 0} (d : Dispatcher W) (message : Message) (targets : List Target) (w : W)
    → Distinct (target_keys targets)
    → 0 < d.max_attempts
    → let r = (send_batch d message targets w).0 in
      (map (λ x. x.target) r.0.results ≡ targets)
      × (r.0.success_count ≡ successes r.0.results)
      × (r.0.success_count + r.0.failure_count ≡ length targets)
      × (is_some r.1 ≡ any_unresolved r.0.results)
unfolding send_batch
send_batch-report d message targets w distinct positive =
    let a = (attempts d message targets d.max_attempts 1 targets no_attempts w).0 in
    let counts = summarize-counts a targets in
    (
      summarize-targets (find_target targets) a targets (find_target-Owns targets distinct)
          (loop-IsClosed d message targets w distinct positive).results_owned,
      counts.0,
      counts.1,
      is_some-unresolved_error (summarize a targets).unresolved a.last_err ∙ counts.2,
    )
