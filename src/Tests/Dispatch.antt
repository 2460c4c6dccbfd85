-- ===== src/Tests/Dispatch.antt =====
-- push/dispatcher.go at concrete batches.
use mathlib.Core.List.{Sublistᴰ, flatten}
use push_dispatch.Base.{
  ℕ, ◌+◌, ◌*◌, ◌≤◌, ◌≡◌, ◌≢◌, ◌⊎◌, inl, refl, true, none, some, is_some, List, [], ◌∷◌, map, length,
  lookup, insert, contains_key, str_eq, has, Distinct, All, String, pos, negsuc, second, arith,
}
use push_dispatch.Push.Errors.{
  Error, plain, wrapped, send_error, ok, err, transient, rate_limited, no_error, send_error_code,
}
use push_dispatch.Push.Types.{
  Target, validate_target, target_key, target_keys, max_batch_concurrency,
}
use push_dispatch.Push.Targets.{deduplicate_targets, chunk_targets}
use push_dispatch.Push.Targets.Unique.{
  IsValid, deduplicate_targets_unique, deduplicate_targets-IsValid,
}
use push_dispatch.Push.Targets.Chunks.{FitsIn, flatten-chunk_targets}
use push_dispatch.Push.Retry.{
  Dispatcher, new_dispatcher_with_retry, retry_backoff, bounded_retry_jitter,
}
use push_dispatch.Push.Retry.Bounds.{DrawsBelow, new_dispatcher-bounds, retry_waits_bounds}
use push_dispatch.Push.Batch.{attempts, send_batch}
use push_dispatch.Push.Batch.Calls.{AnswersOnce, NoResend, Requests, logged}
use push_dispatch.Push.Batch.Log.{send_batch-NoResend}
use push_dispatch.Push.Batch.Report.{
  attempts_complete, send_batch-report, successes, any_unresolved, no_attempts,
}
use push_dispatch.Push.Send.{send, run_jobs}
use push_dispatch.Push.Send.Report.{send-report}
use push_dispatch.Push.Errors.{send_error_code-new_send_error, new_send_error, unknown}
use push_dispatch.Tests.Data.{
  phone, tablet, greeting, slow_sender, slow_dispatcher, no_wait, no_jitter, draw_zero,
}

abbrev both : List Target
both = phone ∷ tablet ∷ []

abbrev thrice : List Target
thrice = phone ∷ tablet ∷ phone ∷ []

abbrev worlds : ℕ → ℕ
worlds i = i

abbrev in_order {ℓ} : {A : Type ℓ} → A → A
in_order os = os

slow_dispatcher-AnswersOnce : AnswersOnce slow_dispatcher
slow_dispatcher-AnswersOnce message [] w d = tt
slow_dispatcher-AnswersOnce message (t ∷ ts) w d = (refl, tt)

both-Distinct : Distinct (target_keys both)
unfolding target_key str_eq
both-Distinct = (refl, (refl, tt))

send_batch-NoResend_example :
    let log = (send_batch (logged slow_dispatcher) greeting both (0, [])).1.1 in
    NoResend log × Requests both log × (length log ≤ 3)
send_batch-NoResend_example =
    send_batch-NoResend slow_dispatcher greeting both 0 slow_dispatcher-AnswersOnce both-Distinct

attempts_complete_example :
    is_some (
      lookup
        (target_key tablet)
        (attempts slow_dispatcher greeting both 3 1 both no_attempts 0).0.final_results)
    ≡ true
unfolding target_key str_eq
attempts_complete_example =
    attempts_complete slow_dispatcher greeting both 0 (target_key tablet) both-Distinct
      (omega arith) refl

send_batch-report_example :
    let r = (send_batch slow_dispatcher greeting both 0).0 in
    (map (λ x. x.target) r.0.results ≡ both)
    × (r.0.success_count ≡ successes r.0.results)
    × (r.0.success_count + r.0.failure_count ≡ 2)
    × (is_some r.1 ≡ any_unresolved r.0.results)
send_batch-report_example =
    send_batch-report slow_dispatcher greeting both 0 both-Distinct (omega arith)

thrice-kept : deduplicate_targets thrice ≡ ok both
unfolding deduplicate_targets validate_target str_eq contains_key lookup insert target_key
thrice-kept = refl

send-report_example :
    let r = send slow_dispatcher greeting thrice worlds in_order in
    (map (λ x. x.target) r.0.results ≡ both)
    × (r.0.success_count ≡ successes r.0.results)
    × (r.0.success_count + r.0.failure_count ≡ 2)
    × (is_some r.1 ≡ any_unresolved r.0.results)
unfolding run_jobs chunk_targets
send-report_example =
    send-report slow_dispatcher greeting thrice worlds in_order both (omega arith) thrice-kept
      (record { only = (refl, tt); every = (inl refl, tt) })

deduplicate_targets_unique_example :
    (us : List Target) × (deduplicate_targets thrice ≡ ok us)
    × Distinct (target_keys us)
    × ((k : String) → has (target_keys us) k ≡ has (target_keys thrice) k)
    × Sublistᴰ us thrice
unfolding validate_target str_eq
deduplicate_targets_unique_example = deduplicate_targets_unique thrice (refl, (refl, (refl, tt)))

deduplicate_targets-IsValid_example : All IsValid thrice
deduplicate_targets-IsValid_example = deduplicate_targets-IsValid thrice thrice-kept

flatten-chunk_targets_example :
    (flatten (chunk_targets thrice 2) ≡ thrice) × All (FitsIn 2) (chunk_targets thrice 2)
flatten-chunk_targets_example = flatten-chunk_targets thrice 2 (omega arith)

new_dispatcher-bounds_example :
    (d : Dispatcher ℕ) × (new_dispatcher_with_retry
        (some slow_sender)
        (pos 9)
        (negsuc 0)
        none
        none
        no_wait
        no_jitter
      ≡ ok d)
    × (1 ≤ d.concurrency)
    × (d.concurrency ≤ max_batch_concurrency)
    × (1 ≤ d.max_attempts)
    × (e : Error) × (new_dispatcher_with_retry none (pos 9) (negsuc 0) none none no_wait no_jitter
        ≡ err e)
new_dispatcher-bounds_example =
    new_dispatcher-bounds slow_sender (pos 9) (negsuc 0) none none no_wait no_jitter

draw_zero-DrawsBelow : DrawsBelow draw_zero
draw_zero-DrawsBelow n w h = h

retry_waits_bounds_example :
    let a = (bounded_retry_jitter draw_zero (retry_backoff rate_limited 1) 0).0 in
    let b = (bounded_retry_jitter draw_zero (retry_backoff transient 2) 0).0 in
    (60 * second ≤ a) × (second ≤ b) × (a + b ≤ 198 * second)
retry_waits_bounds_example =
    retry_waits_bounds draw_zero rate_limited transient 0 0 draw_zero-DrawsBelow

send_error_code-new_send_error_example :
    (send_error_code (some (wrapped "send" (send_error rate_limited (plain "quota"))))
      ≡ send_error_code (some (send_error rate_limited (plain "quota"))))
    × ((rate_limited ≢ no_error)
          × (send_error_code (some (send_error rate_limited (plain "quota"))) ≡ rate_limited)
        ⊎ (rate_limited ≡ no_error)
          × (send_error_code (some (send_error rate_limited (plain "quota"))) ≡ unknown))
unfolding new_send_error
send_error_code-new_send_error_example =
    send_error_code-new_send_error rate_limited (plain "quota") "send" refl
