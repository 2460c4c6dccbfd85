-- ===== src/Push/Retry.antt =====
-- push/dispatcher.go: the dispatcher's settings, its backoff and its jitter.
-- `W` is the world outside the dispatcher: the provider, the clock and the random numbers answer
-- from it and change it. A `context.Context` is a part of it.
pub mod Bounds
use push_dispatch.Base.{
  ℕ, zero, suc, ◌+◌, ◌-◌, ◌*◌, ◌/◌, ◌^◌, min, String, ◌++◌, Bool, true, false, ◌&&◌, ◌||◌, not,
  Option, none, some, List, [], ◌∷◌, Map, lookup, insert, contains_key, is_some, length, ltb, leb,
  ◌==◌, ℤ, pos, negsuc, second, if◌then◌else◌,
}
use push_dispatch.Push.Errors.{
  Error, plain, wrapped, Result, ok, err, send_error_code, ErrorCode, no_error, unregistered,
  transient, rate_limited, permanent, unknown,
}
use push_dispatch.Push.Types.{
  Target, Message, TargetResult, BatchResult, BatchSender, target_key, default_batch_concurrency,
  max_batch_concurrency, max_batch_targets,
}

abbrev pub default_send_attempts : ℕ
default_send_attempts = 3

abbrev pub transient_retry_backoff : ℕ
transient_retry_backoff = second

abbrev pub rate_limit_retry_backoff : ℕ
rate_limit_retry_backoff = 60 * second

abbrev pub max_retry_jitter_percentage : ℕ
max_retry_jitter_percentage = 10

pub record Dispatcher (W : Type 0) : Type 0 where
  pub sender : BatchSender W
  pub concurrency : ℕ
  pub max_attempts : ℕ
  pub retry_wait : ℕ → W → Option Error × W
  pub retry_jitter : ℕ → W → ℕ × W

abbrev pub or_default {ℓ} : {A : Type ℓ} → Option A → A → A
or_default none a = a
or_default (some b) a = b

-- `if n <= 0 { n = fallback }` on an `int`.
abbrev pub positive_or : ℤ → ℕ → ℕ
positive_or (pos zero) fallback = fallback
positive_or (pos (suc n)) fallback = suc n
positive_or (negsuc n) fallback = fallback

-- `newDispatcherWithRetry`; a nil argument is `none`, and the last two arguments are the functions
-- that take the place of nil ones (`waitForRetry` and `boundedRetryJitter`).
unfoldable pub new_dispatcher_with_retry :
    {W : Type 0}
    → Option (BatchSender W)
    → ℤ
    → ℤ
    → Option (ℕ → W → Option Error × W)
    → Option (ℕ → W → ℕ × W)
    → (ℕ → W → Option Error × W)
    → (ℕ → W → ℕ × W)
    → Result (Dispatcher W)
new_dispatcher_with_retry none concurrency attempts wait jitter wait_for_retry bounded_jitter =
    err (plain "push batch sender is required")
new_dispatcher_with_retry (some sender) concurrency attempts wait jitter wait_for_retry
      bounded_jitter =
    let wanted = positive_or concurrency default_batch_concurrency in
    ok (record {
      sender = sender;
      concurrency = if ltb max_batch_concurrency wanted then max_batch_concurrency else wanted;
      max_attempts = positive_or attempts default_send_attempts;
      retry_wait = or_default wait wait_for_retry;
      retry_jitter = or_default jitter bounded_jitter;
    })

-- `retryableErrorCode`.
unfoldable pub retryable_error_code : ErrorCode → Bool
retryable_error_code transient = true
retryable_error_code rate_limited = true
retryable_error_code _ = false

abbrev pub is_no_error : ErrorCode → Bool
is_no_error no_error = true
is_no_error _ = false

abbrev pub is_rate_limited : ErrorCode → Bool
is_rate_limited rate_limited = true
is_rate_limited _ = false

-- `retryBackoff`: `base << min(completedAttempt-1, 2)`.
unfoldable pub retry_backoff : ErrorCode → ℕ → ℕ
retry_backoff code completed_attempt =
    let base = if is_rate_limited code then rate_limit_retry_backoff else transient_retry_backoff in
    base * 2 ^ min (completed_attempt - 1) 2

-- `boundedRetryJitter`; `rand n` draws a number below `n`.
unfoldable pub bounded_retry_jitter : {W : Type 0} → (ℕ → W → ℕ × W) → ℕ → W → ℕ × W
bounded_retry_jitter rand base w =
    let bound = base * max_retry_jitter_percentage / 100 in
    let (drawn, w') = rand (bound + 1) w in if bound == 0 then (base, w) else (base + drawn, w')
