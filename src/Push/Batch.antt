-- ===== src/Push/Batch.antt =====
-- push/dispatcher.go, `sendBatch`: the rounds of one provider batch, and its summary.
pub mod Settling
pub mod Rounds
pub mod Loop
pub mod Calls
pub mod Log
pub mod Final
pub mod Report
use push_dispatch.Base.{
  ℕ, zero, suc, ◌+◌, ◌-◌, ◌*◌, ◌/◌, ◌^◌, min, String, ◌++◌, Bool, true, false, ◌&&◌, ◌||◌, not,
  Option, none, some, List, [], ◌∷◌, Map, lookup, insert, contains_key, is_some, length, ltb, leb,
  ◌==◌, ℤ, pos, negsuc, second, if◌then◌else◌,
}
use push_dispatch.Push.Errors.{
  Error, plain, wrapped, Result, ok, err, send_error_code, ErrorCode, no_error, unregistered,
  transient, rate_limited, permanent, unknown,
}
use push_dispatch.Push.Types.{
  Target, Message, TargetResult, BatchResult, BatchSender, target_key, default_batch_concurrency,
  max_batch_concurrency, max_batch_targets,
}
use push_dispatch.Push.Retry.{
  Dispatcher, retryable_error_code, is_no_error, is_rate_limited, retry_backoff,
}

-- The maps of one round of `sendBatch`, and the results that are final.
pub record Round : Type 0 where
  pub retry_by_key : Map Target
  pub retry_code_by_key : Map ErrorCode
  pub accounted : Map (Unit {0})
  pub final_results : Map TargetResult

-- `pendingByKey`.
unfoldable pub pending_map : Map Target → List Target → Map Target
pending_map m [] = m
pending_map m (target ∷ targets) = pending_map (insert (target_key target) target m) targets

-- A result with an error and no code gets the code `unknown`.
abbrev pub code_of : TargetResult → ErrorCode
code_of r = if is_some r.error && is_no_error r.code then unknown else r.code

-- One target is retried with a code, or its result is final.
pub settle : Bool → String → Target → TargetResult → Round → Round
settle true key target result round = record round {
  retry_by_key = insert key target round.retry_by_key;
  retry_code_by_key = insert key result.code round.retry_code_by_key;
}
settle false key target result round = record round {
  final_results = insert key result round.final_results;
}

-- The body of the loop over `result.Results`.
pub note_result : ℕ → ℕ → Map Target → TargetResult → Round → Round
unfolding settle
note_result max_attempts attempt pending_by_key r round =
    let key = target_key r.target in
    elim (lookup key pending_by_key) [
      | none ↦ round
      | some target ↦
          let r' = record r { target = target; code = code_of r } in
          settle (retryable_error_code r'.code && ltb attempt max_attempts) key target r'
            (record round { accounted = insert key tt round.accounted })
    ]

pub note_results : ℕ → ℕ → Map Target → List TargetResult → Round → Round
note_results max_attempts attempt pending_by_key [] round = round
note_results max_attempts attempt pending_by_key (r ∷ rs) round =
    note_results max_attempts attempt pending_by_key rs
      (note_result max_attempts attempt pending_by_key r round)

abbrev pub missing_code : Option Error → ErrorCode
missing_code none = transient
missing_code (some e) = send_error_code (some e)

abbrev pub missing_error : Option Error → Error
missing_error none = plain "push provider omitted a target result"
missing_error (some e) = e

-- The body of the loop over `pendingByKey`.
pub note_missing : ℕ → ℕ → Option Error → String × Target → Round → Round
unfolding settle
note_missing max_attempts attempt send_err (key, target) round =
    let r : TargetResult = record {
      target = target;
      message_id = "";
      code = missing_code send_err;
      error = some (missing_error send_err);
    } in
    if contains_key key round.accounted
    then round
    else settle (retryable_error_code (missing_code send_err) && ltb attempt max_attempts) key
        target r round

pub note_all_missing : ℕ → ℕ → Option Error → Map Target → Round → Round
note_all_missing max_attempts attempt send_err [] round = round
note_all_missing max_attempts attempt send_err (entry ∷ entries) round =
    note_all_missing max_attempts attempt send_err entries
      (note_missing max_attempts attempt send_err entry round)

-- One round of `sendBatch` after the provider's answer, up to the test for an empty `retryByKey`.
unfoldable pub settle_round :
    ℕ → ℕ → List Target → BatchResult → Option Error → Map TargetResult → Round
unfolding pending_map note_results note_all_missing note_result note_missing
settle_round max_attempts attempt pending result send_err final_results =
    let pending_by_key = pending_map [] pending in
    note_all_missing max_attempts attempt send_err pending_by_key (
      note_results max_attempts attempt pending_by_key result.results (record {
        retry_by_key = [];
        retry_code_by_key = [];
        accounted = [];
        final_results = final_results;
      }))

-- The targets to retry, in the order of the batch.
unfoldable pub rebuild_pending : Map Target → List Target → List Target
rebuild_pending retry_by_key [] = []
rebuild_pending retry_by_key (target ∷ targets) = elim (lookup (target_key target) retry_by_key) [
  | none ↦ rebuild_pending retry_by_key targets
  | some retry_target ↦ retry_target ∷ rebuild_pending retry_by_key targets
]

-- A missing key of a Go map reads as the zero value.
abbrev pub code_at : Option ErrorCode → ErrorCode
code_at none = no_error
code_at (some code) = code

-- `retryCode`: the loop over the keys of `retryByKey`, up to the first that is rate limited.
unfoldable pub round_retry_code : Map Target → Map ErrorCode → ErrorCode
round_retry_code [] retry_code_by_key = transient
round_retry_code ((key, target) ∷ entries) retry_code_by_key =
    let rest = round_retry_code entries retry_code_by_key in
    if is_rate_limited (code_at (lookup key retry_code_by_key)) then rate_limited else rest

-- The result for a target that is still pending when the wait is cut short.
abbrev pub given_up : Error → Map ErrorCode → Target → TargetResult
given_up e retry_code_by_key target = record {
  target = target;
  message_id = "";
  code = code_at (lookup (target_key target) retry_code_by_key);
  error = some e;
}

-- The loop over `pending` after the wait is cut short.
unfoldable pub give_up : Error → Map ErrorCode → List Target → Map TargetResult → Map TargetResult
give_up e retry_code_by_key [] final_results = final_results
give_up e retry_code_by_key (target ∷ targets) final_results =
    give_up e retry_code_by_key targets
      (insert (target_key target) (given_up e retry_code_by_key target) final_results)

-- `finalResults` and `lastErr` after the loop.
pub record Attempts : Type 0 where
  pub final_results : Map TargetResult
  pub last_err : Option Error

-- How a round ends: nothing to retry, a wait cut short, or another attempt.
abbrev pub after_round {ℓ} : {A : Type ℓ} → Map Target → Option Error → A → (Error → A) → A → A
after_round [] wait_err settled abandoned next = settled
after_round (_ ∷ _) (some e) settled abandoned next = abandoned e
after_round (_ ∷ _) none settled abandoned next = next

-- The loop of `sendBatch` with `left` rounds before `attempt` passes `maxAttempts`.
unfoldable pub attempts :
    {W : Type 0}
    → Dispatcher W
    → Message
    → List Target
    → ℕ
    → ℕ
    → List Target
    → Attempts
    → W
    → Attempts × W
attempts d message targets zero attempt pending a w = (a, w)
attempts d message targets (suc left) attempt [] a w = (a, w)
attempts d message targets (suc left) attempt (first ∷ others) a w =
    let pending = first ∷ others in
    let ((result, send_err), w₁) = d.sender message pending w in
    let round = settle_round d.max_attempts attempt pending result send_err a.final_results in
    let pending' = rebuild_pending round.retry_by_key targets in
    let code = round_retry_code round.retry_by_key round.retry_code_by_key in
    let (delay, w₂) = d.retry_jitter (retry_backoff code attempt) w₁ in
    let (wait_err, w₃) = d.retry_wait delay w₂ in
    let settled : Attempts = record { final_results = round.final_results; last_err = send_err } in
    let abandoned : Error → Attempts = λ e. record {
      final_results = give_up e round.retry_code_by_key pending' round.final_results;
      last_err = some e;
    } in
    let next = attempts d message targets left (suc attempt) pending' settled w₃ in
    after_round round.retry_by_key wait_err (settled, w₁) (λ e. (abandoned e, w₃)) next

-- What the loop over `targets` reads for one target.
unfoldable pub result_for : Attempts → Target → TargetResult
result_for a target = elim (lookup (target_key target) a.final_results) [
  | some r ↦ r
  | none ↦ record { target = target; message_id = ""; code = transient; error = a.last_err }
]

-- `result.Err == nil && result.Code == ErrorNone`.
unfoldable pub is_success : TargetResult → Bool
is_success r = not (is_some r.error) && is_no_error r.code

unfoldable pub is_unresolved_code : ErrorCode → Bool
is_unresolved_code transient = true
is_unresolved_code rate_limited = true
is_unresolved_code unknown = true
is_unresolved_code _ = false

pub record Summary : Type 0 where
  pub combined : BatchResult
  pub unresolved : ℕ

abbrev pub add_result : TargetResult → Summary → Summary
add_result r s =
    let success = is_success r in
    record {
      combined = record {
        results = r ∷ s.combined.results;
        success_count = if success then suc s.combined.success_count else s.combined.success_count;
        failure_count = if success then s.combined.failure_count else suc s.combined.failure_count;
      };
      unresolved =
          if not success && is_unresolved_code r.code then suc s.unresolved else s.unresolved;
    }

-- The last loop of `sendBatch`, which appends a result for each target and counts.
unfoldable pub summarize : Attempts → List Target → Summary
summarize a [] = record {
  combined = record { results = []; success_count = 0; failure_count = 0 };
  unresolved = 0;
}
summarize a (target ∷ targets) = add_result (result_for a target) (summarize a targets)

-- The error of `sendBatch`; the numbers in its text are left out.
unfoldable pub unresolved_error : ℕ → Option Error → Option Error
unresolved_error zero last_err = none
unresolved_error (suc n) none = some (plain "push target(s) remain unresolved")
unresolved_error (suc n) (some e) = some (wrapped "push target(s) remain unresolved" e)

-- `sendBatch`.
unfoldable pub send_batch :
    {W : Type 0} → Dispatcher W → Message → List Target → W → (BatchResult × Option Error) × W
send_batch d message targets w =
    let (a, w') =
      attempts d message targets d.max_attempts 1 targets
        (record { final_results = []; last_err = none }) w in
    let s = summarize a targets in ((s.combined, unresolved_error s.unresolved a.last_err), w')
