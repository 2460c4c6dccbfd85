-- ===== src/Push/Send.antt =====
-- push/dispatcher.go, `Send`: the batches of one send, run by several goroutines.
-- `worlds i` is the world in which the batch `i` is sent: what a batch meets depends on how the
-- goroutines interleave, so the theorems hold for all of them. `arrive` is the order in which the
-- outcomes come through the channel.
pub mod Order
pub mod Report
use push_dispatch.Base.{
  ℕ, zero, suc, ◌+◌, ◌++◌, Bool, Option, none, some, List, [], ◌∷◌, length, if◌then◌else◌,
}
use push_dispatch.Push.Errors.{Error, Errors, nil, cons, joined, Result, ok, err}
use push_dispatch.Push.Types.{Target, TargetResult, Message, BatchResult, max_batch_targets}
use push_dispatch.Push.Targets.{deduplicate_targets, chunk_targets}
use push_dispatch.Push.Retry.{Dispatcher}
use push_dispatch.Push.Batch.{send_batch}

-- `batchOutcome`.
pub record Outcome : Type 0 where
  pub index : ℕ
  pub result : BatchResult
  pub error : Option Error

abbrev pub empty_result : BatchResult
empty_result = record { results = []; success_count = 0; failure_count = 0 }

-- What the goroutines send for the jobs, each with its place among the batches.
unfoldable pub run_jobs :
    {W : Type 0} → Dispatcher W → Message → (ℕ → W) → ℕ → List (List Target) → List Outcome
run_jobs d message worlds index [] = []
run_jobs d message worlds index (batch ∷ batches) =
    let ((result, error), w) = send_batch d message batch (worlds index) in
    record { index = index; result = result; error = error }
    ∷ run_jobs d message worlds (index + 1) batches

-- `make([]batchOutcome, n)`.
abbrev pub blank_outcome : Outcome
blank_outcome = record { index = 0; result = empty_result; error = none }

unfoldable pub blank_outcomes : List (List Target) → List Outcome
blank_outcomes [] = []
blank_outcomes (_ ∷ batches) = blank_outcome ∷ blank_outcomes batches

-- `ordered[i] = outcome`.
unfoldable pub put_outcome : List Outcome → ℕ → Outcome → List Outcome
put_outcome [] i outcome = []
put_outcome (o ∷ os) zero outcome = outcome ∷ os
put_outcome (o ∷ os) (suc i) outcome = o ∷ put_outcome os i outcome

-- The loop that receives the outcomes.
unfoldable pub collect : List Outcome → List Outcome → List Outcome
unfolding put_outcome
collect ordered [] = ordered
collect ordered (outcome ∷ arrivals) = collect (put_outcome ordered outcome.index outcome) arrivals

-- `combined` and `sendErrors`.
pub record Combined : Type 0 where
  pub result : BatchResult
  pub errors : Errors

abbrev pub add_error : Option Error → Errors → Errors
add_error none es = es
add_error (some e) es = cons e es

-- The loop over `ordered`.
unfoldable pub combine : List Outcome → Combined
combine [] = record { result = empty_result; errors = nil }
combine (outcome ∷ outcomes) =
    let rest = combine outcomes in
    record {
      result = record {
        results = outcome.result.results ++ rest.result.results;
        success_count = outcome.result.success_count + rest.result.success_count;
        failure_count = outcome.result.failure_count + rest.result.failure_count;
      };
      errors = add_error outcome.error rest.errors;
    }

-- `errors.Join`.
unfoldable pub join_errors : Errors → Option Error
join_errors nil = none
join_errors (cons e es) = some (joined (cons e es))

-- `Send`.
unfoldable pub send :
    {W : Type 0}
    → Dispatcher W
    → Message
    → List Target
    → (ℕ → W)
    → (List Outcome → List Outcome)
    → BatchResult × Option Error
send d message targets worlds arrive = elim (deduplicate_targets targets) [
  | err e ↦ (empty_result, some e)
  | ok [] ↦ (empty_result, none)
  | ok (first ∷ others) ↦
      let batches = chunk_targets (first ∷ others) max_batch_targets in
      let arrivals = arrive (run_jobs d message worlds 0 batches) in
      let combined = combine (collect (blank_outcomes batches) arrivals) in
      (combined.result, join_errors combined.errors)
]
