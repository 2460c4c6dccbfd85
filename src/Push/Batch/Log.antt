-- ===== src/Push/Batch/Log.antt =====
-- What the log of the provider calls of one `sendBatch` shows.
use mathlib.Core.List.{Sublistᴰ}
use mathlib.Core.List.Sublistᴰ
use push_dispatch.Base.{
  ℕ, zero, suc, ◌+◌, ◌≤◌, ◌≡◌, refl, String, Bool, true, false, Option, none, some, List, [], ◌∷◌,
  lookup, has, Distinct, All, All-mono, length, str_eq_iff, arith,
}
use push_dispatch.Push.Types.{Target, Message, target_key, target_keys}
use push_dispatch.Push.Retry.{Dispatcher}
use push_dispatch.Push.Batch.{Attempts, attempts, send_batch}
use push_dispatch.Push.Batch.Rounds.{Owns, settle_round-retry, settle_round-unsettled}
use push_dispatch.Push.Batch.Loop.{answer, send_err, sent, round, next_pending, attempts-cases}
use push_dispatch.Push.Batch.Calls.{
  find_target, find_target-Owns, rebuild_pending-Sublist, rebuild_pending-lookup, Call, logged,
  settled_in, NoResend, Requests, AnswersOnce, Sublistᴰ-Distinct,
}

-- The log of calls after the loop, of at most `bound` calls.
record LogIsSound (targets : List Target) (bound : ℕ) (log : List Call) : Type 0 where
  no_resend : NoResend log
  requests : Requests targets log
  few : length log ≤ bound

-- What holds of the targets of a list holds of its keys.
All-keys :
    (f : String → Bool) (ts : List Target) (k : String)
    → All (λ t. f (target_key t) ≡ false) ts
    → has (target_keys ts) k ≡ true
    → f k ≡ false
All-keys f [] k a h = absurd (ground arith)
All-keys f (t ∷ ts) k a h = ground (arith, str_eq_iff (target_key t) k, All-keys f ts k a.1)

nothing_settled : (ts : List Target) → All (λ t. settled_in [] (target_key t) ≡ false) ts
nothing_settled [] = tt
nothing_settled (t ∷ ts) = (refl, nothing_settled ts)

module _ {W : Type 0} (d : Dispatcher W) (message : Message) (targets : List Target)
    (owner : String → Option Target) (owns : All (Owns owner) targets) (once : AnswersOnce d)
    (distinct : Distinct (target_keys targets)) where
  abbrev Unsettled : List Call → Target → Type 0
  Unsettled log t = settled_in log (target_key t) ≡ false

  -- The targets of the next attempt are not settled by the answer, nor by an earlier one.
  next_pending-Unsettled :
      (attempt : ℕ) (pending : List Target) (a : Attempts) (s : W × List Call)
      → Sublistᴰ pending targets
      → All (Owns owner) pending
      → All (Unsettled s.1) pending
      → let next = next_pending (logged d) message targets attempt pending a s in
        All (Owns owner) next
        × All (Unsettled (sent (logged d) message targets attempt pending a s).1) next
        × Sublistᴰ next targets
  unfolding logged
  next_pending-Unsettled attempt pending a s sub o u =
      let retry = (round (logged d) message targets attempt pending a s).retry_by_key in
      let reply = answer (logged d) message targets attempt pending a s in
      let failed = send_err (logged d) message targets attempt pending a s in
      let owned : (k : String) (t : Target) → lookup k retry ≡ some t → owner k ≡ some t = λ k t h.
        (settle_round-retry owner d.max_attempts attempt pending reply failed a.final_results o k t
          h).0 in
      let looked = rebuild_pending-lookup owner retry owned targets owns in
      (
        All-mono _ (Owns owner) (λ t h. owned (target_key t) t h) _ looked,
        All-mono _ _
            (λ t h.
              let was_pending =
                (settle_round-retry owner d.max_attempts attempt pending reply failed
                  a.final_results o (target_key t) t h).1 in
              let unsettled =
                settle_round-unsettled owner d.max_attempts attempt pending reply failed
                  a.final_results o (target_key t) t
                  (once message pending s.0 (Sublistᴰ-Distinct sub distinct)) h in
              rw (unsettled, All-keys (settled_in s.1) pending (target_key t) u was_pending))
            _ looked,
        rebuild_pending-Sublist owner retry owned targets owns,
      )

  weaken :
      (bound more : ℕ) (log : List Call)
      → LogIsSound targets bound log
      → LogIsSound targets (bound + more) log
  weaken bound more log v = record {
    no_resend = v.no_resend;
    requests = v.requests;
    few = omega arith;
  }

  -- The log with the call of one attempt.
  with_call :
      (attempt bound : ℕ) (first : Target) (others : List Target) (a : Attempts) (s : W × List Call)
      → LogIsSound targets bound s.1
      → All (Unsettled s.1) (first ∷ others)
      → Sublistᴰ (first ∷ others) targets
      → LogIsSound targets
          (suc bound)
          (sent (logged d) message targets attempt (first ∷ others) a s).1
  unfolding logged
  with_call attempt bound first others a s v u sub = record {
    no_resend = (u, v.no_resend);
    requests = ((sub, omega arith), v.requests);
    few = omega arith;
  }

  log_after :
      (left attempt bound : ℕ) (pending : List Target) (a : Attempts) (s : W × List Call)
      → LogIsSound targets bound s.1
      → All (Owns owner) pending
      → All (Unsettled s.1) pending
      → Sublistᴰ pending targets
      → LogIsSound targets
          (bound + left)
          (attempts (logged d) message targets left attempt pending a s).1.1
  unfolding attempts logged
  log_after zero attempt bound pending a s v o u sub = weaken bound 0 s.1 v
  log_after (suc left) attempt bound [] a s v o u sub = weaken bound (suc left) s.1 v
  log_after (suc left) attempt bound (first ∷ others) a s v o u sub =
      let called = with_call attempt bound first others a s v u sub in
      let (o', u', sub') = next_pending-Unsettled attempt (first ∷ others) a s sub o u in
      let same : suc bound + left ≡ bound + suc left = omega arith in
      rw (← same) (
        attempts-cases (logged d) message targets (λ r. LogIsSound targets (suc bound + left) r.1.1)
          left attempt first others a s (λ _. weaken (suc bound) left _ called)
          (λ e. weaken (suc bound) left _ called)
          (log_after left (suc attempt) (suc bound) _ _ _ called o' u' sub'))

-- For a batch of targets with different keys, and a provider that answers at most once for each
-- target of a request with different keys: the provider is called at most `maxAttempts` times, each time for at least one
-- target of the batch, in the order of the batch, and no call requests a target for which an
-- earlier answer was a success or a failure that is not retried.
pub send_batch-NoResend :
    {W : Type 0} (d : Dispatcher W) (message : Message) (targets : List Target) (w : W)
    → AnswersOnce d
    → Distinct (target_keys targets)
    → let log = (send_batch (logged d) message targets (w, [])).1.1 in
      NoResend log × Requests targets log × (length log ≤ d.max_attempts)
unfolding send_batch logged
send_batch-NoResend d message targets w once distinct =
    let v =
      log_after d message targets (find_target targets) (find_target-Owns targets distinct) once
        distinct d.max_attempts 1 0 targets (record { final_results = []; last_err = none }) (w, [])
        (record { no_resend = tt; requests = tt; few = omega arith })
        (find_target-Owns targets distinct) (nothing_settled targets) (Sublistᴰ.refl targets) in
    (v.no_resend, v.requests, omega (arith, v.few))
