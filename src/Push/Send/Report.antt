-- ===== src/Push/Send/Report.antt =====
-- What `Send` reports.
use mathlib.Core.List.{flatten, map-append}
use mathlib.Core.Path.{ap₂}
use push_dispatch.Base.{
  ℕ, suc, ◌+◌, ◌<◌, ◌≡◌, refl, sym, ap, subst, ◌∙◌, ◌++◌, String, ◌||◌, Option, none, some, List,
  [], ◌∷◌, length, length-append, map, All, has, Distinct, is_some, arith,
}
use push_dispatch.Push.Errors.{Error, Errors, ok}
use push_dispatch.Push.Types.{
  Target, TargetResult, Message, BatchResult, target_key, target_keys, max_batch_targets,
}
use push_dispatch.Push.Targets.{deduplicate_targets, chunk_targets}
use push_dispatch.Push.Targets.Unique.{deduplicate_targets_unique, deduplicate_targets-IsValid}
use push_dispatch.Push.Targets.Chunks.{flatten-chunk_targets}
use push_dispatch.Push.Retry.{Dispatcher}
use push_dispatch.Push.Batch.{send_batch}
use push_dispatch.Push.Batch.Report.{send_batch-report, successes, any_unresolved}
use push_dispatch.Push.Send.{
  Outcome, run_jobs, add_error, blank_outcomes, combine, join_errors, send,
}
use push_dispatch.Push.Send.Order.{IsArrivalOf, IndexedFrom, collect-IsArrivalOf}

pub has-append : (xs ys : List String) (k : String) → has (xs ++ ys) k ≡ (has xs k || has ys k)
has-append [] ys k = refl
has-append (x ∷ xs) ys k = ground (arith, has-append xs ys k)

pub target_keys-append :
    (ts us : List Target) → target_keys (ts ++ us) ≡ target_keys ts ++ target_keys us
target_keys-append [] us = refl
target_keys-append (t ∷ ts) us = ap (λ l. target_key t ∷ l) (target_keys-append ts us)

Distinct-append : (xs ys : List String) → Distinct (xs ++ ys) → Distinct xs × Distinct ys
Distinct-append [] ys d = (tt, d)
Distinct-append (x ∷ xs) ys d = ground (arith, has-append xs ys x, Distinct-append xs ys d.1)

Distinct-flatten :
    (batches : List (List Target))
    → Distinct (target_keys (flatten batches))
    → All (λ b. Distinct (target_keys b)) batches
unfolding flatten
Distinct-flatten [] d = tt
Distinct-flatten (b ∷ batches) d =
    let parts =
      Distinct-append (target_keys b) (target_keys (flatten batches))
        (rw (← target_keys-append b (flatten batches)) d) in
    (parts.0, Distinct-flatten batches parts.1)

run_jobs-IndexedFrom :
    {W : Type 0} (d : Dispatcher W) (message : Message) (worlds : ℕ → W) (n : ℕ)
    (batches : List (List Target))
    → IndexedFrom n (run_jobs d message worlds n batches)
unfolding run_jobs
run_jobs-IndexedFrom d message worlds n [] = tt
run_jobs-IndexedFrom d message worlds n (b ∷ batches) =
    (refl, run_jobs-IndexedFrom d message worlds (n + 1) batches)

length-run_jobs :
    {W : Type 0} (d : Dispatcher W) (message : Message) (worlds : ℕ → W) (n : ℕ)
    (batches : List (List Target))
    → length (blank_outcomes batches) ≡ length (run_jobs d message worlds n batches)
unfolding run_jobs blank_outcomes
length-run_jobs d message worlds n [] = refl
length-run_jobs d message worlds n (b ∷ batches) =
    ap suc (length-run_jobs d message worlds (n + 1) batches)

successes-append : (rs ss : List TargetResult) → successes (rs ++ ss) ≡ successes rs + successes ss
successes-append [] ss = omega arith
successes-append (r ∷ rs) ss = ground (arith, successes-append rs ss)

any_unresolved-append :
    (rs ss : List TargetResult)
    → any_unresolved (rs ++ ss) ≡ (any_unresolved rs || any_unresolved ss)
any_unresolved-append [] ss = refl
any_unresolved-append (r ∷ rs) ss = ground (arith, any_unresolved-append rs ss)

-- The report for the targets of all batches.
abbrev Reports : List Target → BatchResult → Option Error → Type 0
Reports targets result error =
    (map (λ x. x.target) result.results ≡ targets)
    × (result.success_count ≡ successes result.results)
    × (result.success_count + result.failure_count ≡ length targets)
    × (is_some error ≡ any_unresolved result.results)

is_some-join_errors :
    (e : Option Error) (es : Errors)
    → is_some (join_errors (add_error e es)) ≡ (is_some e || is_some (join_errors es))
unfolding join_errors
is_some-join_errors none es = refl
is_some-join_errors (some e) es = refl

combine-Reports :
    {W : Type 0} (d : Dispatcher W) (message : Message) (worlds : ℕ → W) (n : ℕ)
    (batches : List (List Target))
    → 0 < d.max_attempts
    → All (λ b. Distinct (target_keys b)) batches
    → let c = combine (run_jobs d message worlds n batches) in
      Reports (flatten batches) c.result (join_errors c.errors)
unfolding run_jobs combine flatten
combine-Reports d message worlds n [] p a = (refl, refl, refl, unfold join_errors in refl)
combine-Reports d message worlds n (b ∷ batches) p a =
    let sent = send_batch d message b (worlds n) in
    let rest = combine (run_jobs d message worlds (n + 1) batches) in
    let one = send_batch-report d message b (worlds n) a.0 p in
    let more = combine-Reports d message worlds (n + 1) batches p a.1 in
    (
      map-append (λ (x : TargetResult). x.target) sent.0.0.results rest.result.results
          ∙ ap₂ ◌++◌ one.0 more.0,
      omega (arith, one.1, more.1, successes-append sent.0.0.results rest.result.results),
      omega (arith, one.2, more.2, length-append b (flatten batches)),
      is_some-join_errors sent.0.1 rest.errors
          ∙ ap₂ ◌||◌ one.3 more.3
          ∙ sym (any_unresolved-append sent.0.0.results rest.result.results),
    )

-- What `Send` computes from the targets that are left after deduplication.
send-combine :
    {W : Type 0} (d : Dispatcher W) (message : Message) (targets : List Target) (worlds : ℕ → W)
    (arrive : List Outcome → List Outcome) (us : List Target)
    → deduplicate_targets targets ≡ ok us
    → let sent = run_jobs d message worlds 0 (chunk_targets us max_batch_targets) in
      IsArrivalOf sent (arrive sent)
      → let c = combine sent in
        send d message targets worlds arrive ≡ (c.result, join_errors c.errors)
unfolding send
send-combine d message targets worlds arrive [] e v =
    rw (e, send) (unfold chunk_targets run_jobs combine join_errors in refl)
send-combine d message targets worlds arrive (first ∷ others) e v =
    let batches = chunk_targets (first ∷ others) max_batch_targets in
    let sent = run_jobs d message worlds 0 batches in
    let ordered =
      collect-IsArrivalOf sent (blank_outcomes batches) (arrive sent)
        (run_jobs-IndexedFrom d message worlds 0 batches)
        (length-run_jobs d message worlds 0 batches) v in
    rw (e, send) (rw ordered)

-- Where the targets are all valid and at least one attempt is made, in whatever order the
-- goroutines deliver the outcomes: `Send` reports one result for each different target, in the order
-- of their first appearance; its counts are the number of successes and of all others; and it
-- returns an error exactly when some result is transient, rate limited or unknown.
pub send-report :
    {W : Type 0} (d : Dispatcher W) (message : Message) (targets : List Target) (worlds : ℕ → W)
    (arrive : List Outcome → List Outcome) (us : List Target)
    → 0 < d.max_attempts
    → deduplicate_targets targets ≡ ok us
    → IsArrivalOf
        (run_jobs d message worlds 0 (chunk_targets us max_batch_targets))
        (arrive (run_jobs d message worlds 0 (chunk_targets us max_batch_targets)))
    → let r = send d message targets worlds arrive in
      (map (λ x. x.target) r.0.results ≡ us)
      × (r.0.success_count ≡ successes r.0.results)
      × (r.0.success_count + r.0.failure_count ≡ length us)
      × (is_some r.1 ≡ any_unresolved r.0.results)
send-report d message targets worlds arrive us p e v =
    let (kept, e', distinct, _, _) =
      deduplicate_targets_unique targets (deduplicate_targets-IsValid targets e) in
    let same : kept ≡ us = ground (arith, e, e') in
    let chunks = flatten-chunk_targets us max_batch_targets (omega arith) in
    let batches = chunk_targets us max_batch_targets in
    let each =
      Distinct-flatten batches
        (rw chunks.0 (subst (λ l. Distinct (target_keys l)) same distinct)) in
    let c = combine (run_jobs d message worlds 0 batches) in
    let reported = combine-Reports d message worlds 0 batches p each in
    rw (send-combine d message targets worlds arrive us e v)
      (subst (λ l. Reports l c.result (join_errors c.errors)) chunks.0 reported)
