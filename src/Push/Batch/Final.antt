-- ===== src/Push/Batch/Final.antt =====
-- What `sendBatch` returns: one result for each target, in the order of the batch.
use push_dispatch.Base.{
  ℕ, zero, suc, ◌+◌, ◌≡◌, inl, inr, refl, String, true, ◌&&◌, ◌||◌, Option, some, List, [], ◌∷◌,
  Map, lookup, lookup-insert, insert, is_some, has, Option-cases, All, All-mono, ltb, str_eq_iff,
  arith,
}
use push_dispatch.Push.Errors.{Error, ErrorCode}
use push_dispatch.Push.Types.{Target, TargetResult, Message, target_key, target_keys}
use push_dispatch.Push.Retry.{Dispatcher}
use push_dispatch.Push.Batch.{Round, give_up, given_up, Attempts, attempts}
use push_dispatch.Push.Batch.Rounds.{
  Owns, settle_round-retry, settle_round-final, settle_round-recorded,
}
use push_dispatch.Push.Batch.Loop.{answer, send_err, round, next_pending, abandoned, attempts-cases}
use push_dispatch.Push.Batch.Calls.{rebuild_pending-lookup, rebuild_pending-has}

-- The results in a map are those of their keys' targets.
abbrev pub OwnsResults : (String → Option Target) → Map TargetResult → Type 0
OwnsResults owner final =
    (k : String) (x : TargetResult) → lookup k final ≡ some x → owner k ≡ some x.target

give_up-has :
    (e : Error) (m : Map ErrorCode) (ts : List Target) (final : Map TargetResult) (k : String)
    → is_some (lookup k (give_up e m ts final))
      ≡ (has (target_keys ts) k || is_some (lookup k final))
unfolding give_up
give_up-has e m [] final k = refl
give_up-has e m (t ∷ ts) final k = ground (
  arith,
  str_eq_iff (target_key t) k,
  give_up-has e m ts (insert (target_key t) (given_up e m t) final) k,
  lookup-insert (target_key t) k (given_up e m t) final,
)

give_up-owns :
    (owner : String → Option Target) (e : Error) (m : Map ErrorCode) (ts : List Target)
    (final : Map TargetResult)
    → All (Owns owner) ts
    → OwnsResults owner final
    → OwnsResults owner (give_up e m ts final)
unfolding give_up
give_up-owns owner e m [] final a h = h
give_up-owns owner e m (t ∷ ts) final a h =
    give_up-owns owner e m ts (insert (target_key t) (given_up e m t) final) a.1 (λ k x l. ground (
      arith,
      a.0,
      h k x,
      str_eq_iff (target_key t) k,
      lookup-insert (target_key t) k (given_up e m t) final,
      l,
    ))

module _ {W : Type 0} (d : Dispatcher W) (message : Message) (targets : List Target)
    (owner : String → Option Target) (owns : All (Owns owner) targets) where
  -- Each target of the batch has a final result, or is pending with a round left.
  abbrev pub Covers : ℕ → List Target → Map TargetResult → Type 0
  Covers left pending final =
      (k : String)
      → has (target_keys targets) k ≡ true
      → (is_some (lookup k final) || (has (target_keys pending) k && ltb 0 left)) ≡ true

  pub record IsOpen (left : ℕ) (pending : List Target) (final : Map TargetResult) : Type 0 where
    pub pending_owned : All (Owns owner) pending
    pub results_owned : OwnsResults owner final
    pub covered : Covers left pending final

  pub record IsClosed (final : Map TargetResult) : Type 0 where
    pub results_owned : OwnsResults owner final
    pub complete :
        (k : String) → has (target_keys targets) k ≡ true → is_some (lookup k final) ≡ true

  module _ (left attempt : ℕ) (first : Target) (others : List Target) (a : Attempts) (w : W)
      (v : IsOpen (suc left) (first ∷ others) a.final_results) where
    abbrev pending : List Target
    pending = first ∷ others

    abbrev this : Round
    this = round d message targets attempt pending a w

    owned : (k : String) (t : Target) → lookup k this.retry_by_key ≡ some t → owner k ≡ some t
    owned k t h =
        (settle_round-retry owner d.max_attempts attempt pending
          (answer d message targets attempt pending a w)
          (send_err d message targets attempt pending a w) a.final_results v.pending_owned k t h).0

    this-owned : OwnsResults owner this.final_results
    this-owned k x h = ground (
      arith,
      v.results_owned k x,
      settle_round-final owner d.max_attempts attempt pending
          (answer d message targets attempt pending a w)
          (send_err d message targets attempt pending a w) a.final_results v.pending_owned k x h,
    )

    this-recorded :
        (k : String)
        → has (target_keys targets) k ≡ true
        → (is_some (lookup k this.final_results) || is_some (lookup k this.retry_by_key)) ≡ true
    this-recorded k h =
        settle_round-recorded owner d.max_attempts attempt pending
          (answer d message targets attempt pending a w)
          (send_err d message targets attempt pending a w) a.final_results v.pending_owned k
          (ground (arith, v.covered k h))

    settled-IsClosed : this.retry_by_key ≡ [] → IsClosed this.final_results
    unfolding lookup
    settled-IsClosed e = record {
      results_owned = this-owned;
      complete = λ k h. ground (arith, e, this-recorded k h);
    }

    abandoned-IsClosed :
        (e : Error) → IsClosed (abandoned d message targets attempt pending a w e).final_results
    abandoned-IsClosed e = record {
      results_owned =
          give_up-owns owner e this.retry_code_by_key next this.final_results next-owned this-owned;
      complete = λ k h. ground (
        arith,
        h,
        this-recorded k h,
        rebuild_pending-has owner this.retry_by_key owned targets k owns,
        give_up-has e this.retry_code_by_key next this.final_results k,
      );
    }
      where
        next : List Target
        next = next_pending d message targets attempt pending a w

        next-owned : All (Owns owner) next
        next-owned =
            All-mono _ (Owns owner) (λ t h. owned (target_key t) t h) _
              (rebuild_pending-lookup owner this.retry_by_key owned targets owns)

    next-IsOpen :
        attempt + suc left ≡ suc d.max_attempts
        → IsOpen left (next_pending d message targets attempt pending a w) this.final_results
    next-IsOpen e = record {
      pending_owned =
          All-mono _ (Owns owner) (λ t h. owned (target_key t) t h) _
            (rebuild_pending-lookup owner this.retry_by_key owned targets owns);
      results_owned = this-owned;
      covered = next-covers;
    }
      where
        next-covers :
            (k : String)
            → has (target_keys targets) k ≡ true
            → (is_some (lookup k this.final_results)
                || (has (target_keys (next_pending d message targets attempt pending a w)) k
                    && ltb 0 left))
              ≡ true
        next-covers k h = elim (Option-cases (lookup k this.retry_by_key)) [
          | inl none_left ↦ ground (arith, this-recorded k h)
          | inr (t, retried) ↦ ground (
            arith,
            h,
            rebuild_pending-has owner this.retry_by_key owned targets k owns,
            settle_round-retry owner d.max_attempts attempt pending
                (answer d message targets attempt pending a w)
                (send_err d message targets attempt pending a w) a.final_results v.pending_owned k t
                retried,
          )
        ]

  -- The loop ends with a result for each target.
  pub attempts-IsClosed :
      (left attempt : ℕ) (pending : List Target) (a : Attempts) (w : W)
      → attempt + left ≡ suc d.max_attempts
      → IsOpen left pending a.final_results
      → IsClosed (attempts d message targets left attempt pending a w).0.final_results
  unfolding attempts
  attempts-IsClosed zero attempt pending a w e v = record {
    results_owned = v.results_owned;
    complete = λ k h. ground (arith, v.covered k h);
  }
  attempts-IsClosed (suc left) attempt [] a w e v = record {
    results_owned = v.results_owned;
    complete = λ k h. ground (arith, v.covered k h);
  }
  attempts-IsClosed (suc left) attempt (first ∷ others) a w e v =
      attempts-cases d message targets (λ r. IsClosed r.0.final_results) left attempt first others a
        w (settled-IsClosed left attempt first others a w v)
        (abandoned-IsClosed left attempt first others a w v)
        (attempts-IsClosed left (suc attempt) _ _ _ (omega arith)
          (next-IsOpen left attempt first others a w v e))
