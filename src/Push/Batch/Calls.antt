-- ===== src/Push/Batch/Calls.antt =====
-- The provider calls of one `sendBatch`, recorded by a sender that keeps a log.
use mathlib.Core.List.{Sublistᴰ}
use push_dispatch.Base.{
  ap, ◌<◌, ◌≡◌, ◌⊎◌, inl, inr, refl, String, Bool, false, ◌||◌, ◌&&◌, Option, none, some, List, [],
  ◌∷◌, Map, lookup, is_some, has, Distinct, Option-cases, All, length, str_eq, str_eq_iff,
  str_eq_refl, if◌then◌else◌, arith,
}
use push_dispatch.Push.Types.{Target, Message, BatchResult, target_key, target_keys}
use push_dispatch.Push.Retry.{Dispatcher}
use push_dispatch.Push.Batch.{rebuild_pending}
use push_dispatch.Push.Batch.Settling.{result_keys, settled_by}
use push_dispatch.Push.Batch.Rounds.{Owns}

-- The target of a key.
pub find_target : List Target → String → Option Target
find_target [] k = none
find_target (t ∷ ts) k = if str_eq (target_key t) k then some t else find_target ts k

find_target-cons :
    (t : Target) (ts us : List Target)
    → has (target_keys us) (target_key t) ≡ false
    → All (Owns (find_target ts)) us
    → All (Owns (find_target (t ∷ ts))) us
unfolding find_target
find_target-cons t ts [] h a = tt
find_target-cons t ts (u ∷ us) h a = (
  ground
      (arith, str_eq_iff (target_key t) (target_key u), str_eq_iff (target_key u) (target_key t)),
  find_target-cons t ts us (ground arith) a.1,
)

pub find_target-Owns :
    (ts : List Target) → Distinct (target_keys ts) → All (Owns (find_target ts)) ts
unfolding find_target
find_target-Owns [] d = tt
find_target-Owns (t ∷ ts) d =
    (rw (str_eq_refl (target_key t)), find_target-cons t ts ts d.0 (find_target-Owns ts d.1))

-- The targets to retry are targets of the batch, in its order.
module _ (owner : String → Option Target) (retry : Map Target)
    (owned : (k : String) (t : Target) → lookup k retry ≡ some t → owner k ≡ some t) where
  rebuild_pending-cons :
      (t : Target) (ts : List Target)
      → Owns owner t
      → ((rebuild_pending retry (t ∷ ts) ≡ rebuild_pending retry ts)
          × (lookup (target_key t) retry ≡ none))
        ⊎ ((rebuild_pending retry (t ∷ ts) ≡ t ∷ rebuild_pending retry ts)
            × (lookup (target_key t) retry ≡ some t))
  unfolding rebuild_pending
  rebuild_pending-cons t ts o = elim (Option-cases (lookup (target_key t) retry)) [
    | inl h ↦ inl (rw (h, rebuild_pending), h)
    | inr (u, h) ↦
        let same : u ≡ t = ground (arith, owned (target_key t) u h, o) in
        inr (rw (h, rebuild_pending) (rw same), rw same at h)
  ]

  pub rebuild_pending-Sublist :
      (ts : List Target) → All (Owns owner) ts → Sublistᴰ (rebuild_pending retry ts) ts
  unfolding rebuild_pending
  rebuild_pending-Sublist [] a = Sublistᴰ.slnil
  rebuild_pending-Sublist (t ∷ ts) a = elim (rebuild_pending-cons t ts a.0) [
    | inl (e, _) ↦ rw e (Sublistᴰ.cons (rebuild_pending-Sublist ts a.1))
    | inr (e, h) ↦ rw e (Sublistᴰ.cons-cons refl (rebuild_pending-Sublist ts a.1))
  ]

  pub rebuild_pending-lookup :
      (ts : List Target)
      → All (Owns owner) ts
      → All (λ t. lookup (target_key t) retry ≡ some t) (rebuild_pending retry ts)
  unfolding rebuild_pending
  rebuild_pending-lookup [] a = tt
  rebuild_pending-lookup (t ∷ ts) a = elim (rebuild_pending-cons t ts a.0) [
    | inl (e, _) ↦ rw e (rebuild_pending-lookup ts a.1)
    | inr (e, h) ↦ rw e (h, rebuild_pending-lookup ts a.1)
  ]

  pub rebuild_pending-has :
      (ts : List Target) (k : String)
      → All (Owns owner) ts
      → has (target_keys (rebuild_pending retry ts)) k
        ≡ (has (target_keys ts) k && is_some (lookup k retry))
  rebuild_pending-has [] k a = unfold rebuild_pending in refl
  rebuild_pending-has (t ∷ ts) k a = elim (rebuild_pending-cons t ts a.0) [
    | inl (e, h) ↦
        rw e (ground (arith, h, str_eq_iff (target_key t) k, rebuild_pending-has ts k a.1))
    | inr (e, h) ↦
        rw e (ground (arith, h, str_eq_iff (target_key t) k, rebuild_pending-has ts k a.1))
  ]

-- A call: the targets of the request and the provider's answer.
pub record Call : Type 0 where
  pub requested : List Target
  pub answered : BatchResult

-- The dispatcher with a sender that puts each call in front of a log.
unfoldable pub logged : {W : Type 0} → Dispatcher W → Dispatcher (W × List Call)
logged d = record {
  sender = λ message targets s.
      let (r, w) = d.sender message targets s.0 in
      (r, (w, record { requested = targets; answered = r.0 } ∷ s.1));
  concurrency = d.concurrency;
  max_attempts = d.max_attempts;
  retry_wait = λ delay s. let (e, w) = d.retry_wait delay s.0 in (e, (w, s.1));
  retry_jitter = λ base s. let (delay, w) = d.retry_jitter base s.0 in (delay, (w, s.1));
}

-- Some answer of the log settles the key: it is delivered, or it failed for good.
abbrev pub settled_in : List Call → String → Bool
settled_in [] k = false
settled_in (c ∷ earlier) k = settled_by c.answered.results k || settled_in earlier k

-- No call of the log, newest first, requests a target that an earlier answer settles.
abbrev pub NoResend : List Call → Type 0
NoResend [] = Unit
NoResend (c ∷ earlier) =
    All (λ t. settled_in earlier (target_key t) ≡ false) c.requested × NoResend earlier

-- Each call requests at least one target, and targets of the batch in their order.
abbrev pub Requests : List Target → List Call → Type 0
Requests targets = All (λ c. Sublistᴰ c.requested targets × (0 < length c.requested))

-- The provider answers at most once for each target of a request with different keys.
abbrev pub AnswersOnce : {W : Type 0} → Dispatcher W → Type 0
AnswersOnce {W} d =
    (message : Message) (targets : List Target) (w : W)
    → Distinct (target_keys targets)
    → Distinct (result_keys (d.sender message targets w).0.0.results)

Sublistᴰ-has :
    {us ts : List Target} (k : String)
    → Sublistᴰ us ts
    → has (target_keys ts) k ≡ false
    → has (target_keys us) k ≡ false
Sublistᴰ-has k Sublistᴰ.slnil h = refl
Sublistᴰ-has k (Sublistᴰ.cons s) h = Sublistᴰ-has k s (ground arith)
Sublistᴰ-has k (Sublistᴰ.cons-cons e s) h = ground (arith, ap target_key e, Sublistᴰ-has k s)

-- The targets of a request have different keys where those of the batch have.
pub Sublistᴰ-Distinct :
    {us ts : List Target} → Sublistᴰ us ts → Distinct (target_keys ts) → Distinct (target_keys us)
Sublistᴰ-Distinct Sublistᴰ.slnil d = tt
Sublistᴰ-Distinct (Sublistᴰ.cons s) d = Sublistᴰ-Distinct s d.1
Sublistᴰ-Distinct (Sublistᴰ.cons-cons e s) d =
    (Sublistᴰ-has _ s (ground (arith, ap target_key e, d.0)), Sublistᴰ-Distinct s d.1)
