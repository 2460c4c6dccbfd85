-- ===== src/Push/Batch/Loop.antt =====
-- One attempt of `sendBatch`: the parts of a round by name, and the three ways in which it ends.
use push_dispatch.Base.{ℕ, suc, ◌≡◌, refl, Option, none, some, List, [], ◌∷◌, Map}
use push_dispatch.Push.Errors.{Error}
use push_dispatch.Push.Types.{Target, Message, BatchResult}
use push_dispatch.Push.Retry.{Dispatcher, retry_backoff}
use push_dispatch.Push.Batch.{
  Round, settle_round, rebuild_pending, round_retry_code, give_up, Attempts, attempts, after_round,
}

module _ {W : Type 0} (d : Dispatcher W) (message : Message) (targets : List Target) where
  module _ (attempt : ℕ) (pending : List Target) (a : Attempts) (w : W) where
    abbrev pub answer : BatchResult
    answer = (d.sender message pending w).0.0

    abbrev pub send_err : Option Error
    send_err = (d.sender message pending w).0.1

    abbrev pub sent : W
    sent = (d.sender message pending w).1

    abbrev pub round : Round
    round = settle_round d.max_attempts attempt pending answer send_err a.final_results

    abbrev pub next_pending : List Target
    next_pending = rebuild_pending round.retry_by_key targets

    abbrev pub delayed : ℕ × W
    delayed =
        d.retry_jitter
          (retry_backoff (round_retry_code round.retry_by_key round.retry_code_by_key) attempt) sent

    abbrev pub waited : Option Error × W
    waited = d.retry_wait delayed.0 delayed.1

    abbrev pub settled : Attempts
    settled = record { final_results = round.final_results; last_err = send_err }

    abbrev pub abandoned : Error → Attempts
    abandoned e = record {
      final_results = give_up e round.retry_code_by_key next_pending round.final_results;
      last_err = some e;
    }

  after_round-cases {ℓ} :
      {B : Type 0} (P : B → Type ℓ) (m : Map Target) (o : Option Error) (x : B) (y : Error → B)
      (z : B)
      → (m ≡ [] → P x)
      → ((e : Error) → P (y e))
      → P z
      → P (after_round m o x y z)
  after_round-cases P [] o x y z p q r = p refl
  after_round-cases P (_ ∷ _) (some e) x y z p q r = q e
  after_round-cases P (_ ∷ _) none x y z p q r = r

  -- An attempt with targets pending ends settled, abandoned in the wait, or goes on.
  pub attempts-cases {ℓ} :
      (P : Attempts × W → Type ℓ) (left attempt : ℕ) (first : Target) (others : List Target)
      (a : Attempts) (w : W)
      → let pending = first ∷ others in
        ((round attempt pending a w).retry_by_key ≡ []
          → P (settled attempt pending a w, sent attempt pending a w))
        → ((e : Error) → P (abandoned attempt pending a w e, (waited attempt pending a w).1))
        → P (
            attempts d message targets left
              (suc attempt)
              (next_pending attempt pending a w)
              (settled attempt pending a w)
              (waited attempt pending a w).1)
        → P (attempts d message targets (suc left) attempt pending a w)
  unfolding attempts
  attempts-cases P left attempt first others a w =
      after_round-cases P (round attempt (first ∷ others) a w).retry_by_key
        (waited attempt (first ∷ others) a w).0 _ _ _
