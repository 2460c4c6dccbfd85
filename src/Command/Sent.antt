-- ===== src/Command/Sent.antt =====
-- cmd/push-dispatch/main.go, the command `send`: when it succeeds.
use push_dispatch.Base.{
  ◌≡◌, ◌≢◌, inl, inr, refl, String, true, Option, none, some, List, arith, Bool-cases, Option-cases,
}
use push_dispatch.Push.Errors.{Error, Result, ok, err}
use push_dispatch.Push.Types.{Target, Message, BatchResult}
use push_dispatch.Push.Payload.{validate_message}
use push_dispatch.Push.Store.Operations.{unregistered_installation_refs}
use push_dispatch.Scheduler.Schedule.{Environment}
use push_dispatch.Scheduler.Worker.{Services}
use push_dispatch.Scheduler.Tick.{JobStore}
use push_dispatch.Command.{
  Host, path_id, counts, send_status, send_targets, send_found, send_message,
}

none_of_some : (e : Error) → some e ≢ none
none_of_some e h = ground arith

module _ {W : Type 0} (host : Host W) (environment : Environment) (services : Services W)
    (store : JobStore W) where
  -- A send of a valid message to targets that were found, all of whose calls succeed.
  pub record IsSent (recipient : String) (message : Message) (w : W) : Type 0 where
    pub valid_recipient : path_id environment recipient ≡ true
    pub valid_message : validate_message environment.library message ≡ none
    pub targets : List Target
    pub lookup_world : W
    pub looked_up :
        let (t, w₁) = services.now w in
        services.active_targets recipient t w₁ ≡ (ok targets, lookup_world)
    pub no_error : (services.send message targets lookup_world).0.1 ≡ none
    pub no_failure : (services.send message targets lookup_world).0.0.failure_count ≡ 0
    pub cleaned :
        let ((result, sent), w₁) = services.send message targets lookup_world in
        let (t, w₂) = services.now w₁ in
        (services.disable_installations (unregistered_installation_refs result) t w₂).0 ≡ none

  by_printed :
      (printed : Option Error × W) (result : BatchResult) (sent cleaned : Option Error)
      → (send_status host environment services store printed result sent cleaned).0 ≡ none
      → (sent ≡ none) × (result.failure_count ≡ 0) × (cleaned ≡ none)
  by_printed (some e, w) result sent cleaned h = absurd (ground arith)
  by_printed (none, w) result none none h = (refl, ground arith, refl)
  by_printed (none, w) result none (some e) h = absurd (ground arith)
  by_printed (none, w) result (some e) cleaned h = absurd (ground arith)

  by_found :
      (recipient : String) (message : Message) (w : W)
      → path_id environment recipient ≡ true
      → validate_message environment.library message ≡ none
      → (answer : Result (List Target) × W)
      → services.active_targets recipient (services.now w).0 (services.now w).1 ≡ answer
      → (send_found host environment services store message answer).0 ≡ none
      → IsSent recipient message w
  unfolding send_targets
  by_found recipient message w good valid (err e, w') found h = absurd (none_of_some e h)
  by_found recipient message w good valid (ok targets, w') found h =
      let ((result, sent), w₁) = services.send message targets w' in
      let (t, w₂) = services.now w₁ in
      let (cleaned, w₃) =
        services.disable_installations (unregistered_installation_refs result) t w₂ in
      let (no_error, no_failure, clean) =
        by_printed (host.encode (counts result.success_count result.failure_count) w₃) result sent
          cleaned h in
      record {
        valid_recipient = good;
        valid_message = valid;
        targets = targets;
        lookup_world = w';
        looked_up = found;
        no_error = no_error;
        no_failure = no_failure;
        cleaned = clean;
      }

  -- The command `send` ends without an error only if the recipient and the message are valid, the
  -- lookup of the targets, the sending and the disabling of unregistered ones succeed, and no target
  -- fails.
  pub send_message_success :
      (recipient : String) (message : Message) (w : W)
      → (send_message host environment services store recipient message w).0 ≡ none
      → IsSent recipient message w
  unfolding send_message
  send_message_success recipient message w h = elim (Bool-cases (path_id environment recipient)) [
    | inr bad ↦ absurd (none_of_some _ (rw (bad, send_message) at h))
    | inl good ↦ elim (Option-cases (validate_message environment.library message)) [
      | inr (e, invalid) ↦ absurd (none_of_some _ (rw (good, invalid, send_message) at h))
      | inl valid ↦
          by_found recipient message w good valid
            (services.active_targets recipient (services.now w).0 (services.now w).1) refl
            (rw (good, valid, send_message) at h)
    ]
  ]
