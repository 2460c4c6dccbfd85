-- ===== src/Push/Store/Refined/Calls.antt =====
-- push/store/store.go: each call of a method is a step of the contract.
use push_dispatch.Base.{
  ◌≡◌, inl, inr, refl, subst, sym, ◌∙◌, String, true, false, not, List, [], ◌∷◌, Map, All, Time,
  is_zero_time, str_eq, Bool-cases,
}
use push_dispatch.Push.Errors.{Ensures}
use push_dispatch.Push.Installation.{Installation, InstallationRef}
use push_dispatch.Push.Store.Documents.{Snapshot, Config, Callback, Database}
use push_dispatch.Push.Store.Callbacks.{upsert_body, disable_body, mark_body}
use push_dispatch.Push.Store.Operations.{
  upsert, heartbeat, disable_one, disable, mark_delivered, active_targets, newest_active_target,
  for_users, by_user, with_updated_at, with_created_at, is_invalid_marker,
}
use push_dispatch.Push.Store.Laws.{IsFirestore, Same, apply_writes}
use push_dispatch.Push.Store.Ownership.{holds, IsOwned, Less, Shrinks, Shrinks-Keeps, Same-IsOwned}
use push_dispatch.Push.Store.Ownership.Updates.{disable_body-Shrinks, mark_body-Shrinks}
use push_dispatch.Push.Store.Ownership.Beats.{heartbeat_body-Shrinks}
use push_dispatch.Push.Store.Ownership.Moves.{IsRegistration, upsert_body-IsRegistration}
use push_dispatch.Push.Store.Ownership.Runs.{
  Call, upsert_call, heartbeat_call, disable_one_call, disable_call, mark_call, targets_call,
  newest_call, IsNamed, run_call, run_calls, run_call-IsOwned, transact-IsOwned,
}
use push_dispatch.Push.Store.Stamped.{stamped-address}
use push_dispatch.Push.Store.Removed.{IsRetired, disable_body-IsRetired}
use push_dispatch.Push.Store.Refined.{
  Fewer, Allows, AllowsAll, IsGrant, Same-Unchanged, registration-IsGrant, removal-Lost,
  Same-IsGrant, Unchanged-IsGrant,
}

module _ {W : Type 0} (database : Database W) (config : Config) (stored : W → Snapshot)
    (laws : IsFirestore database stored) where
  Shrinks-Fewer :
      (f : Callback) (w : W)
      → Shrinks f
      → IsOwned (stored w)
      → Fewer (holds (stored w)) (holds (stored (database.transact f w).1))
  Shrinks-Fewer f w shrinks o u j h = elim (laws.transact_effect f w) [
    | inl same ↦ sym (Same-Unchanged _ _ same u j) ∙ h
    | inr c ↦
        let both =
          subst
            (Ensures (λ ws.
              IsOwned (apply_writes ws (stored w)) × Less (stored w) (apply_writes ws (stored w))))
            c.are_writes (shrinks c.reads (stored w) o c.are_reads) in
        both.1 u j (sym (Same-Unchanged _ _ c.made u j) ∙ h)
  ]

  for_users-Fewer :
      (body : String → List String → Callback) (users : Map (List String)) (w : W)
      → ((uid : String) (ids : List String) → Shrinks (body uid ids))
      → IsOwned (stored w)
      → Fewer (holds (stored w)) (holds (stored (for_users database config body users w).1))
  unfolding for_users
  for_users-Fewer body [] w shrinks o u j h = h
  for_users-Fewer body ((uid, ids) ∷ users) w shrinks o u j h =
      let o' =
        transact-IsOwned database config stored laws (body uid ids) w
          (Shrinks-Keeps (body uid ids) (shrinks uid ids)) o in
      Shrinks-Fewer (body uid ids) w (shrinks uid ids) o u j
        (for_users-Fewer body users _ shrinks o' u j h)

  mark_delivered-Fewer :
      (refs : List InstallationRef) (key value : String) (w : W)
      → IsOwned (stored w)
      → Fewer
          (holds (stored w))
          (holds (stored (mark_delivered database config refs key value w).1))
  unfolding mark_delivered
  mark_delivered-Fewer refs key value w o =
      elim (Bool-cases (is_invalid_marker database config key value)) [
        | inl invalid ↦ rw invalid (λ u j h. h)
        | inr valid ↦ rw valid (
            for_users-Fewer (λ uid ids. mark_body uid ids key value) (by_user refs []) w
              (λ uid ids. mark_body-Shrinks uid ids key value) o)
      ]

  disable_one-Lost :
      (uid id : String) (t : Time) (w : W)
      → Allows
          (disable_one_call uid id t)
          (holds (stored w))
          (holds (stored (disable_one database config uid id t w).1))
  unfolding disable_one
  disable_one-Lost uid id t w = elim (laws.transact_effect (disable_body uid (id ∷ []) t true) w) [
    | inl same ↦ inl (Same-Unchanged _ _ same)
    | inr c ↦
        let r =
          subst (Ensures (λ ws. IsRetired (stored w) (apply_writes ws (stored w)) uid id t))
            c.are_writes (disable_body-IsRetired c.reads (stored w) uid id t c.are_reads) in
        inr (λ u j. Same-Unchanged _ _ c.made u j ∙ removal-Lost (stored w) _ uid id t r u j)
  ]

  with_updated_at-Same :
      (i : Installation) (w : W) → Same (stored (with_updated_at database config i w).1) (stored w)
  with_updated_at-Same i w = elim (Bool-cases (is_zero_time i.updated_at)) [
    | inl zero ↦ rw zero (laws.now_effect w)
    | inr set ↦ rw set (record { users = λ u. refl; owners = λ j. refl })
  ]

  upsert-Allows :
      (uid id : String) (i : Installation) (w : W)
      → str_eq uid "" ≡ false
      → IsOwned (stored w)
      → Allows
          (upsert_call uid id i)
          (holds (stored w))
          (holds (stored (upsert database config uid id i w).1))
  unfolding upsert
  upsert-Allows uid id i w named o =
      let (x, w') = with_updated_at database config i w in
      let original = with_created_at database config x in
      let after = stored (database.transact (upsert_body config uid id original) w').1 in
      let first = with_updated_at-Same i w in
      let o' = Same-IsOwned (stored w') (stored w) first o in
      elim (laws.transact_effect (upsert_body config uid id original) w') [
        | inl same ↦
            inl
              (λ u j. Same-Unchanged _ _ same u j ∙ Same-Unchanged (stored w') (stored w) first u j)
        | inr c ↦
            let r =
              subst
                (Ensures
                  (λ ws. IsRegistration (stored w') (apply_writes ws (stored w')) uid id original))
                c.are_writes
                (upsert_body-IsRegistration config c.reads (stored w') uid id original named o'
                  c.are_reads) in
            let g =
              Same-IsGrant _ _ uid id _ _ c.made
                (registration-IsGrant (stored w') _ uid id original r o') in
            inr (
              subst (λ a. IsGrant uid id (not (str_eq a "")) (holds (stored w)) (holds after))
                (stamped-address database config i w)
                (Unchanged-IsGrant (stored w') (stored w) after uid id _ first g))
      ]

  run_call-Allows :
      (call : Call) (w : W)
      → IsNamed call
      → IsOwned (stored w)
      → Allows call (holds (stored w)) (holds (stored (run_call database config call w)))
  unfolding heartbeat disable active_targets newest_active_target
  run_call-Allows (upsert_call uid id i) w named o = upsert-Allows uid id i w named o
  run_call-Allows (heartbeat_call uid id beat) w named o =
      Shrinks-Fewer _ w (heartbeat_body-Shrinks uid id beat) o
  run_call-Allows (disable_one_call uid id t) w named o = disable_one-Lost uid id t w
  run_call-Allows (disable_call refs t) w named o =
      for_users-Fewer (λ uid ids. disable_body uid ids t false) (by_user refs []) w
        (λ uid ids. disable_body-Shrinks uid ids t false) o
  run_call-Allows (mark_call refs key value) w named o = mark_delivered-Fewer refs key value w o
  run_call-Allows (targets_call uid now) w named o = Same-Unchanged _ _ (laws.get_user_effect uid w)
  run_call-Allows (newest_call uid now) w named o = Same-Unchanged _ _ (laws.get_user_effect uid w)

  -- For a Firestore that does what it documents, owners that are right and registrations for users
  -- with an id, any calls of the store's methods but `DeleteOwnersForUser` are steps of a contract on
  -- who holds which target. A registration either changes nothing, or it gives the target to the user,
  -- if the installation has an address, and takes it from all others, who keep the rest. A removal
  -- takes nothing or the one target from the one user. Heartbeats, deliveries and the disabling of
  -- unregistered targets give nobody a target, and a read changes nothing.
  pub run_calls-AllowsAll :
      (calls : List Call) (w : W)
      → All IsNamed calls
      → IsOwned (stored w)
      → AllowsAll calls (holds (stored w)) (holds (stored (run_calls database config calls w)))
  run_calls-AllowsAll [] w named o = λ u j. refl
  run_calls-AllowsAll (call ∷ calls) w named o = (
    holds (stored (run_call database config call w)),
    run_call-Allows call w named.0 o,
    run_calls-AllowsAll calls _ named.1
        (run_call-IsOwned database config stored laws call w named.0 o),
  )
