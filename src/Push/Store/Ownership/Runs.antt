-- ===== src/Push/Store/Ownership/Runs.antt =====
-- push/store/store.go: the methods of the store in any order, by any users. `DeleteOwnersForUser` is
-- not among them: it is for an account that is deleted, and takes the owners of targets that its
-- installations still hold.
use push_dispatch.Base.{
  ◌≡◌, inl, inr, String, true, false, List, [], ◌∷◌, Map, All, str_eq, Time, Bool-cases,
  is_zero_time, arith,
}
use push_dispatch.Push.Installation.{Installation, InstallationRef, InstallationHeartbeat}
use push_dispatch.Push.Store.Documents.{Snapshot, Config, Callback, Database}
use push_dispatch.Push.Store.Callbacks.{disable_body, mark_body}
use push_dispatch.Push.Store.Operations.{
  upsert, heartbeat, disable_one, disable, mark_delivered, active_targets, newest_active_target,
  for_users, by_user, with_updated_at, is_invalid_marker,
}
use push_dispatch.Push.Store.Laws.{IsFirestore}
use push_dispatch.Push.Store.Ownership.{
  holds, IsOwned, Same-IsOwned, Keeps, Shrinks-Keeps, commit-IsOwned,
}
use push_dispatch.Push.Store.Ownership.Updates.{disable_body-Shrinks, mark_body-Shrinks}
use push_dispatch.Push.Store.Ownership.Beats.{heartbeat_body-Shrinks}
use push_dispatch.Push.Store.Ownership.Moves.{upsert_body-Keeps}

-- A call of a method.
pub data Call : Type 0 where
  upsert_call : String → String → Installation → Call
  heartbeat_call : String → String → InstallationHeartbeat → Call
  disable_one_call : String → String → Time → Call
  disable_call : List InstallationRef → Time → Call
  mark_call : List InstallationRef → String → String → Call
  targets_call : String → Time → Call
  newest_call : String → Time → Call

-- Registrations are for users with an id.
abbrev pub IsNamed : Call → Type 0
IsNamed (upsert_call uid id i) = str_eq uid "" ≡ false
IsNamed _ = Unit

module _ {W : Type 0} (database : Database W) (config : Config) where
  abbrev pub run_call : Call → W → W
  run_call (upsert_call uid id i) w = (upsert database config uid id i w).1
  run_call (heartbeat_call uid id beat) w = (heartbeat database config uid id beat w).1
  run_call (disable_one_call uid id t) w = (disable_one database config uid id t w).1
  run_call (disable_call refs t) w = (disable database config refs t w).1
  run_call (mark_call refs key value) w = (mark_delivered database config refs key value w).1
  run_call (targets_call uid now) w = (active_targets database config uid now w).1
  run_call (newest_call uid now) w = (newest_active_target database config uid now w).1

  abbrev pub run_calls : List Call → W → W
  run_calls [] w = w
  run_calls (call ∷ calls) w = run_calls calls (run_call call w)

module _ {W : Type 0} (database : Database W) (config : Config) (stored : W → Snapshot)
    (laws : IsFirestore database stored) where
  pub transact-IsOwned :
      (f : Callback) (w : W)
      → Keeps f
      → IsOwned (stored w)
      → IsOwned (stored (database.transact f w).1)
  transact-IsOwned f w keeps o = elim (laws.transact_effect f w) [
    | inl same ↦ Same-IsOwned _ _ same o
    | inr commit ↦ commit-IsOwned f _ _ keeps commit o
  ]

  for_users-IsOwned :
      (body : String → List String → Callback) (users : Map (List String)) (w : W)
      → ((uid : String) (ids : List String) → Keeps (body uid ids))
      → IsOwned (stored w)
      → IsOwned (stored (for_users database config body users w).1)
  unfolding for_users
  for_users-IsOwned body [] w keeps o = o
  for_users-IsOwned body ((uid, ids) ∷ users) w keeps o =
      for_users-IsOwned body users _ keeps (transact-IsOwned (body uid ids) w (keeps uid ids) o)

  pub with_updated_at-IsOwned :
      (i : Installation) (w : W)
      → IsOwned (stored w)
      → IsOwned (stored (with_updated_at database config i w).1)
  with_updated_at-IsOwned i w o = elim (Bool-cases (is_zero_time i.updated_at)) [
    | inl zero ↦ rw zero (Same-IsOwned _ _ (laws.now_effect w) o)
    | inr set ↦ rw set o
  ]

  mark_delivered-IsOwned :
      (refs : List InstallationRef) (key value : String) (w : W)
      → IsOwned (stored w)
      → IsOwned (stored (mark_delivered database config refs key value w).1)
  unfolding mark_delivered
  mark_delivered-IsOwned refs key value w o =
      elim (Bool-cases (is_invalid_marker database config key value)) [
        | inl invalid ↦ rw invalid o
        | inr valid ↦ rw valid (
            for_users-IsOwned (λ uid ids. mark_body uid ids key value) (by_user refs []) w
              (λ uid ids. Shrinks-Keeps _ (mark_body-Shrinks uid ids key value)) o)
      ]

  pub run_call-IsOwned :
      (call : Call) (w : W)
      → IsNamed call
      → IsOwned (stored w)
      → IsOwned (stored (run_call database config call w))
  unfolding upsert heartbeat disable_one disable active_targets newest_active_target
  run_call-IsOwned (upsert_call uid id i) w named o =
      transact-IsOwned _ _ (upsert_body-Keeps config uid id _ named) (with_updated_at-IsOwned i w o)
  run_call-IsOwned (heartbeat_call uid id beat) w named o =
      transact-IsOwned _ w (Shrinks-Keeps _ (heartbeat_body-Shrinks uid id beat)) o
  run_call-IsOwned (disable_one_call uid id t) w named o =
      transact-IsOwned _ w (Shrinks-Keeps _ (disable_body-Shrinks uid (id ∷ []) t true)) o
  run_call-IsOwned (disable_call refs t) w named o =
      for_users-IsOwned (λ uid ids. disable_body uid ids t false) (by_user refs []) w
        (λ uid ids. Shrinks-Keeps _ (disable_body-Shrinks uid ids t false)) o
  run_call-IsOwned (mark_call refs key value) w named o = mark_delivered-IsOwned refs key value w o
  run_call-IsOwned (targets_call uid now) w named o =
      Same-IsOwned _ _ (laws.get_user_effect uid w) o
  run_call-IsOwned (newest_call uid now) w named o = Same-IsOwned _ _ (laws.get_user_effect uid w) o

  -- For a Firestore that does what it documents: where each user who holds a target with an address
  -- owns it, that is so after any calls of the store's methods but `DeleteOwnersForUser`, with
  -- registrations only for users with an id; and then no two users hold the same target.
  pub run_calls-IsOwned :
      (calls : List Call) (w : W)
      → All IsNamed calls
      → IsOwned (stored w)
      → let d = stored (run_calls database config calls w) in
        IsOwned d × ((u v j : String) → holds d u j ≡ true → holds d v j ≡ true → u ≡ v)
  run_calls-IsOwned [] w named o = (o, λ u v j h k. ground (arith, o.owned u j h, o.owned v j k))
  run_calls-IsOwned (call ∷ calls) w named o =
      run_calls-IsOwned calls (run_call database config call w) named.1
        (run_call-IsOwned call w named.0 o)
