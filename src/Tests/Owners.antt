-- ===== src/Tests/Owners.antt =====
-- Registrations and removals of one device by two users.
use push_dispatch.Base.{
  ◌≡◌, ◌≢◌, inl, inr, refl, subst, String, true, false, some, List, [], ◌∷◌, lookup, insert, has,
  str_eq, str_eq_iff, str_lt, delete, sort, insert_sorted, Bool-cases, arith,
}
use push_dispatch.Push.Errors.{ok}
use push_dispatch.Push.Types.{Target}
use push_dispatch.Push.Installation.{
  Installation, RegistrationRequest, active_at, installation_of, installation_id, address_by,
  new_installation, check_target, validate_timezone, check_texts, preserve_registration_state,
}
use push_dispatch.Push.Store.Documents.{found}
use push_dispatch.Push.Store.Operations.{
  active_targets, active_targets_of, targets_among, delete_each, upsert, disable_one,
  delete_owners_for_user, target_of,
}
use push_dispatch.Push.Send.{join_errors}
use push_dispatch.Push.Store.Prune.{
  retire, prune, cap, candidates, delete_status_blocked, evict, expire, is_expired, seen_before,
}
use push_dispatch.Push.Store.Callbacks.{
  disable_body, retire_all, delete_owner_body, upsert_body, upsert_writes, owned_among,
}
use push_dispatch.Push.Store.Ownership.{holds, IsOwned, installations_in}
use push_dispatch.Push.Store.Ownership.Runs.{
  Call, upsert_call, disable_one_call, disable_call, run_calls, run_calls-IsOwned,
}
use push_dispatch.Push.Store.Refined.{AllowsAll}
use push_dispatch.Push.Store.Refined.Calls.{run_calls-AllowsAll}
use push_dispatch.Push.Store.Done.{delete_owners_for_user_done}
use push_dispatch.Push.Store.Removed.{IsRemoved, disable_one_done}
use push_dispatch.Push.Store.Active.{IsListing, active_targets_exact}
use push_dispatch.Scheduler.Worker.{
  note_ack, expected_map, same_target, acknowledge, is_final, note_acks, initial_acks,
  pending_targets,
}
use push_dispatch.Scheduler.Worker.Reached.{active_targets_reached}
use push_dispatch.Api.{wrap, is_error, Request, answered}
use push_dispatch.Api.Devices.{register_device, store_error}
use push_dispatch.Api.Registered.{store_of, IsReceipt, register_device_done}
use push_dispatch.Tests.Data.{at_dusk, reminder, delivered}
use push_dispatch.Tests.Register.{library, request, registered}
use push_dispatch.Tests.Devices.{Stores, stored, database, config, database-IsFirestore}

abbrev handset : Installation
handset = registered.1

-- Ada holds one target.
abbrev held : Stores
held = (("ada", ("k1", handset) ∷ []) ∷ [], ("k1", "ada") ∷ [])

holder : (u j : String) → holds (stored held) u j ≡ true → ("ada" ≡ u) × (str_eq "k1" j ≡ true)
unfolding lookup
holder u j h = elim (Bool-cases (str_eq "ada" u)) [
  | inr other_user ↦ absurd (ground (arith, other_user, h))
  | inl same ↦ ((str_eq_iff "ada" u).0 same, ground (arith, same, h))
]

held-IsOwned : IsOwned (stored held)
unfolding lookup str_eq
held-IsOwned = record {
  owned = λ u j h. (
    ground (arith, str_eq_iff "ada" u, holder u j h),
    subst (λ v. str_eq v "" ≡ false) (holder u j h).0 refl,
  );
  distinct = λ u. elim (Bool-cases (str_eq "ada" u)) [
    | inl same ↦ rw same (refl, tt)
    | inr other_user ↦ rw other_user tt
  ];
}

abbrev calls : List Call
calls =
    upsert_call "bob" "k1" handset
    ∷ disable_call (record { uid = "ada"; installation_id = "k1" } ∷ []) at_dusk
    ∷ disable_one_call "bob" "k1" at_dusk
    ∷ []

run_calls-IsOwned_example :
    let d = stored (run_calls database config calls held) in
    IsOwned d × ((u v j : String) → holds d u j ≡ true → holds d v j ≡ true → u ≡ v)
unfolding str_eq
run_calls-IsOwned_example =
    run_calls-IsOwned database config stored database-IsFirestore calls held (refl, (tt, (tt, tt)))
      held-IsOwned

run_calls-AllowsAll_example :
    AllowsAll calls (holds (stored held)) (holds (stored (run_calls database config calls held)))
unfolding str_eq
run_calls-AllowsAll_example =
    run_calls-AllowsAll database config stored database-IsFirestore calls held
      (refl, (tt, (tt, tt))) held-IsOwned

disable_one_done_example :
    IsRemoved
      (stored held)
      (stored (disable_one database config "ada" "k1" at_dusk held).1)
      "ada"
      "k1"
      at_dusk
unfolding disable_one disable_body lookup str_eq retire_all retire
disable_one_done_example =
    disable_one_done database config stored database-IsFirestore "ada" "k1" at_dusk held refl

delete_owners_for_user_done_example :
    (stored (delete_owners_for_user database config "ada" held).1).owners "k1" ≢ found (ok "ada")
unfolding delete_owners_for_user join_errors delete_each delete_owner_body lookup str_eq
delete_owners_for_user_done_example =
    delete_owners_for_user_done database config stored database-IsFirestore "ada" held refl "k1"

abbrev listed : List Target
listed = target_of "ada" "k1" handset ∷ []

listed_result : (active_targets database config "ada" at_dusk held).0 ≡ ok listed
unfolding active_targets lookup str_eq active_targets_of targets_among sort insert_sorted active_at
    installation_of address_by
listed_result = refl

active_targets_exact_example :
    IsListing "ada" at_dusk (installations_in ((stored held).users "ada")) listed
active_targets_exact_example =
    active_targets_exact database config stored database-IsFirestore "ada" at_dusk held
      (held-IsOwned.distinct "ada") listed_result

active_targets_reached_example :
    has
      (note_acks
        (delivered (target_of "ada" "k1" handset) ∷ [])
        (initial_acks reminder (pending_targets reminder.completed listed))).completed
      "k1"
    ≡ true
unfolding note_acks note_ack lookup expected_map pending_targets insert str_eq same_target
    installation_of address_by acknowledge is_final active_at
active_targets_reached_example =
    active_targets_reached database config stored database-IsFirestore reminder at_dusk held listed
      (delivered (target_of "ada" "k1" handset) ∷ []) "k1" held-IsOwned listed_result refl refl

abbrev posted : Request RegistrationRequest
posted = record { configured = true; authenticated = ok "bob"; body = some request; id = "" }

posted_result :
    (register_device library (λ s. false) (store_of database config) posted held).0
    ≡ answered registered.0
unfolding register_device wrap str_eq new_installation check_target validate_timezone check_texts
    upsert upsert_body lookup installation_of installation_id upsert_writes owned_among sort prune
    cap store_error is_error delete insert str_lt insert_sorted preserve_registration_state
    candidates delete_status_blocked evict expire is_expired retire seen_before
posted_result = refl

register_device_done_example :
    IsReceipt library
      (λ s. false)
      database
      config
      stored
      database-IsFirestore
      posted
      held
      (register_device library (λ s. false) (store_of database config) posted held).1
      registered.0
register_device_done_example =
    register_device_done library (λ s. false) database config stored database-IsFirestore posted
      held held-IsOwned posted_result
