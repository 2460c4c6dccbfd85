-- ===== src/Push/Store/Ownership/Freed.antt =====
-- push/store/store.go, `UpsertPushInstallation`: the installation of the user who had the target loses
-- its address, so that no other user holds the target.
use push_dispatch.Base.{
  ◌≡◌, inl, inr, refl, ap, ◌∙◌, sym, subst, String, true, false, some, [], Map, lookup, insert,
  lookup-insert, Bool-cases, Option-cases, str_eq, str_eq_iff, str_eq_refl, Time, if◌then◌else◌,
  arith,
}
use push_dispatch.Push.Installation.{Installation}
use push_dispatch.Push.Store.Prune.{retire, retired}
use push_dispatch.Push.Store.Documents.{Snapshot, set_installations}
use push_dispatch.Push.Store.Callbacks.{retire_writes, is_moved}
use push_dispatch.Push.Store.Laws.{apply_write, apply_writes}
use push_dispatch.Push.Store.Ownership.{has_address, installations_in, holds, IsOwned}
use push_dispatch.Push.Store.Ownership.Pruned.{holds_read, false_of_absurd}
use push_dispatch.Push.Store.Ownership.Updates.{
  less-IsOwned, insert-IsLess, stored-IsLess, retired-address,
}

pub record IsFreed (before after : Snapshot) (uid id : String) : Type 0 where
  pub user : after.users uid ≡ before.users uid
  pub owners : (j : String) → after.owners j ≡ before.owners j
  pub free : (u : String) → str_eq uid u ≡ false → holds after u id ≡ false
  pub rest : (u j : String) → str_eq id j ≡ false → holds after u j ≡ holds before u j
  pub owned : IsOwned after

-- Nobody but the user holds the target.
unmoved-IsFreed :
    (d : Snapshot) (uid id : String)
    → IsOwned d
    → ((u : String) → str_eq uid u ≡ false → holds d u id ≡ false)
    → IsFreed d d uid id
unmoved-IsFreed d uid id o f = record {
  user = refl;
  owners = λ j. refl;
  free = f;
  rest = λ u j apart. refl;
  owned = o;
}

moved_of_holds :
    (d : Snapshot) (uid id owner u : String)
    → IsOwned d
    → str_eq uid u ≡ false
    → holds d u id ≡ true
    → owner ≡ u
    → is_moved owner uid ≡ true
moved_of_holds d uid id owner u o differs h e =
    ground (arith, o.owned u id h, e, str_eq_iff uid u, str_eq_iff owner uid)

retired-IsFreed :
    (d : Snapshot) (uid id owner : String) (prior : Map Installation) (i : Installation) (t : Time)
    → IsOwned d
    → ((u : String) → holds d u id ≡ true → owner ≡ u)
    → installations_in (d.users owner) ≡ prior
    → lookup id prior ≡ some i
    → str_eq owner uid ≡ false
    → IsFreed d
        (apply_write (set_installations owner (insert id (retired t i) prior) (some t)) d)
        uid
        id
retired-IsFreed d uid id owner prior i t o only e at moved = record {
  user = rw moved refl;
  owners = λ j. refl;
  free = λ u differs. elim (Bool-cases (str_eq owner u)) [
    | inl same ↦
        rw (same, lookup-insert id id (retired t i) prior, str_eq_refl id) (retired-address t i)
    | inr apart ↦ rw apart (
        false_of_absurd (holds d u id) (str_eq owner u) (λ h. (str_eq_iff owner u).1 (only u h))
          apart)
  ];
  rest = λ u j apart. elim (Bool-cases (str_eq owner u)) [
    | inl same ↦
        rw (same, lookup-insert id j (retired t i) prior, apart)
          (sym (
            subst (λ v. holds d v j ≡ has_address (lookup j prior)) ((str_eq_iff owner u).0 same)
              (holds_read (d.users owner) prior j e)))
    | inr differs ↦ rw differs refl
  ];
  owned =
      less-IsOwned d owner _ (some t)
        (insert-IsLess _ prior id i (retired t i) at
          (λ h. absurd (ground (arith, retired-address t i, h))) (stored-IsLess d owner prior o e))
        o;
}

pub moved-IsFreed :
    (d : Snapshot) (uid id owner : String) (prior : Map Installation) (t : Time)
    → IsOwned d
    → ((u : String) → holds d u id ≡ true → owner ≡ u)
    → (is_moved owner uid ≡ true → installations_in (d.users owner) ≡ prior)
    → IsFreed d
        (apply_writes
          (if is_moved owner uid then retire_writes owner t (retire prior id t) else [])
          d)
        uid
        id
unfolding retire
moved-IsFreed d uid id owner prior t o only e = elim (Bool-cases (is_moved owner uid)) [
  | inr stays ↦ rw stays (
      unmoved-IsFreed d uid id o (λ u differs.
        false_of_absurd (holds d u id) (is_moved owner uid)
          (λ h. moved_of_holds d uid id owner u o differs h (only u h)) stays))
  | inl moves ↦ elim (Option-cases (lookup id prior)) [
    | inr (i, at) ↦
        rw (moves, at, retire)
          (retired-IsFreed d uid id owner prior i t o only (e moves) at (ground arith))
    | inl absent ↦
        rw (moves, absent, retire)
          (unmoved-IsFreed d uid id o (λ u differs.
            false_of_absurd (holds d u id) (has_address (lookup id prior))
              (λ h.
                sym (holds_read (d.users owner) prior id (e moves))
                ∙ subst (λ v. holds d v id ≡ true) (sym (only u h)) h)
              (ap has_address absent)))
  ]
]
