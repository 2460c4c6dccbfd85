-- ===== src/Push/Store/Done.antt =====
-- push/store/store.go: what holds after a registration, a removal or a deletion that succeeds.
use push_dispatch.Base.{
  ◌≤◌, ◌≡◌, ◌≢◌, inl, inr, refl, ap, sym, subst, ◌∙◌, String, Bool, true, false, not, Option, none,
  some, List, [], ◌∷◌, Map, lookup, insert, lookup-insert, insert-Distinct, keys, has, length,
  Distinct, str_eq, str_eq_iff, str_eq_refl, Bool-cases, is_zero_time, if◌then◌else◌, arith,
}
use push_dispatch.Push.Errors.{Error, Errors, nil, cons, Result, ok, err, Ensures}
use push_dispatch.Push.Installation.{Installation}
use push_dispatch.Push.Send.{join_errors}
use push_dispatch.Push.Store.Prune.{prune, max_installations_per_user}
use push_dispatch.Push.Store.Prune.Lookups.{IsRemoval, prune-IsRemoval}
use push_dispatch.Push.Store.Prune.Limits.{prune-fits}
use push_dispatch.Push.Store.Documents.{
  Snapshot, Config, Database, Write, Fetched, found, not_found, unavailable, delete_owner,
}
use push_dispatch.Push.Store.Callbacks.{
  upsert_body, preserved, delete_owner_body, delete_owner_read,
}
use push_dispatch.Push.Store.Operations.{
  upsert, with_updated_at, with_created_at, delete_each, delete_listed, delete_owners_for_user,
  with_error,
}
use push_dispatch.Push.Store.Laws.{
  IsFirestore, Same, apply_writes, Reads, ReadOf-found, ReadOf-not_found,
}
use push_dispatch.Push.Store.Ownership.{holds, holds_in, IsOwned, installations_in}
use push_dispatch.Push.Store.Ownership.Pruned.{false_of_absurd}
use push_dispatch.Push.Store.Ownership.Moves.{IsRegistration, upsert_body-IsRegistration}
use push_dispatch.Push.Store.Ownership.Runs.{with_updated_at-IsOwned}

-- The user has the target alone, with the installation among at most twenty.
pub record IsRegistered (d : Snapshot) (uid id : String) (i : Installation) : Type 0 where
  pub owner : d.owners id ≡ found (ok uid)
  pub alone : (u : String) → str_eq uid u ≡ false → holds d u id ≡ false
  pub installations : Map Installation
  pub stored : d.users uid ≡ found (ok installations)
  pub fits : length installations ≤ max_installations_per_user
  pub installed : lookup id installations ≡ some i

pub registration-IsRegistered :
    (before after : Snapshot) (uid id : String) (original : Installation)
    → IsOwned before
    → IsRegistration before after uid id original
    → IsRegistered after uid id
        (preserved (lookup id (installations_in (before.users uid))) original)
registration-IsRegistered before after uid id original o r =
    subst (λ m. IsRegistered after uid id (preserved (lookup id m) original)) (sym r.read)
      registered
  where
    i : Installation
    i = preserved (lookup id r.stored) original

    m : Map Installation
    m = insert id i r.stored

    distinct : Distinct (keys m)
    distinct =
        insert-Distinct id i r.stored (subst (λ n. Distinct (keys n)) r.read (o.distinct uid))

    removal : IsRemoval m id (prune m id i.updated_at).0 (prune m id i.updated_at).1
    removal = (prune-IsRemoval m id i.updated_at distinct).0

    stays : has r.dropped id ≡ false
    stays =
        false_of_absurd (has r.dropped id) (has (prune m id i.updated_at).1 id)
          (λ k. (r.is_pruned.of_user id k).0) removal.kept

    registered : IsRegistered after uid id i
    registered = record {
      owner = r.is_pruned.owners id ∙ rw (stays, str_eq_refl id) refl;
      alone = λ u differs.
          ap (λ v. holds_in v id) (r.is_pruned.others u differs) ∙ r.is_freed.free u differs;
      installations = (prune m id i.updated_at).0;
      stored = r.is_pruned.user;
      fits = prune-fits m id i.updated_at distinct;
      installed =
          removal.lookups id
          ∙ rw (removal.kept, lookup-insert id id i r.stored, str_eq_refl id) refl;
    }

same-IsRegistered :
    (a b : Snapshot) (uid id : String) (i : Installation)
    → Same a b
    → IsRegistered b uid id i
    → IsRegistered a uid id i
same-IsRegistered a b uid id i s r = record {
  owner = s.owners id ∙ r.owner;
  alone = λ u differs. ap (λ v. holds_in v id) (s.users u) ∙ r.alone u differs;
  installations = r.installations;
  stored = s.users uid ∙ r.stored;
  fits = r.fits;
  installed = r.installed;
}

-- The owners that are left after the writes are of other targets and were there before.
abbrev LeavesOwner : Snapshot → String → String → String → List Write → Type 0
LeavesOwner d id uid j ws =
    (apply_writes ws d).owners j ≡ found (ok uid)
    → (str_eq id j ≡ false) × (d.owners j ≡ found (ok uid))

owned_apart :
    (d : Snapshot) (id uid j : String)
    → d.owners id ≢ found (ok uid)
    → d.owners j ≡ found (ok uid)
    → (str_eq id j ≡ false) × (d.owners j ≡ found (ok uid))
owned_apart d id uid j n h = elim (Bool-cases (str_eq id j)) [
  | inl same ↦
      absurd (n (subst (λ k. d.owners k ≡ found (ok uid)) (sym ((str_eq_iff id j).0 same)) h))
  | inr apart ↦ (apart, h)
]

delete_owner_body-LeavesOwner :
    (s d : Snapshot) (id uid j : String)
    → Reads s d
    → Ensures (LeavesOwner d id uid j) (delete_owner_body id uid s)
unfolding delete_owner_body
delete_owner_body-LeavesOwner s d id uid j reads = by_read (s.owners id) refl
  where
    by_owner :
        (owner : String) (b : Bool)
        → s.owners id ≡ found (ok owner)
        → str_eq owner uid ≡ b
        → LeavesOwner d id uid j (if not b then [] else delete_owner id ∷ [])
    by_owner owner true e f h = ground arith
    by_owner owner false e f h =
        owned_apart d id uid j
          (λ k. absurd (
            ground (
              arith,
              ReadOf-found (s.owners id) (d.owners id) (ok owner) (reads.owners id) e,
              k,
              str_eq_iff owner uid,
            )))
          h

    by_read :
        (v : Fetched (Result String))
        → s.owners id ≡ v
        → Ensures (LeavesOwner d id uid j) (delete_owner_read id uid v)
    by_read not_found e = λ h.
        owned_apart d id uid j
          (λ k.
            absurd
              (ground (arith, ReadOf-not_found (s.owners id) (d.owners id) (reads.owners id) e, k)))
          h
    by_read (unavailable x) e = tt
    by_read (found (err x)) e = tt
    by_read (found (ok owner)) e = by_owner owner (str_eq owner uid) e refl

with_error-nil : (e : Option Error) (es : Errors) → with_error e es ≡ nil → (e ≡ none) × (es ≡ nil)
with_error-nil none es h = (refl, h)
with_error-nil (some e) es h = absurd (ground arith)

join_errors-none : (es : Errors) → join_errors es ≡ none → es ≡ nil
unfolding join_errors
join_errors-none nil h = refl
join_errors-none (cons e es) h = absurd (ground arith)

module _ {W : Type 0} (database : Database W) (config : Config) (stored : W → Snapshot)
    (laws : IsFirestore database stored) where
  with_updated_at-users :
      (i : Installation) (w : W) (u : String)
      → (stored (with_updated_at database config i w).1).users u ≡ (stored w).users u
  with_updated_at-users i w u = elim (Bool-cases (is_zero_time i.updated_at)) [
    | inl zero ↦ rw zero ((laws.now_effect w).users u)
    | inr set ↦ rw set refl
  ]

  -- After `UpsertPushInstallation` without an error, for a user with an id and owners that are right:
  -- the user owns the target, no other user holds it, and the user has at most twenty installations,
  -- of which the one with the id is the request's, with what is preserved of the one before.
  pub upsert_done :
      (uid id : String) (installation : Installation) (w : W)
      → str_eq uid "" ≡ false
      → IsOwned (stored w)
      → (upsert database config uid id installation w).0 ≡ none
      → IsRegistered (stored (upsert database config uid id installation w).1) uid id (
          preserved
            (lookup id (installations_in ((stored w).users uid)))
            (with_created_at database config (with_updated_at database config installation w).0))
  unfolding upsert
  upsert_done uid id installation w named o h =
      let (i, w') = with_updated_at database config installation w in
      let original = with_created_at database config i in
      let c = laws.transact_done (upsert_body config uid id original) w' h in
      let o' = with_updated_at-IsOwned database config stored laws installation w o in
      let r =
        subst
          (Ensures (λ ws. IsRegistration (stored w') (apply_writes ws (stored w')) uid id original))
          c.are_writes
          (upsert_body-IsRegistration config c.reads (stored w') uid id original named o'
            c.are_reads) in
      same-IsRegistered _ (apply_writes c.writes (stored w')) uid id _ c.made (
        subst
          (λ v.
            IsRegistered (apply_writes c.writes (stored w')) uid id
              (preserved (lookup id (installations_in v)) original))
          (with_updated_at-users installation w uid)
          (registration-IsRegistered (stored w') _ uid id original o' r))

  delete_owner-LeavesOwner :
      (id uid : String) (w : W) (j : String)
      → (database.transact (delete_owner_body id uid) w).0 ≡ none
      → (stored (database.transact (delete_owner_body id uid) w).1).owners j ≡ found (ok uid)
      → (str_eq id j ≡ false) × ((stored w).owners j ≡ found (ok uid))
  delete_owner-LeavesOwner id uid w j h k =
      let c = laws.transact_done (delete_owner_body id uid) w h in
      subst (Ensures (LeavesOwner (stored w) id uid j)) c.are_writes
        (delete_owner_body-LeavesOwner c.reads (stored w) id uid j c.are_reads)
        (sym (c.made.owners j) ∙ k)

  delete_each-done :
      (uid : String) (ids : List String) (w : W) (j : String)
      → (delete_each database config uid ids w).0 ≡ nil
      → (stored (delete_each database config uid ids w).1).owners j ≡ found (ok uid)
      → (has ids j ≡ false) × ((stored w).owners j ≡ found (ok uid))
  unfolding delete_each
  delete_each-done uid [] w j h k = (refl, k)
  delete_each-done uid (id ∷ ids) w j h k =
      let (e, w₁) = database.transact (delete_owner_body id uid) w in
      let rest = delete_each database config uid ids w₁ in
      let (no_e, no_es) = with_error-nil e rest.0 h in
      let later = delete_each-done uid ids w₁ j no_es k in
      let here = delete_owner-LeavesOwner id uid w j no_e later.1 in (ground arith, here.1)

  -- For a Firestore that does what it documents: after `DeleteOwnersForUser` without an error, no target is owned by the user.
  pub delete_owners_for_user_done :
      (uid : String) (w : W)
      → (delete_owners_for_user database config uid w).0 ≡ none
      → (j : String)
      → (stored (delete_owners_for_user database config uid w).1).owners j ≢ found (ok uid)
  unfolding delete_owners_for_user
  delete_owners_for_user_done uid w h j = by_list (database.list_owned uid w) refl h
    where
      by_list :
          (answer : Result (List String) × W)
          → database.list_owned uid w ≡ answer
          → (delete_listed database config uid answer).0 ≡ none
          → (stored (delete_listed database config uid answer).1).owners j ≢ found (ok uid)
      by_list (err e, w') f g = absurd (ground arith)
      by_list (ok ids, w') f g = λ k.
          let left = delete_each-done uid ids w' j (join_errors-none _ g) k in
          let before =
            sym ((laws.list_owned_effect uid w).owners j)
            ∙ (ap (λ a. (stored a.1).owners j) f ∙ left.1) in
          absurd (ground (arith, left, laws.list_owned_lists uid w ids (ap (λ a. a.0) f) j before))
