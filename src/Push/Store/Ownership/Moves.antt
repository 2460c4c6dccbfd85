-- ===== src/Push/Store/Ownership/Moves.antt =====
-- push/store/store.go, `UpsertPushInstallation`: a registration keeps the owners right.
use push_dispatch.Base.{
  ◌≡◌, refl, ap, ◌∙◌, sym, subst, String, true, false, some, List, [], ◌∷◌, Map, map, lookup,
  insert, str_eq, str_eq_refl, Time, if◌then◌else◌, arith,
}
use push_dispatch.Push.Errors.{Result, ok, err, Ensures, Ensures-bind, Ensures-mono}
use push_dispatch.Push.Installation.{Installation}
use push_dispatch.Push.Store.Prune.{prune, retire}
use push_dispatch.Push.Store.Documents.{
  Config, Fetched, found, not_found, unavailable, Snapshot, Write, set_installations, set_owner,
  delete_owner,
}
use push_dispatch.Push.Store.Callbacks.{
  owned_pruned_targets, upsert_body, upsert_writes, retire_writes, is_moved, read_user, read_owner,
  read_prior, preserved, check_fence,
}
use push_dispatch.Push.Store.Laws.{apply_write, apply_writes, Reads, ReadOf-found, ReadOf-not_found}
use push_dispatch.Push.Store.Ownership.{installations_in, holds, IsOwned, Keeps}
use push_dispatch.Push.Store.Ownership.Writes.{
  apply_writes-append, owned_pruned_targets-owned, delete_owners-users, delete_owners-owners,
}
use push_dispatch.Push.Store.Ownership.Pruned.{IsPruned, pruned-IsOwned}
use push_dispatch.Push.Store.Ownership.Updates.{stored-eq}
use push_dispatch.Push.Store.Ownership.Freed.{IsFreed, moved-IsFreed}

missing-eq :
    (s d : Snapshot) (uid : String)
    → Reads s d
    → s.users uid ≡ not_found
    → [] ≡ installations_in (d.users uid)
missing-eq s d uid reads h =
    sym (ap installations_in (ReadOf-not_found (s.users uid) (d.users uid) (reads.users uid) h))

read_user-eq :
    (config : Config) (s d : Snapshot) (uid : String) {stored : Map Installation}
    → Reads s d
    → read_user config (s.users uid) ≡ ok stored
    → installations_in (d.users uid) ≡ stored
read_user-eq config s d uid {stored} reads = by_read (s.users uid) refl
  where
    by_read :
        (v : Fetched (Result (Map Installation)))
        → s.users uid ≡ v
        → read_user config v ≡ ok stored
        → installations_in (d.users uid) ≡ stored
    by_read (found r) h k = stored-eq s d uid r stored _ reads h k
    by_read not_found h k = sym (missing-eq s d uid reads h) ∙ ground arith
    by_read (unavailable e) h k = absurd (ground arith)

read_prior-eq :
    (s d : Snapshot) (uid : String) {prior : Map Installation}
    → Reads s d
    → read_prior (s.users uid) ≡ ok prior
    → installations_in (d.users uid) ≡ prior
read_prior-eq s d uid {prior} reads = by_read (s.users uid) refl
  where
    by_read :
        (v : Fetched (Result (Map Installation)))
        → s.users uid ≡ v
        → read_prior v ≡ ok prior
        → installations_in (d.users uid) ≡ prior
    by_read (found r) h k = stored-eq s d uid r prior _ reads h k
    by_read not_found h k = sym (missing-eq s d uid reads h) ∙ ground arith
    by_read (unavailable e) h k = absurd (ground arith)

-- The owner that was read is the one user who holds the target.
read_owner-only :
    (s d : Snapshot) (id : String) {owner : String}
    → IsOwned d
    → Reads s d
    → read_owner (s.owners id) ≡ ok owner
    → (u : String) → holds d u id ≡ true
    → owner ≡ u
read_owner-only s d id {owner} o reads h u k = by_read (s.owners id) refl h
  where
    by_read : (v : Fetched (Result String)) → s.owners id ≡ v → read_owner v ≡ ok owner → owner ≡ u
    by_read (found (ok v)) e f =
        ground (
          arith,
          ReadOf-found (s.owners id) (d.owners id) (ok v) (reads.owners id) e,
          o.owned u id k,
        )
    by_read (found (err x)) e f = absurd (ground arith)
    by_read not_found e f = absurd (
        ground
          (arith, ReadOf-not_found (s.owners id) (d.owners id) (reads.owners id) e, o.owned u id k))
    by_read (unavailable x) e f = absurd (ground arith)

registered-IsPruned :
    (s d freed : Snapshot) (uid id : String) (stored : Map Installation) (i : Installation)
    (t : Time) (dropped : List String)
    → Reads s d
    → IsFreed d freed uid id
    → installations_in (d.users uid) ≡ stored
    → str_eq uid "" ≡ false
    → let m = prune (insert id i stored) id t in
      owned_pruned_targets s uid m.1 ≡ ok dropped
      → IsPruned freed
          (apply_writes
            (set_installations uid m.0 (some t) ∷ set_owner id uid t ∷ map delete_owner dropped)
            freed)
          uid
          stored
          id
          i
          t
          dropped
registered-IsPruned s d freed uid id stored i t dropped reads f e named h =
    let m = prune (insert id i stored) id t in
    let set =
      apply_write (set_owner id uid t) (apply_write (set_installations uid m.0 (some t)) freed) in
    record {
      read = ap installations_in f.user ∙ e;
      user = delete_owners-users dropped set uid ∙ rw (str_eq_refl uid);
      others = λ u differs. delete_owners-users dropped set u ∙ rw differs;
      owners = delete_owners-owners dropped set;
      of_user = λ j k.
          let own = owned_pruned_targets-owned s d uid m.1 reads h j k in
          (own.0, f.owners j ∙ own.1);
      free = f.free;
      named = named;
    }

-- The documents after the writes of a registration.
pub record IsRegistration (before after : Snapshot) (uid id : String) (original : Installation)
    : Type 0 where
  pub stored : Map Installation
  pub read : installations_in (before.users uid) ≡ stored
  pub freed : Snapshot
  pub is_freed : IsFreed before freed uid id
  pub dropped : List String
  pub is_pruned :
      let i = preserved (lookup id stored) original in
      IsPruned freed after uid stored id i i.updated_at dropped

upsert_writes-IsRegistration :
    (s d : Snapshot) (uid id : String) (original : Installation) (stored : Map Installation)
    (owner : String) (prior : Map Installation)
    → IsOwned d
    → Reads s d
    → installations_in (d.users uid) ≡ stored
    → ((u : String) → holds d u id ≡ true → owner ≡ u)
    → (is_moved owner uid ≡ true → installations_in (d.users owner) ≡ prior)
    → str_eq uid "" ≡ false
    → Ensures
        (λ ws. IsRegistration d (apply_writes ws d) uid id original)
        (upsert_writes s uid id original stored owner prior)
unfolding upsert_writes
upsert_writes-IsRegistration s d uid id original stored owner prior o reads e only moved named =
    let i = preserved (lookup id stored) original in
    let freed = moved-IsFreed d uid id owner prior i.updated_at o only moved in
    let moves =
      if is_moved owner uid
      then retire_writes owner i.updated_at (retire prior id i.updated_at)
      else [] in
    Ensures-bind _ (owned_pruned_targets s uid (prune (insert id i stored) id i.updated_at).1) _
      (λ dropped kept. record {
        stored = stored;
        read = e;
        freed = apply_writes moves d;
        is_freed = freed;
        dropped = dropped;
        is_pruned =
            subst (λ v. IsPruned (apply_writes moves d) v uid stored id i i.updated_at dropped)
              (sym (apply_writes-append moves _ d))
              (registered-IsPruned s d _ uid id stored i i.updated_at dropped reads freed e named
                kept);
      })

pub upsert_body-IsRegistration :
    (config : Config) (s d : Snapshot) (uid id : String) (original : Installation)
    → str_eq uid "" ≡ false
    → IsOwned d
    → Reads s d
    → Ensures
        (λ ws. IsRegistration d (apply_writes ws d) uid id original)
        (upsert_body config uid id original s)
unfolding upsert_body
upsert_body-IsRegistration config s d uid id original named o reads =
    Ensures-bind P (if config.has_fences then check_fence config (s.fences uid) else ok tt) _
      (λ _ _. Ensures-bind P (read_user config (s.users uid)) _ (λ stored k.
        Ensures-bind P (read_owner (s.owners id)) _ (λ owner l.
          Ensures-bind P (if is_moved owner uid then read_prior (s.users owner) else ok []) _
            (λ prior m.
              upsert_writes-IsRegistration s d uid id original stored owner prior o reads
                (read_user-eq config s d uid reads k) (read_owner-only s d id o reads l)
                (λ moved. read_prior-eq s d owner reads (rw moved at m)) named))))
  where
    P : List Write → Type 0
    P ws = IsRegistration d (apply_writes ws d) uid id original

pub registration-IsOwned :
    (before after : Snapshot) (uid id : String) (original : Installation)
    → IsRegistration before after uid id original
    → IsOwned after
registration-IsOwned before after uid id original r =
    let i = preserved (lookup id r.stored) original in
    pruned-IsOwned r.freed after uid r.stored id i i.updated_at r.dropped r.is_pruned
      r.is_freed.owned

pub upsert_body-Keeps :
    (config : Config) (uid id : String) (original : Installation)
    → str_eq uid "" ≡ false
    → Keeps (upsert_body config uid id original)
upsert_body-Keeps config uid id original named s d o reads =
    Ensures-mono _ _ (λ ws. registration-IsOwned d (apply_writes ws d) uid id original) _
      (upsert_body-IsRegistration config s d uid id original named o reads)
