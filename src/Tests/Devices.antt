-- ===== src/Tests/Devices.antt =====
-- The installations and the owners in two maps that answer as Firestore does.
use push_dispatch.Base.{
  ◌≡◌, inl, inr, ◌⊎◌, refl, subst, ◌∙◌, String, true, Option, none, some, is_some, List, [], ◌∷◌,
  Map, lookup, insert, delete, lookup-insert, lookup-delete, keys, has, has-keys, arith,
}
use push_dispatch.Push.Errors.{Error, Result, ok, err}
use push_dispatch.Push.Installation.{Installation}
use push_dispatch.Push.Store.Documents.{
  Fetched, found, not_found, Snapshot, Write, set_installations, set_owner, delete_owner, Callback,
  Database, Config,
}
use push_dispatch.Push.Store.Laws.{IsFirestore, IsCommit, Same, apply_write, apply_writes}
use push_dispatch.Tests.Data.{at_dusk}

abbrev pub Stores : Type 0
Stores = Map (Map Installation) × Map String

abbrev fetched : {A : Type 0} → Option A → Fetched (Result A)
fetched none = not_found
fetched (some a) = found (ok a)

abbrev pub stored : Stores → Snapshot
stored w = record {
  users = λ u. fetched (lookup u w.0);
  owners = λ j. fetched (lookup j w.1);
  fences = λ u. not_found;
}

abbrev write_to : Write → Stores → Stores
write_to (set_installations uid m t) (users, owners) = (insert uid m users, owners)
write_to (set_owner id uid t) (users, owners) = (users, insert id uid owners)
write_to (delete_owner id) (users, owners) = (users, delete id owners)

abbrev write_all : List Write → Stores → Stores
write_all [] w = w
write_all (write ∷ writes) w = write_all writes (write_to write w)

abbrev commit : Result (List Write) → Stores → Option Error × Stores
commit (ok writes) w = (none, write_all writes w)
commit (err e) w = (some e, w)

abbrev pub database : Database Stores
database = record {
  transact = λ f w. commit (f (stored w)) w;
  get_user = λ uid w. ((stored w).users uid, w);
  list_owned = λ uid w. (ok (keys w.1), w);
  now = λ w. (at_dusk, w);
}

abbrev pub config : Config
config = record {
  create_users = true;
  has_fences = true;
  has_status_field = true;
  blocked_statuses = [];
}

write_to-Same :
    (write : Write) (w : Stores) (d : Snapshot)
    → Same (stored w) d
    → Same (stored (write_to write w)) (apply_write write d)
write_to-Same (set_installations uid m t) (users, owners) d s = record {
  users = λ u. ground (arith, lookup-insert uid u m users, s.users u);
  owners = s.owners;
}
write_to-Same (set_owner id uid t) (users, owners) d s = record {
  users = s.users;
  owners = λ j. ground (arith, lookup-insert id j uid owners, s.owners j);
}
write_to-Same (delete_owner id) (users, owners) d s = record {
  users = s.users;
  owners = λ j. ground (arith, lookup-delete id j owners, s.owners j);
}

write_all-Same :
    (writes : List Write) (w : Stores) (d : Snapshot)
    → Same (stored w) d
    → Same (stored (write_all writes w)) (apply_writes writes d)
write_all-Same [] w d s = s
write_all-Same (write ∷ writes) w d s =
    write_all-Same writes (write_to write w) (apply_write write d) (write_to-Same write w d s)

Same-refl : (d : Snapshot) → Same d d
Same-refl d = record { users = λ u. refl; owners = λ j. refl }

write_all-IsCommit :
    (f : Callback) (w : Stores) (writes : List Write)
    → f (stored w) ≡ ok writes
    → IsCommit f (stored w) (stored (write_all writes w))
write_all-IsCommit f w writes h = record {
  reads = stored w;
  writes = writes;
  are_reads = record { users = λ u. inl refl; owners = λ j. inl refl };
  are_writes = h;
  made = write_all-Same writes w (stored w) (Same-refl (stored w));
}

owned-has :
    (uid : String) (owners : Map String) (j : String)
    → fetched (lookup j owners) ≡ found (ok uid)
    → has (keys owners) j ≡ true
owned-has uid owners j h = has-keys j owners ∙ by_lookup (lookup j owners) h
  where
    by_lookup : (o : Option String) → fetched o ≡ found (ok uid) → is_some o ≡ true
    by_lookup none h = absurd (ground arith)
    by_lookup (some u) h = refl

commit-effect :
    (f : Callback) (w : Stores) (r : Result (List Write))
    → f (stored w) ≡ r
    → Same (stored (commit r w).1) (stored w) ⊎ IsCommit f (stored w) (stored (commit r w).1)
commit-effect f w (ok writes) h = inr (write_all-IsCommit f w writes h)
commit-effect f w (err e) h = inl (Same-refl (stored w))

commit-done :
    (f : Callback) (w : Stores) (r : Result (List Write))
    → f (stored w) ≡ r
    → (commit r w).0 ≡ none
    → IsCommit f (stored w) (stored (commit r w).1)
commit-done f w (ok writes) h k = write_all-IsCommit f w writes h
commit-done f w (err e) h k = absurd (ground arith)

keys-eq : {ids : List String} (w : Stores) → ok (keys w.1) ≡ ok ids → keys w.1 ≡ ids
keys-eq w h = ground arith

pub database-IsFirestore : IsFirestore database stored
database-IsFirestore = record {
  transact_effect = λ f w. commit-effect f w (f (stored w)) refl;
  transact_done = λ f w h. commit-done f w (f (stored w)) refl h;
  now_effect = λ w. Same-refl (stored w);
  get_user_effect = λ uid w. Same-refl (stored w);
  get_user_reads = λ uid w. inl refl;
  list_owned_effect = λ uid w. Same-refl (stored w);
  list_owned_lists =
      λ uid w ids h j o. subst (λ js. has js j ≡ true) (keys-eq w h) (owned-has uid w.1 j o);
}
