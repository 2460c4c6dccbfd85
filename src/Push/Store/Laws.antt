-- ===== src/Push/Store/Laws.antt =====
-- What push/store/store.go relies on: a transaction reads documents as they are, or fails to; it makes
-- all the writes of its callback or none, and one that succeeds has made them; writes replace whole
-- fields. What other instances of the store do during a transaction is done before it.
use push_dispatch.Base.{
  ◌≡◌, ◌⊎◌, inl, inr, ◌∙◌, sym, String, none, List, [], ◌∷◌, true, has, str_eq, if◌then◌else◌,
  arith,
}
use push_dispatch.Push.Errors.{Error, ok}
use push_dispatch.Push.Store.Documents.{
  Fetched, found, not_found, unavailable, Snapshot, Write, set_installations, set_owner,
  delete_owner, Callback, Database,
}

abbrev pub apply_write : Write → Snapshot → Snapshot
apply_write (set_installations uid m t) d = record d {
  users = λ u. if str_eq uid u then found (ok m) else d.users u;
}
apply_write (set_owner id uid t) d = record d {
  owners = λ j. if str_eq id j then found (ok uid) else d.owners j;
}
apply_write (delete_owner id) d = record d {
  owners = λ j. if str_eq id j then not_found else d.owners j;
}

abbrev pub apply_writes : List Write → Snapshot → Snapshot
apply_writes [] d = d
apply_writes (write ∷ writes) d = apply_writes writes (apply_write write d)

-- The documents that the store writes are the same.
pub record Same (a b : Snapshot) : Type 0 where
  pub users : (u : String) → a.users u ≡ b.users u
  pub owners : (j : String) → a.owners j ≡ b.owners j

-- A read of a document.
abbrev pub ReadOf : {A : Type 0} → Fetched A → Fetched A → Type 0
ReadOf read stored = (read ≡ stored) ⊎ (e : Error) × (read ≡ unavailable e)

pub record Reads (s d : Snapshot) : Type 0 where
  pub users : (u : String) → ReadOf (s.users u) (d.users u)
  pub owners : (j : String) → ReadOf (s.owners j) (d.owners j)

pub ReadOf-found :
    {A : Type 0} (read stored : Fetched A) (a : A)
    → ReadOf read stored
    → read ≡ found a
    → stored ≡ found a
ReadOf-found read stored a (inl same) h = sym same ∙ h
ReadOf-found read stored a (inr (e, failed)) h = absurd (ground arith)

pub ReadOf-not_found :
    {A : Type 0} (read stored : Fetched A)
    → ReadOf read stored
    → read ≡ not_found
    → stored ≡ not_found
ReadOf-not_found read stored (inl same) h = sym same ∙ h
ReadOf-not_found read stored (inr (e, failed)) h = absurd (ground arith)

-- A callback's writes, for what it reads of the documents `before`, made.
pub record IsCommit (f : Callback) (before after : Snapshot) : Type 0 where
  pub reads : Snapshot
  pub writes : List Write
  pub are_reads : Reads reads before
  pub are_writes : f reads ≡ ok writes
  pub made : Same after (apply_writes writes before)

pub record IsFirestore {W : Type 0} (database : Database W) (stored : W → Snapshot) : Type 0 where
  pub transact_effect :
      (f : Callback) (w : W)
      → Same (stored (database.transact f w).1) (stored w)
        ⊎ IsCommit f (stored w) (stored (database.transact f w).1)
  pub transact_done :
      (f : Callback) (w : W)
      → (database.transact f w).0 ≡ none
      → IsCommit f (stored w) (stored (database.transact f w).1)
  pub now_effect : (w : W) → Same (stored (database.now w).1) (stored w)
  pub get_user_effect :
      (uid : String) (w : W) → Same (stored (database.get_user uid w).1) (stored w)
  pub get_user_reads :
      (uid : String) (w : W) → ReadOf (database.get_user uid w).0 ((stored w).users uid)
  pub list_owned_effect :
      (uid : String) (w : W) → Same (stored (database.list_owned uid w).1) (stored w)
  pub list_owned_lists :
      (uid : String) (w : W) (ids : List String)
      → (database.list_owned uid w).0 ≡ ok ids
      → (j : String) → (stored w).owners j ≡ found (ok uid)
      → has ids j ≡ true
