-- ===== src/Push/Store/Documents.antt =====
-- push/store/store.go: the documents that the store reads and writes, as its transactions see them.
-- `users` holds the installations of a user and `owners` the user of a target; `fences` are the
-- requests to delete an account, of which only the status is read. Firestore is the parameter
-- `Database`: what a transaction reads is a `Snapshot`, and what its callback computes from it are the
-- writes to commit, or an error.
use push_dispatch.Base.{String, Bool, Option, List, Map, Time}
use push_dispatch.Push.Errors.{Error, plain, wrapped, Result, ok, err}
use push_dispatch.Push.Installation.{Installation}

-- A read: the document, that there is none, or another failure. A document that cannot be decoded is
-- `found (err e)`.
pub data Fetched (A : Type 0) : Type 0 where
  found : A → Fetched A
  not_found : Fetched A
  unavailable : Error → Fetched A

pub record Snapshot : Type 0 where
  pub users : String → Fetched (Result (Map Installation))
  pub owners : String → Fetched (Result String)
  pub fences : String → Fetched (Option String)

-- `tx.Set` with a merge and `tx.Update` of the installations, and the writes of owners.
pub data Write : Type 0 where
  set_installations : String → Map Installation → Option Time → Write
  set_owner : String → String → Time → Write
  delete_owner : String → Write

-- The fields of `Store` that its transactions read.
pub record Config : Type 0 where
  pub create_users : Bool
  pub has_fences : Bool
  pub has_status_field : Bool
  pub blocked_statuses : Map Bool

abbrev pub Callback : Type 0
Callback = Snapshot → Result (List Write)

pub record Database (W : Type 0) : Type 0 where
  pub transact : Callback → W → Option Error × W
  pub get_user : String → W → Fetched (Result (Map Installation)) × W
  pub list_owned : String → W → Result (List String) × W
  pub now : W → Time × W

abbrev pub installation_not_found : Error
installation_not_found = plain "push installation not found"

abbrev pub user_not_found : Error
user_not_found = plain "push installation user not found"

abbrev pub account_deletion_fenced : Error
account_deletion_fenced = plain "account deletion prevents push registration"

-- A decoded document, with the text that the code puts before an error of the decoder.
abbrev pub decoded {ℓ} : {A : Type ℓ} → String → Result A → Result A
decoded text (ok a) = ok a
decoded text (err e) = err (wrapped text e)
