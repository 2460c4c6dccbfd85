-- ===== src/Push/Store/Ownership.antt =====
-- push/store/store.go: who owns a target. An installation with an address can receive messages; its
-- id, a hash of the address, is the key of the document with the owner.
pub mod Writes
pub mod Pruned
pub mod Updates
pub mod Beats
pub mod Freed
pub mod Moves
pub mod Runs
use push_dispatch.Base.{
  ◌≡◌, inl, inr, refl, ◌∙◌, sym, String, Bool, true, false, not, Option, none, some, List, [], Map,
  subst, lookup, keys, Distinct, Bool-cases, str_eq, str_eq_iff, if◌then◌else◌, arith,
}
use push_dispatch.Push.Errors.{Result, ok, err, ◌>>=◌, Ensures, Ensures-bind, Ensures-mono}
use push_dispatch.Push.Installation.{Installation, address_of}
use push_dispatch.Push.Store.Documents.{
  Fetched, found, not_found, unavailable, Snapshot, Write, Callback,
}
use push_dispatch.Push.Store.Laws.{Same, IsCommit, apply_writes, Reads}

-- Whether the user has an installation with the id and an address.
abbrev pub has_address : Option Installation → Bool
has_address none = false
has_address (some i) = not (str_eq (address_of i) "")

abbrev pub holds_in : Fetched (Result (Map Installation)) → String → Bool
holds_in (found (ok m)) j = has_address (lookup j m)
holds_in (found (err e)) j = false
holds_in not_found j = false
holds_in (unavailable e) j = false

abbrev pub installations_in : Fetched (Result (Map Installation)) → Map Installation
installations_in (found (ok m)) = m
installations_in (found (err e)) = []
installations_in not_found = []
installations_in (unavailable e) = []

abbrev pub holds : Snapshot → String → String → Bool
holds d u j = holds_in (d.users u) j

-- A user who holds a target is its owner, and has an id. Maps have different keys.
pub record IsOwned (d : Snapshot) : Type 0 where
  pub owned :
      (u j : String) → holds d u j ≡ true → (d.owners j ≡ found (ok u)) × (str_eq u "" ≡ false)
  pub distinct : (u : String) → Distinct (keys (installations_in (d.users u)))

pub Same-IsOwned : (a b : Snapshot) → Same a b → IsOwned b → IsOwned a
Same-IsOwned a b same v = record {
  owned = λ u j h. let k = v.owned u j (rw (same.users u) at h) in (same.owners j ∙ k.0, k.1);
  distinct = λ u. rw (same.users u) (v.distinct u);
}

-- A callback that returns writes leaves the owners right.
abbrev pub Leaves : Snapshot → Result (List Write) → Type 0
Leaves d r = Ensures (λ ws. IsOwned (apply_writes ws d)) r

abbrev pub Keeps : Callback → Type 0
Keeps f = (s d : Snapshot) → IsOwned d → Reads s d → Leaves d (f s)

pub commit-IsOwned :
    (f : Callback) (before after : Snapshot)
    → Keeps f
    → IsCommit f before after
    → IsOwned before
    → IsOwned after
commit-IsOwned f before after keeps c o =
    Same-IsOwned after (apply_writes c.writes before) c.made
      (subst (Leaves before) c.are_writes (keeps c.reads before o c.are_reads))

-- A callback after which nobody holds a target that he did not hold before.
abbrev pub Less : Snapshot → Snapshot → Type 0
Less before after = (u j : String) → holds after u j ≡ true → holds before u j ≡ true

abbrev pub Lessens : Snapshot → Result (List Write) → Type 0
Lessens d r = Ensures (λ ws. IsOwned (apply_writes ws d) × Less d (apply_writes ws d)) r

abbrev pub Shrinks : Callback → Type 0
Shrinks f = (s d : Snapshot) → IsOwned d → Reads s d → Lessens d (f s)

pub Lessens-bind {ℓ} :
    {A : Type ℓ} (d : Snapshot) (m : Result A) (f : A → Result (List Write))
    → ((a : A) → m ≡ ok a → Lessens d (f a))
    → Lessens d (m >>= f)
Lessens-bind d m f k =
    Ensures-bind (λ ws. IsOwned (apply_writes ws d) × Less d (apply_writes ws d)) m f k

pub Shrinks-Keeps : (f : Callback) → Shrinks f → Keeps f
Shrinks-Keeps f shrinks s d o reads =
    Ensures-mono _ (λ ws. IsOwned (apply_writes ws d)) (λ ws both. both.0) (f s)
      (shrinks s d o reads)

-- A change of one user's installations after which that user owns what the user holds, and the
-- owners of what others hold are as before.
pub record IsChange (before after : Snapshot) (uid : String) (m : Map Installation) : Type 0 where
  pub user : after.users uid ≡ found (ok m)
  pub others : (u : String) → str_eq uid u ≡ false → after.users u ≡ before.users u
  pub keys_distinct : Distinct (keys m)
  pub own :
      (j : String)
      → has_address (lookup j m) ≡ true
      → (after.owners j ≡ found (ok uid)) × (str_eq uid "" ≡ false)
  pub others_own :
      (u j : String)
      → str_eq uid u ≡ false
      → holds before u j ≡ true
      → after.owners j ≡ before.owners j

abbrev IsHolder : Snapshot → String → Type 0
IsHolder d u =
    (j : String) → holds d u j ≡ true → (d.owners j ≡ found (ok u)) × (str_eq u "" ≡ false)

pub change-IsOwned :
    (before after : Snapshot) (uid : String) (m : Map Installation)
    → IsChange before after uid m
    → IsOwned before
    → IsOwned after
change-IsOwned before after uid m c v = record {
  owned = λ u j h. elim (Bool-cases (str_eq uid u)) [
    | inl same ↦
        subst (IsHolder after) ((str_eq_iff uid u).0 same) (λ i k. c.own i (rw c.user at k)) j h
    | inr differs ↦
        let o = v.owned u j (rw (c.others u differs) at h) in
        (c.others_own u j differs (rw (c.others u differs) at h) ∙ o.0, o.1)
  ];
  distinct = λ u. elim (Bool-cases (str_eq uid u)) [
    | inl same ↦
        subst (λ v. Distinct (keys (installations_in (after.users v)))) ((str_eq_iff uid u).0 same)
          (rw c.user c.keys_distinct)
    | inr differs ↦ rw (c.others u differs) (v.distinct u)
  ];
}
