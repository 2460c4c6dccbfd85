-- ===== src/Push/Store/Ownership/Pruned.antt =====
-- push/store/store.go: what `UpsertPushInstallation` and `HeartbeatPushInstallation` have in common: an
-- installation is written, the others are pruned, and the owners of pruned targets are deleted.
use push_dispatch.Base.{
  ◌≡◌, ◌⊎◌, inl, inr, refl, ap, ◌∙◌, sym, String, Bool, true, false, List, Map, keys, Distinct,
  subst, lookup, insert, lookup-insert, insert-Distinct, has, Bool-cases, str_eq, str_eq_iff, Time,
  if◌then◌else◌, arith,
}
use push_dispatch.Push.Errors.{Result, ok, err}
use push_dispatch.Push.Installation.{Installation}
use push_dispatch.Push.Store.Prune.{prune}
use push_dispatch.Push.Store.Prune.Lookups.{IsRemoval, prune-IsRemoval}
use push_dispatch.Push.Store.Documents.{Fetched, found, not_found, unavailable, Snapshot}
use push_dispatch.Push.Store.Ownership.{
  has_address, holds_in, installations_in, holds, IsOwned, Less, IsChange, change-IsOwned,
}

pub holds-installations :
    (r : Fetched (Result (Map Installation))) (j : String)
    → holds_in r j ≡ has_address (lookup j (installations_in r))
unfolding lookup
holds-installations (found (ok m)) j = refl
holds-installations (found (err e)) j = refl
holds-installations not_found j = refl
holds-installations (unavailable e) j = refl

pub holds_read :
    (r : Fetched (Result (Map Installation))) (m : Map Installation) (j : String)
    → installations_in r ≡ m
    → holds_in r j ≡ has_address (lookup j m)
holds_read r m j e = holds-installations r j ∙ ap (λ n. has_address (lookup j n)) e

-- A target has one owner.
pub holders_eq :
    (d : Snapshot) (u v j : String)
    → IsOwned d
    → holds d u j ≡ true
    → d.owners j ≡ found (ok v)
    → u ≡ v
holders_eq d u v j o h k = ground (arith, o.owned u j h, k)

-- What is left with an address was not removed.
left_address :
    (m : Map Installation) (keep : String) (left : Map Installation) (removed : List String)
    (j : String)
    → IsRemoval m keep left removed
    → has_address (lookup j left) ≡ true
    → (has removed j ≡ false) × (has_address (lookup j m) ≡ true)
left_address m keep left removed j r h = elim (Bool-cases (has removed j)) [
  | inl gone ↦ absurd (ground (arith, r.lookups j, gone, h))
  | inr stays ↦ (stays, rw (r.lookups j, stays) at h)
]

-- A test with a consequence that fails is false.
pub false_of_absurd : (b c : Bool) → (b ≡ true → c ≡ true) → c ≡ false → b ≡ false
false_of_absurd b c f h = ground (arith, f, h)

-- The documents after the writes: `dropped` are the targets whose owners are deleted.
pub record IsPruned (before after : Snapshot) (uid : String) (stored : Map Installation)
    (id : String) (i : Installation) (t : Time) (dropped : List String) : Type 0 where
  pub read : installations_in (before.users uid) ≡ stored
  pub user : after.users uid ≡ found (ok (prune (insert id i stored) id t).0)
  pub others : (u : String) → str_eq uid u ≡ false → after.users u ≡ before.users u
  pub owners :
      (j : String)
      → after.owners j ≡ (
          if has dropped j
          then not_found
          else if str_eq id j
          then found (ok uid)
          else before.owners j)
  pub of_user :
      (j : String)
      → has dropped j ≡ true
      → (has (prune (insert id i stored) id t).1 j ≡ true) × (before.owners j ≡ found (ok uid))
  pub free : (u : String) → str_eq uid u ≡ false → holds before u id ≡ false
  pub named : str_eq uid "" ≡ false

pub pruned-IsOwned :
    (before after : Snapshot) (uid : String) (stored : Map Installation) (id : String)
    (i : Installation) (t : Time) (dropped : List String)
    → IsPruned before after uid stored id i t dropped
    → IsOwned before
    → IsOwned after
pruned-IsOwned before after uid stored id i t dropped p o =
    change-IsOwned before after uid left change o
  where
    left : Map Installation
    left = (prune (insert id i stored) id t).0

    removal : IsRemoval (insert id i stored) id left (prune (insert id i stored) id t).1
    removal =
        (prune-IsRemoval (insert id i stored) id t
          (insert-Distinct id i stored (subst (λ m. Distinct (keys m)) p.read (o.distinct uid)))).0

    change : IsChange before after uid left
    change = record {
      user = p.user;
      others = p.others;
      keys_distinct = removal.distinct;
      own = λ j h.
          let (stays, there) = left_address (insert id i stored) id left _ j removal h in
          let undropped = false_of_absurd _ _ (λ d. (p.of_user j d).0) stays in
          elim (Bool-cases (str_eq id j)) [
            | inl same ↦ (ground (arith, p.owners j), p.named)
            | inr differs ↦
                let held = rw (lookup-insert id j i stored, differs) at there in
                let owned = o.owned uid j (holds_read (before.users uid) stored j p.read ∙ held) in
                (ground (arith, p.owners j, owned), p.named)
          ];
      others_own = λ u j differs h.
          let undropped =
            false_of_absurd _ (str_eq uid u)
              (λ d. (str_eq_iff uid u).1 (sym (holders_eq before u uid j o h (p.of_user j d).1)))
              differs in
          elim (Bool-cases (str_eq id j)) [
            | inl same ↦ absurd (ground (arith, p.free u differs, str_eq_iff id j, h))
            | inr apart ↦ ground (arith, p.owners j)
          ];
    }

-- What the user holds afterwards is the target that was written, or was held before.
pub pruned_own :
    (before after : Snapshot) (uid : String) (stored : Map Installation) (id : String)
    (i : Installation) (t : Time) (dropped : List String) (j : String)
    → IsPruned before after uid stored id i t dropped
    → IsOwned before
    → holds after uid j ≡ true
    → (str_eq id j ≡ true) ⊎ (holds before uid j ≡ true)
pruned_own before after uid stored id i t dropped j p o h =
    let m = insert id i stored in
    let distinct =
      insert-Distinct id i stored (subst (λ n. Distinct (keys n)) p.read (o.distinct uid)) in
    let left =
      left_address m id (prune m id t).0 (prune m id t).1 j (prune-IsRemoval m id t distinct).0
        (rw p.user at h) in
    elim (Bool-cases (str_eq id j)) [
      | inl same ↦ inl same
      | inr differs ↦ inr (
          holds_read (before.users uid) stored j p.read
          ∙ (rw (lookup-insert id j i stored, differs) at left.1))
    ]

pub pruned-Less :
    (before after : Snapshot) (uid : String) (stored : Map Installation) (id : String)
    (i : Installation) (t : Time) (dropped : List String)
    → IsPruned before after uid stored id i t dropped
    → IsOwned before
    → has_address (lookup id stored) ≡ true
    → Less before after
pruned-Less before after uid stored id i t dropped p o held u j h =
    elim (Bool-cases (str_eq uid u)) [
      | inr differs ↦ rw (p.others u differs) at h
      | inl same ↦
          let e : uid ≡ u = (str_eq_iff uid u).0 same in
          subst (λ v. holds before v j ≡ true) e
            (elim (pruned_own before after uid stored id i t dropped j p o
              (subst (λ v. holds after v j ≡ true) (sym e) h)) [
                | inr was ↦ was
                | inl this ↦
                    subst (λ k. holds before uid k ≡ true) ((str_eq_iff id j).0 this)
                      (holds_read (before.users uid) stored id p.read ∙ held)
              ])
    ]
