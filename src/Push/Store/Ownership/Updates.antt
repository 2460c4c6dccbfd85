-- ===== src/Push/Store/Ownership/Updates.antt =====
-- push/store/store.go: heartbeats, deliveries and disabled installations keep the owners right.
use push_dispatch.Base.{
  ◌≡◌, inl, inr, refl, ◌∙◌, subst, String, Bool, true, false, ◌||◌, Option, none, some, List, [],
  ◌∷◌, Map, lookup, insert, lookup-insert, insert-Distinct, keys, Distinct, Bool-cases,
  Option-cases, str_eq, str_eq_iff, str_eq_refl, Time, arith,
}
use push_dispatch.Push.Errors.{Result, ok, err, ◌>>◌, refuse_if}
use push_dispatch.Push.Types.{TargetType, fid, token, other}
use push_dispatch.Push.Installation.{Installation, address_by}
use push_dispatch.Push.Store.Prune.{retire, retired}
use push_dispatch.Push.Store.Documents.{
  Fetched, found, not_found, unavailable, Snapshot, set_installations, decoded,
  installation_not_found,
}
use push_dispatch.Push.Store.Callbacks.{
  mark, skips_mark, mark_all, mark_body, retire_all, disable_body, disable_writes, disable_read,
  mark_writes, mark_read,
}
use push_dispatch.Push.Store.Laws.{apply_write, Reads, ReadOf-found}
use push_dispatch.Push.Store.Ownership.{
  has_address, holds, installations_in, IsOwned, change-IsOwned, Shrinks, Less, Lessens,
  Lessens-bind,
}
use push_dispatch.Push.Store.Ownership.Pruned.{holds-installations}

-- Of the installations of a user, only ones that had an address have one.
pub record IsLess (m n : Map Installation) : Type 0 where
  pub less : (j : String) → has_address (lookup j n) ≡ true → has_address (lookup j m) ≡ true
  pub keys_distinct : Distinct (keys n)

pub less-IsOwned :
    (d : Snapshot) (uid : String) (n : Map Installation) (t : Option Time)
    → IsLess (installations_in (d.users uid)) n
    → IsOwned d
    → IsOwned (apply_write (set_installations uid n t) d)
less-IsOwned d uid n t l o =
    change-IsOwned d _ uid n
      (record {
        user = rw (str_eq_refl uid);
        others = λ u differs. rw differs;
        keys_distinct = l.keys_distinct;
        own = λ j h. o.owned uid j (holds-installations (d.users uid) j ∙ l.less j h);
        others_own = λ u j differs h. refl;
      })
      o

pub IsLess-Less :
    (d : Snapshot) (uid : String) (n : Map Installation) (t : Option Time)
    → IsLess (installations_in (d.users uid)) n
    → Less d (apply_write (set_installations uid n t) d)
IsLess-Less d uid n t l u j h = elim (Bool-cases (str_eq uid u)) [
  | inl same ↦
      subst (λ v. holds d v j ≡ true) ((str_eq_iff uid u).0 same)
        (holds-installations (d.users uid) j ∙ l.less j (rw same at h))
  | inr differs ↦ rw differs at h
]

-- One installation of which only one that had an address has one.
pub insert-IsLess :
    (m n : Map Installation) (id : String) (i i' : Installation)
    → lookup id n ≡ some i
    → (has_address (some i') ≡ true → has_address (some i) ≡ true)
    → IsLess m n
    → IsLess m (insert id i' n)
insert-IsLess m n id i i' at f l = record {
  less = λ j h. elim (Bool-cases (str_eq id j)) [
    | inl same ↦ l.less j (
        subst (λ k. has_address (lookup k n) ≡ true) ((str_eq_iff id j).0 same)
          (rw at (f (rw (lookup-insert id j i' n, same) at h))))
    | inr differs ↦ l.less j (rw (lookup-insert id j i' n, differs) at h)
  ];
  keys_distinct = insert-Distinct id i' n l.keys_distinct;
}

pub retired-address : (t : Time) (i : Installation) → has_address (some (retired t i)) ≡ false
unfolding address_by str_eq
retired-address t i = rw (empty (i.target_type)) refl
  where
    empty : (k : TargetType) → address_by k "" "" ≡ ""
    empty fid = refl
    empty token = refl
    empty (other text) = refl

pub retire-IsLess :
    (m n : Map Installation) (id : String) (t : Time) → IsLess m n → IsLess m (retire n id t).0
unfolding retire
retire-IsLess m n id t l = elim (Option-cases (lookup id n)) [
  | inl absent ↦ rw (absent, retire) l
  | inr (i, at) ↦
      rw (at, retire)
        (insert-IsLess m n id i (retired t i) at
          (λ h. absurd (ground (arith, retired-address t i, h))) l)
]

retire_all-IsLess :
    (m : Map Installation) (ids : List String) (t : Time) (n : Map Installation) (b : Bool)
    → IsLess m n
    → IsLess m (retire_all ids t (n, b)).0
unfolding retire_all
retire_all-IsLess m [] t n b l = l
retire_all-IsLess m (id ∷ ids) t n b l =
    retire_all-IsLess m ids t (retire n id t).0 (b || (retire n id t).1) (retire-IsLess m n id t l)

mark_all-IsLess :
    (m : Map Installation) (ids : List String) (key value : String) (n : Map Installation)
    (b : Bool)
    → IsLess m n
    → IsLess m (mark_all ids key value (n, b)).0
unfolding mark_all
mark_all-IsLess m [] key value n b l = l
mark_all-IsLess m (id ∷ ids) key value n b l = elim (Option-cases (lookup id n)) [
  | inl absent ↦ rw absent (mark_all-IsLess m ids key value n b l)
  | inr (i, at) ↦ elim (Bool-cases (skips_mark key value (some i))) [
    | inl skips ↦ rw (at, skips) (mark_all-IsLess m ids key value n b l)
    | inr marks ↦
        rw (at, marks)
          (mark_all-IsLess m ids key value _ true
            (insert-IsLess m n id i (mark key value i) at (λ h. h) l))
  ]
]

pub stored-eq :
    (s d : Snapshot) (uid : String) (r : Result (Map Installation)) (m : Map Installation)
    (text : String)
    → Reads s d
    → s.users uid ≡ found r
    → decoded text r ≡ ok m
    → installations_in (d.users uid) ≡ m
stored-eq s d uid (ok n) m text r h k = rw (ReadOf-found _ _ (ok n) (r.users uid) h) (ground arith)
stored-eq s d uid (err e) m text r h k = absurd (ground arith)

pub stored-IsLess :
    (d : Snapshot) (uid : String) (m : Map Installation)
    → IsOwned d
    → installations_in (d.users uid) ≡ m
    → IsLess (installations_in (d.users uid)) m
stored-IsLess d uid m o e =
    subst (IsLess (installations_in (d.users uid))) e
      (record { less = λ j h. h; keys_distinct = o.distinct uid })

-- The documents after a write of the installations that were read.
less-Lessens :
    (s d : Snapshot) (uid : String) (r : Result (Map Installation)) (m n : Map Installation)
    (text : String) (t : Option Time)
    → IsOwned d
    → Reads s d
    → s.users uid ≡ found r
    → decoded text r ≡ ok m
    → (IsLess (installations_in (d.users uid)) m → IsLess (installations_in (d.users uid)) n)
    → Lessens d (ok (set_installations uid n t ∷ []))
less-Lessens s d uid r m n text t o reads h k l =
    let less = l (stored-IsLess d uid m o (stored-eq s d uid r m text reads h k)) in
    (less-IsOwned d uid n t less o, IsLess-Less d uid n t less)

refuse-Lessens :
    (d : Snapshot) (b : Bool) → IsOwned d → Lessens d (refuse_if b installation_not_found >> ok [])
refuse-Lessens d true o = tt
refuse-Lessens d false o = (o, λ u j h. h)

pub disable_body-Shrinks :
    (uid : String) (ids : List String) (t : Time) (b : Bool) → Shrinks (disable_body uid ids t b)
unfolding disable_body
disable_body-Shrinks uid ids t b s d o reads = by_read (s.users uid) refl
  where
    by_match :
        (r : Result (Map Installation)) (m : Map Installation) (state : Map Installation × Bool)
        → s.users uid ≡ found r
        → decoded "decode push installations" r ≡ ok m
        → (IsLess (installations_in (d.users uid)) m
            → IsLess (installations_in (d.users uid)) state.0)
        → Lessens d (disable_writes uid t b state)
    by_match r m (n, true) h k l = less-Lessens s d uid r m n _ (some t) o reads h k l
    by_match r m (n, false) h k l = refuse-Lessens d b o

    by_read :
        (v : Fetched (Result (Map Installation)))
        → s.users uid ≡ v
        → Lessens d (disable_read uid ids t b v)
    by_read not_found h = refuse-Lessens d b o
    by_read (unavailable e) h = tt
    by_read (found r) h = Lessens-bind d _ _ (λ m k.
        by_match r m _ h k (retire_all-IsLess (installations_in (d.users uid)) ids t m false))

pub mark_body-Shrinks :
    (uid : String) (ids : List String) (key value : String) → Shrinks (mark_body uid ids key value)
unfolding mark_body
mark_body-Shrinks uid ids key value s d o reads = by_read (s.users uid) refl
  where
    by_mark :
        (r : Result (Map Installation)) (m : Map Installation) (state : Map Installation × Bool)
        → s.users uid ≡ found r
        → decoded "decode push installations for delivery marker" r ≡ ok m
        → (IsLess (installations_in (d.users uid)) m
            → IsLess (installations_in (d.users uid)) state.0)
        → Lessens d (ok (mark_writes uid state))
    by_mark r m (n, true) h k l = less-Lessens s d uid r m n _ none o reads h k l
    by_mark r m (n, false) h k l = (o, λ u j h. h)

    by_read :
        (v : Fetched (Result (Map Installation)))
        → s.users uid ≡ v
        → Lessens d (mark_read uid ids key value v)
    by_read not_found h = (o, λ u j h. h)
    by_read (unavailable e) h = tt
    by_read (found r) h = Lessens-bind d _ _ (λ m k.
        by_mark r m _ h k (mark_all-IsLess (installations_in (d.users uid)) ids key value m false))
