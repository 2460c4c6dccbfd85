-- ===== src/Push/Store/Active.antt =====
-- push/store/targets.go, `ActiveTargets`: which targets it lists, and in which order.
use push_dispatch.Base.{
  ◌≡◌, inl, inr, refl, ap, subst, sym, ◌∙◌, String, Bool, false, ◌&&◌, ◌||◌, Option, none, some,
  is_some, List, [], ◌∷◌, Map, lookup, keys, has, has-keys, Distinct, All, Time, str_eq, str_eq_iff,
  str_lt, insert_sorted, sort, IsSorted, sort-IsSorted, Bool-cases, arith,
}
use push_dispatch.Push.Types.{Target, target_ids}
use push_dispatch.Push.Installation.{Installation, active_at}
use push_dispatch.Push.Errors.{Result, ok, err}
use push_dispatch.Push.Store.Documents.{
  Fetched, found, not_found, unavailable, Snapshot, Config, Database,
}
use push_dispatch.Push.Store.Operations.{
  target_of, target_if_active, targets_among, active_targets_of, active_answer, active_targets,
}
use push_dispatch.Push.Store.Laws.{IsFirestore, ReadOf-found, ReadOf-not_found}
use push_dispatch.Push.Store.Ownership.{installations_in}
use push_dispatch.Push.Store.Prune.Lookups.{has-insert_sorted, has-sort, str_lt-IsOrder}

abbrev pub is_active : Time → Option Installation → Bool
is_active now none = false
is_active now (some i) = active_at i now

insert_sorted-Distinct :
    (x : String) (ys : List String)
    → has ys x ≡ false
    → Distinct ys
    → Distinct (insert_sorted str_lt x ys)
unfolding insert_sorted
insert_sorted-Distinct x [] n d = (refl, tt)
insert_sorted-Distinct x (y ∷ ys) n d = elim (Bool-cases (str_lt y x)) [
  | inl later ↦ rw later (
    ground (arith, has-insert_sorted x y ys, str_eq_iff x y, str_eq_iff y x),
    insert_sorted-Distinct x ys (ground arith) d.1,
  )
  | inr here ↦ rw here (n, d)
]

sort-Distinct : (xs : List String) → Distinct xs → Distinct (sort str_lt xs)
unfolding sort
sort-Distinct [] d = tt
sort-Distinct (x ∷ xs) d =
    insert_sorted-Distinct x (sort str_lt xs) (has-sort xs x ∙ d.0) (sort-Distinct xs d.1)

-- The target of one id, if its installation is active.
has-target_if_active :
    (uid : String) (now : Time) (id : String) (o : Option Installation) (rest : List Target)
    (k : String)
    → has (target_ids (target_if_active uid now id o rest)) k
      ≡ (str_eq id k && is_active now o || has (target_ids rest) k)
has-target_if_active uid now id none rest k = ground arith
has-target_if_active uid now id (some i) rest k = ground arith

All-target_if_active :
    (P : String → Type 0) (uid : String) (now : Time) (id : String) (o : Option Installation)
    (rest : List Target)
    → P id
    → All P (target_ids rest)
    → All P (target_ids (target_if_active uid now id o rest))
All-target_if_active P uid now id none rest p a = a
All-target_if_active P uid now id (some i) rest p a = elim (Bool-cases (active_at i now)) [
  | inl h ↦ rw h (p, a)
  | inr h ↦ rw h a
]

-- The ids of the targets are the ids of the list with an active installation.
has-targets_among :
    (uid : String) (now : Time) (m : Map Installation) (ids : List String) (k : String)
    → has (target_ids (targets_among uid now m ids)) k ≡ (has ids k && is_active now (lookup k m))
unfolding targets_among
has-targets_among uid now m [] k = refl
has-targets_among uid now m (id ∷ ids) k = ground (
  arith,
  has-target_if_active uid now id (lookup id m) (targets_among uid now m ids) k,
  str_eq_iff id k,
  has-targets_among uid now m ids k,
)

All-targets_among :
    (P : String → Type 0) (uid : String) (now : Time) (m : Map Installation) (ids : List String)
    → All P ids
    → All P (target_ids (targets_among uid now m ids))
unfolding targets_among
All-targets_among P uid now m [] a = tt
All-targets_among P uid now m (id ∷ ids) a =
    All-target_if_active P uid now id (lookup id m) _ a.0 (All-targets_among P uid now m ids a.1)

-- The order of the ids, and that they are different, are the list's.
target_if_active-IsSorted :
    (uid : String) (now : Time) (id : String) (o : Option Installation) (rest : List Target)
    → All (λ k. str_lt k id ≡ false) (target_ids rest)
    → IsSorted str_lt (target_ids rest)
    → IsSorted str_lt (target_ids (target_if_active uid now id o rest))
target_if_active-IsSorted uid now id none rest a s = s
target_if_active-IsSorted uid now id (some i) rest a s = elim (Bool-cases (active_at i now)) [
  | inl h ↦ rw h (a, s)
  | inr h ↦ rw h s
]

targets_among-IsSorted :
    (uid : String) (now : Time) (m : Map Installation) (ids : List String)
    → IsSorted str_lt ids
    → IsSorted str_lt (target_ids (targets_among uid now m ids))
unfolding targets_among
targets_among-IsSorted uid now m [] s = tt
targets_among-IsSorted uid now m (id ∷ ids) s =
    target_if_active-IsSorted uid now id (lookup id m) _ (All-targets_among _ uid now m ids s.0)
      (targets_among-IsSorted uid now m ids s.1)

target_if_active-Distinct :
    (uid : String) (now : Time) (id : String) (o : Option Installation) (rest : List Target)
    → has (target_ids rest) id ≡ false
    → Distinct (target_ids rest)
    → Distinct (target_ids (target_if_active uid now id o rest))
target_if_active-Distinct uid now id none rest a d = d
target_if_active-Distinct uid now id (some i) rest a d = elim (Bool-cases (active_at i now)) [
  | inl h ↦ rw h (a, d)
  | inr h ↦ rw h d
]

targets_among-Distinct :
    (uid : String) (now : Time) (m : Map Installation) (ids : List String)
    → Distinct ids
    → Distinct (target_ids (targets_among uid now m ids))
unfolding targets_among
targets_among-Distinct uid now m [] d = tt
targets_among-Distinct uid now m (id ∷ ids) d =
    target_if_active-Distinct uid now id (lookup id m) _
      (ground (arith, has-targets_among uid now m ids id, d.0))
      (targets_among-Distinct uid now m ids d.1)

-- A target of the list is made of the installation with its id.
abbrev pub IsTargetOf : String → Map Installation → Target → Type 0
IsTargetOf uid m t = (i : Installation) × (lookup t.id m ≡ some i) × (t ≡ target_of uid t.id i)

target_if_active-IsTargetOf :
    (uid : String) (now : Time) (m : Map Installation) (id : String) (o : Option Installation)
    (rest : List Target)
    → lookup id m ≡ o
    → All (IsTargetOf uid m) rest
    → All (IsTargetOf uid m) (target_if_active uid now id o rest)
target_if_active-IsTargetOf uid now m id none rest e a = a
target_if_active-IsTargetOf uid now m id (some i) rest e a = elim (Bool-cases (active_at i now)) [
  | inl h ↦ rw h ((i, e, refl), a)
  | inr h ↦ rw h a
]

targets_among-IsTargetOf :
    (uid : String) (now : Time) (m : Map Installation) (ids : List String)
    → All (IsTargetOf uid m) (targets_among uid now m ids)
unfolding targets_among
targets_among-IsTargetOf uid now m [] = tt
targets_among-IsTargetOf uid now m (id ∷ ids) =
    target_if_active-IsTargetOf uid now m id (lookup id m) _ refl
      (targets_among-IsTargetOf uid now m ids)

active_keys :
    (now : Time) (m : Map Installation) (k : String)
    → (has (sort str_lt (keys m)) k && is_active now (lookup k m)) ≡ is_active now (lookup k m)
active_keys now m k = by_lookup (lookup k m) (has-sort (keys m) k ∙ has-keys k m)
  where
    by_lookup :
        (o : Option Installation) {b : Bool}
        → b ≡ is_some o
        → (b && is_active now o) ≡ is_active now o
    by_lookup none h = rw h
    by_lookup (some i) h = rw h

-- The targets that `ActiveTargets` makes of the installations of a user.
pub record IsListing (uid : String) (now : Time) (m : Map Installation) (ts : List Target)
    : Type 0 where
  pub exact : (k : String) → has (target_ids ts) k ≡ is_active now (lookup k m)
  pub made : All (IsTargetOf uid m) ts
  pub distinct : Distinct (target_ids ts)
  pub ordered : IsSorted str_lt (target_ids ts)

pub active_targets-IsListing :
    (uid : String) (now : Time) (m : Map Installation)
    → Distinct (keys m)
    → IsListing uid now m (active_targets_of uid now m)
unfolding active_targets_of
active_targets-IsListing uid now m d = record {
  exact = λ k. has-targets_among uid now m (sort str_lt (keys m)) k ∙ active_keys now m k;
  made = targets_among-IsTargetOf uid now m (sort str_lt (keys m));
  distinct = targets_among-Distinct uid now m _ (sort-Distinct (keys m) d);
  ordered = targets_among-IsSorted uid now m _ (sort-IsSorted str_lt (keys m) str_lt-IsOrder);
}

ok-injective : {a b : List Target} → ok a ≡ ok b → a ≡ b
ok-injective h = ground arith

nothing-active : (uid : String) (now : Time) → active_targets_of uid now [] ≡ []
unfolding active_targets_of targets_among sort
nothing-active uid now = refl

module _ {W : Type 0} (database : Database W) (config : Config) (stored : W → Snapshot)
    (laws : IsFirestore database stored) where
  -- For a Firestore that does what it documents: where `ActiveTargets` succeeds on installations with different ids, it lists exactly the active
  -- ones of the user's document, or none if there is no document: each once with its address and the
  -- user's id, in the order of their ids.
  pub active_targets_exact :
      (uid : String) (now : Time) (w : W) {ts : List Target}
      → Distinct (keys (installations_in ((stored w).users uid)))
      → (active_targets database config uid now w).0 ≡ ok ts
      → IsListing uid now (installations_in ((stored w).users uid)) ts
  unfolding active_targets
  active_targets_exact uid now w {ts} d h = by_read (database.get_user uid w).0 refl h
    where
      by_map :
          (m : Map Installation)
          → installations_in ((stored w).users uid) ≡ m
          → active_targets_of uid now m ≡ ts
          → IsListing uid now (installations_in ((stored w).users uid)) ts
      by_map m e f = subst (IsListing uid now (installations_in ((stored w).users uid))) f (
          subst (λ n. IsListing uid now n (active_targets_of uid now m)) (sym e)
            (active_targets-IsListing uid now m (subst (λ n. Distinct (keys n)) e d)))

      by_read :
          (v : Fetched (Result (Map Installation)))
          → (database.get_user uid w).0 ≡ v
          → active_answer uid now v ≡ ok ts
          → IsListing uid now (installations_in ((stored w).users uid)) ts
      by_read (found (ok m)) e f =
          by_map m (ap installations_in (ReadOf-found _ _ (ok m) (laws.get_user_reads uid w) e))
            (ok-injective f)
      by_read (found (err x)) e f = absurd (ground arith)
      by_read not_found e f =
          by_map [] (ap installations_in (ReadOf-not_found _ _ (laws.get_user_reads uid w) e))
            (nothing-active uid now ∙ ok-injective f)
      by_read (unavailable x) e f = absurd (ground arith)
