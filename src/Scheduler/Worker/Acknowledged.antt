-- ===== src/Scheduler/Worker/Acknowledged.antt =====
-- Which targets an attempt acknowledges.
use push_dispatch.Base.{
  ℕ, suc, ◌≡◌, ◌⊎◌, inl, inr, refl, sym, subst, ap, ◌∙◌, ◌++◌, Bool, true, false, ◌&&◌, ◌||◌, not,
  none, some, List, [], ◌∷◌, String, Map, lookup, lookup-insert, lookup-delete, insert, delete, has,
  Distinct, length, str_eq, str_eq_iff, str_eq_refl, if◌then◌else◌, Option-cases, Bool-cases, arith,
}
use push_dispatch.Push.Types.{Target, target_ids, TargetResult}
use push_dispatch.Scheduler.Job.{Job}
use push_dispatch.Scheduler.Worker.{
  Acks, pending_targets, expected_map, same_target, is_final, acknowledge, note_ack, note_acks,
  initial_acks,
}

-- How many of the ids are not completed.
abbrev open_count : List String → List String → ℕ
open_count completed [] = 0
open_count completed (k ∷ ks) =
    if has completed k then open_count completed ks else suc (open_count completed ks)

has-append_one : (l : List String) (k j : String) → has (l ++ (k ∷ [])) j ≡ (has l j || str_eq k j)
has-append_one [] k j = ground arith
has-append_one (x ∷ l) k j = ground (arith, has-append_one l k j)

-- An id that is not in the list does not count.
open_count-absent :
    (completed ks : List String) (k : String)
    → has ks k ≡ false
    → open_count (completed ++ (k ∷ [])) ks ≡ open_count completed ks
open_count-absent completed [] k h = refl
open_count-absent completed (j ∷ ks) k h = ground (
  arith,
  has-append_one completed k j,
  str_eq_iff k j,
  str_eq_iff j k,
  open_count-absent completed ks k,
)

-- Completing an open id of the list takes one off the count.
open_count-append :
    (completed ks : List String) (k : String)
    → Distinct ks
    → has ks k ≡ true
    → has completed k ≡ false
    → suc (open_count (completed ++ (k ∷ [])) ks) ≡ open_count completed ks
open_count-append completed [] k d h o = absurd (ground arith)
open_count-append completed (j ∷ ks) k d h o = ground (
  arith,
  has-append_one completed k j,
  str_eq_iff j k,
  str_eq_iff k j,
  str_eq_refl k,
  open_count-absent completed ks k,
  open_count-append completed ks k d.1,
)

open_count-zero :
    (completed ks : List String) (k : String)
    → open_count completed ks ≡ 0
    → has ks k ≡ true
    → has completed k ≡ true
open_count-zero completed [] k z h = absurd (ground arith)
open_count-zero completed (j ∷ ks) k z h =
    ground (arith, str_eq_iff j k, open_count-zero completed ks k)

-- What holds between two results: an expected id is one of the attempt and is open, and as many are
-- unresolved as are open.
record IsAcking (ids : List String) (a : Acks) : Type 0 where
  expected_open :
      (k : String) (t : Target)
      → lookup k a.expected ≡ some t
      → (t.id ≡ k) × (has ids k ≡ true) × (has a.completed k ≡ false)
  unresolved_open : a.unresolved ≡ open_count a.completed ids

same_target-id : (t u : Target) → same_target t u ≡ true → t.id ≡ u.id
unfolding same_target
same_target-id t u h = ground (arith, str_eq_iff t.id u.id)

acknowledge-IsAcking :
    (ids : List String) (r : TargetResult) (t : Target) (a : Acks)
    → Distinct ids
    → IsAcking ids a
    → lookup t.id a.expected ≡ some t
    → IsAcking ids (acknowledge r t a)
unfolding acknowledge
acknowledge-IsAcking ids r t a d v h = elim (Bool-cases (is_final r)) [
  | inl final ↦ rw final (record {
    expected_open = λ k u e. still_open k u e;
    unresolved_open =
        ground
          (arith, v.unresolved_open, of_t, open_count-append a.completed ids t.id d of_t.1 of_t.2);
  })
  | inr other ↦ rw other (record {
    expected_open =
        λ k u e. v.expected_open k u (ground (arith, lookup-delete t.id k a.expected, e));
    unresolved_open = v.unresolved_open;
  })
]
  where
    of_t : (t.id ≡ t.id) × (has ids t.id ≡ true) × (has a.completed t.id ≡ false)
    of_t = v.expected_open t.id t h

    still_open :
        (k : String) (u : Target)
        → lookup k (delete t.id a.expected) ≡ some u
        → (u.id ≡ k) × (has ids k ≡ true) × (has (a.completed ++ (t.id ∷ [])) k ≡ false)
    still_open k u e = ground (
      arith,
      e,
      lookup-delete t.id k a.expected,
      has-append_one a.completed t.id k,
      v.expected_open k u,
    )

note_acks-IsAcking :
    (ids : List String) (rs : List TargetResult) (a : Acks)
    → Distinct ids
    → IsAcking ids a
    → IsAcking ids (note_acks rs a)
unfolding note_acks note_ack
note_acks-IsAcking ids [] a d v = v
note_acks-IsAcking ids (r ∷ rs) a d v =
    note_acks-IsAcking ids rs (note_ack r a) d (one (Option-cases (lookup r.target.id a.expected)))
  where
    one :
        (lookup r.target.id a.expected ≡ none)
          ⊎ ((t : Target) × (lookup r.target.id a.expected ≡ some t))
        → IsAcking ids (note_ack r a)
    one (inl h) = rw (h, note_ack) v
    one (inr (t, h)) = elim (Bool-cases (same_target t r.target)) [
      | inl same ↦
          rw (h, same, note_ack)
            (acknowledge-IsAcking ids r t a d v
              (subst (λ k. lookup k a.expected ≡ some t) (sym (same_target-id t r.target same)) h))
      | inr other ↦ rw (h, other, note_ack) v
    ]

pending_targets-open :
    (completed : List String) (ts : List Target)
    → open_count completed (target_ids (pending_targets completed ts))
      ≡ length (pending_targets completed ts)
unfolding pending_targets
pending_targets-open completed [] = refl
pending_targets-open completed (t ∷ ts) = ground (arith, pending_targets-open completed ts)

pending_targets-has :
    (completed : List String) (ts : List Target) (k : String)
    → has (target_ids (pending_targets completed ts)) k
      ≡ (has (target_ids ts) k && not (has completed k))
unfolding pending_targets
pending_targets-has completed [] k = refl
pending_targets-has completed (t ∷ ts) k =
    ground (arith, str_eq_iff t.id k, pending_targets-has completed ts k)

pending_targets-Distinct :
    (completed : List String) (ts : List Target)
    → Distinct (target_ids ts)
    → Distinct (target_ids (pending_targets completed ts))
unfolding pending_targets
pending_targets-Distinct completed [] d = tt
pending_targets-Distinct completed (t ∷ ts) d =
    ground (arith, pending_targets-has completed ts t.id, pending_targets-Distinct completed ts d.1)

lookup-expected_map :
    (m : Map Target) (ts : List Target) (k : String) (t : Target)
    → lookup k (expected_map m ts) ≡ some t
    → (lookup k m ≡ some t) ⊎ ((t.id ≡ k) × (has (target_ids ts) k ≡ true))
unfolding expected_map
lookup-expected_map m [] k t h = inl h
lookup-expected_map m (u ∷ ts) k t h = ground (
  arith,
  str_eq_iff u.id k,
  lookup-expected_map (insert u.id u m) ts k t h,
  lookup-insert u.id k u m,
)

initial_acks-IsAcking :
    (job : Job) (ts : List Target)
    → let pending = pending_targets job.completed ts in
      IsAcking (target_ids pending) (initial_acks job pending)
unfolding lookup
initial_acks-IsAcking job ts =
    let pending = pending_targets job.completed ts in
    record {
      expected_open = λ k t h.
          ground
            (arith, lookup-expected_map [] pending k t h, pending_targets-has job.completed ts k);
      unresolved_open = sym (pending_targets-open job.completed ts);
    }

-- What is completed stays completed, and what becomes completed has a final result.
abbrev pub final_for : List TargetResult → String → Bool
final_for [] k = false
final_for (r ∷ rs) k = str_eq r.target.id k && is_final r || final_for rs k

note_ack-completed :
    (r : TargetResult) (a : Acks)
    → ((note_ack r a).completed ≡ a.completed)
      ⊎ (((note_ack r a).completed ≡ a.completed ++ (r.target.id ∷ [])) × (is_final r ≡ true))
unfolding note_ack acknowledge
note_ack-completed r a = elim (Option-cases (lookup r.target.id a.expected)) [
  | inl h ↦ inl (rw (h, note_ack))
  | inr (t, h) ↦ elim (Bool-cases (same_target t r.target)) [
    | inr other ↦ inl (rw (h, other, note_ack))
    | inl same ↦ elim (Bool-cases (is_final r)) [
      | inr other ↦ inl (rw (h, same, other, note_ack))
      | inl final ↦ inr (
        rw (h, same, final, note_ack)
            (ap (λ k. a.completed ++ (k ∷ [])) (same_target-id t r.target same)),
        final,
      )
    ]
  ]
]

-- The completed ids are those that were completed before and some that have a final result.
note_acks-completed :
    (rs : List TargetResult) (a : Acks) (k : String)
    → ((has a.completed k ≡ true) → has (note_acks rs a).completed k ≡ true)
      × (has (note_acks rs a).completed k ≡ true → (has a.completed k || final_for rs k) ≡ true)
unfolding note_acks
note_acks-completed [] a k = ground arith
note_acks-completed (r ∷ rs) a k = ground (
  arith,
  note_ack-completed r a,
  note_acks-completed rs (note_ack r a) k,
  has-append_one a.completed r.target.id k,
)

-- For targets with different ids: with nothing unresolved after the results of an attempt, every
-- target of the recipient is completed.
pub note_acks_complete :
    (job : Job) (ts : List Target) (rs : List TargetResult) (k : String)
    → Distinct (target_ids ts)
    → (note_acks rs (initial_acks job (pending_targets job.completed ts))).unresolved ≡ 0
    → has (target_ids ts) k ≡ true
    → has (note_acks rs (initial_acks job (pending_targets job.completed ts))).completed k ≡ true
note_acks_complete job ts rs k d z h =
    let pending = pending_targets job.completed ts in
    let start = initial_acks job pending in
    let v =
      note_acks-IsAcking (target_ids pending) rs start (pending_targets-Distinct job.completed ts d)
        (initial_acks-IsAcking job ts) in
    elim (Bool-cases (has job.completed k)) [
      | inl old ↦ (note_acks-completed rs start k).0 old
      | inr new ↦
          open_count-zero (note_acks rs start).completed (target_ids pending) k
            (sym v.unresolved_open ∙ z) (ground (arith, pending_targets-has job.completed ts k))
    ]

-- A target that is completed after the results was completed before, or the answer has a result for
-- it that is a success or a failure for good.
pub note_acks_sound :
    (rs : List TargetResult) (a : Acks) (k : String)
    → has (note_acks rs a).completed k ≡ true
    → (has a.completed k || final_for rs k) ≡ true
note_acks_sound rs a k h = (note_acks-completed rs a k).1 h
