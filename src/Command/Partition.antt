-- ===== src/Command/Partition.antt =====
-- cmd/push-dispatch/main.go: which shards a task of Cloud Run processes.
use push_dispatch.Base.{
  ℕ, zero, suc, ◌+◌, ◌-◌, ◌%◌, ◌≤◌, ◌<◌, ◌≡◌, refl, inl, inr, ap, subst, sym, ◌∙◌, List, [], ◌∷◌,
  Option, none, some, Bool, true, false, ◌&&◌, pos, negsuc, ◌==◌, ltb, leb, str_eq, Bool-cases,
  if◌then◌else◌, arith,
}
use native.Mathlib.Nat.{mod-eq_of_lt, add-mod, add-mod_right, mod-eq-sub-mod}
use push_dispatch.Push.Errors.{Error, ok}
use push_dispatch.Scheduler.Job.{shard_count}
use push_dispatch.Scheduler.Schedule.{Environment}
use push_dispatch.Scheduler.Worker.{Services}
use push_dispatch.Scheduler.Tick.{JobStore}
use push_dispatch.Command.{Host, Flags, shard_range, task_range, for_shards, tick_shard, run_tick}

mod_of_sum : (i e n : ℕ) → i < n → e < n → (i + e) % n ≡ i → e ≡ 0
mod_of_sum i e n h k q = elim (Bool-cases (ltb (i + e) n)) [
  | inl below ↦ let small : i + e < n = ground arith in ground (arith, mod-eq_of_lt small)
  | inr above ↦
      let large : n ≤ i + e = ground arith in
      let rest : i + e - n < n = ground arith in
      ground (arith, mod-eq-sub-mod large, mod-eq_of_lt rest)
]

-- Between two numbers with the same remainder that are closer than the divisor there is no third.
mod_between : (a e n i : ℕ) → i < n → e < n → (a + e) % n ≡ i → a % n ≡ i → e ≡ 0
mod_between a e n i h k q r =
    mod_of_sum i e n h k (sym (add-mod a e n ∙ rw (r, mod-eq_of_lt k) refl) ∙ q)

-- The shards of the task `i` of `n`, in order: those with the remainder `i`.
abbrev pub range : ℕ → ℕ → List ℕ
range a zero = []
range a (suc c) = a ∷ range (a + 1) c

abbrev pub with_remainder : ℕ → ℕ → List ℕ → List ℕ
with_remainder i n [] = []
with_remainder i n (k ∷ ks) =
    let rest = with_remainder i n ks in if k % n == i then k ∷ rest else rest

abbrev pub shards_of : ℕ → ℕ → List ℕ
shards_of i n = with_remainder i n (range 0 shard_count)

apart : {e : ℕ} (t : Bool) → (t ≡ true → suc e ≡ 0) → t ≡ false
apart true f = absurd (omega (arith, f refl))
apart false f = refl

module _ {W : Type 0} (visit : ℕ → W → Option Error × W) where
  -- Visits of the shards of a list, up to the first error.
  abbrev pub visit_all : List ℕ → W → Option Error × W
  visit_all [] w = (none, w)
  visit_all (k ∷ ks) w =
      let (e, w₁) = visit k w in
      let rest = visit_all ks w₁ in elim e [ some e ↦ (some e, w₁) | none ↦ rest ]

  for_shards-here :
      (fuel a last n : ℕ) (ks : List ℕ) (w : W)
      → ltb last a ≡ false
      → ((w' : W) → for_shards visit fuel (a + n) last n w' ≡ visit_all ks w')
      → for_shards visit (suc fuel) a last n w ≡ visit_all (a ∷ ks) w
  unfolding for_shards
  for_shards-here fuel a last n ks w before f = rw (before, for_shards) (by_answer (visit a w))
    where
      by_answer :
          (r : Option Error × W)
          → (elim r.0 [ some e ↦ (some e, r.1) | none ↦ for_shards visit fuel (a + n) last n r.1 ])
            ≡ (elim r.0 [ some e ↦ (some e, r.1) | none ↦ visit_all ks r.1 ])
      by_answer (some e, w') = refl
      by_answer (none, w') = f w'

  -- From `a` on, where `b` is the next shard of the task.
  for_shards-with_remainder :
      (c a e b i n fuel last : ℕ) (w : W)
      → i < n
      → e < n
      → b ≡ a + e
      → b % n ≡ i
      → a + c ≡ last + 1
      → c ≤ fuel
      → for_shards visit fuel b last n w ≡ visit_all (with_remainder i n (range a c)) w
  unfolding for_shards
  for_shards-with_remainder zero a e b i n zero last w h k next q l f = refl
  for_shards-with_remainder zero a e b i n (suc fuel) last w h k next q l f =
      let after : ltb last b ≡ true = ground arith in rw (after, for_shards) refl
  for_shards-with_remainder (suc c) a e b i n zero last w h k next q l f = absurd (ground arith)
  for_shards-with_remainder (suc c) a zero b i n (suc fuel) last w h k next q l f =
      let here : b ≡ a = ground arith in
      let before : ltb last a ≡ false = ground arith in
      let mine : (a % n == i) ≡ true = ground (arith, ap (λ x. x % n) here) in
      let later : (a + n) % n ≡ i = ground (arith, add-mod_right a n) in
      subst
        (λ x.
          for_shards visit (suc fuel) x last n w
          ≡ visit_all (with_remainder i n (range a (suc c))) w)
        (sym here)
        (rw mine (
          for_shards-here fuel a last n (with_remainder i n (range (a + 1) c)) w before (λ w'.
            for_shards-with_remainder c (a + 1) (n - 1) (a + n) i n fuel last w' h (omega arith)
              (omega arith) later (omega arith) (omega arith))))
  for_shards-with_remainder (suc c) a (suc e) b i n (suc fuel) last w h k next q l f =
      let other : (a % n == i) ≡ false =
        apart (a % n == i)
          (λ r. mod_between a (suc e) n i h k (sym (ap (λ x. x % n) next) ∙ q) (ground arith)) in
      rw other (
        for_shards-with_remainder c (a + 1) e b i n (suc fuel) last w h (omega arith) (omega arith)
          q (omega arith) (omega arith))

-- How often a shard is in a list.
abbrev pub times_in : ℕ → List ℕ → ℕ
times_in k [] = 0
times_in k (j ∷ js) = let rest = times_in k js in if j == k then rest + 1 else rest

times_in-with_remainder :
    (i n k : ℕ) (ks : List ℕ)
    → times_in k (with_remainder i n ks) ≡ (if k % n == i then times_in k ks else 0)
times_in-with_remainder i n k [] = ground arith
times_in-with_remainder i n k (j ∷ ks) = elim (Bool-cases (j == k)) [
  | inl same ↦
      let e : j ≡ k = ground arith in
      ground (arith, times_in-with_remainder i n k ks, ap (λ x. x % n) e)
  | inr other ↦ ground (arith, times_in-with_remainder i n k ks)
]

times_in-range : (k a c : ℕ) → times_in k (range a c) ≡ (if leb a k && ltb k (a + c) then 1 else 0)
times_in-range k a zero = ground arith
times_in-range k a (suc c) = ground (arith, times_in-range k (a + 1) c)

times_in-all : (k : ℕ) → k < shard_count → times_in k (range 0 shard_count) ≡ 1
times_in-all k h = times_in-range k 0 shard_count ∙ ground arith

task_range_valid :
    (i n : ℕ)
    → 1 ≤ n
    → n ≤ shard_count
    → i < n
    → task_range (some (pos i)) (some (pos n)) ≡ ok (i, shard_count - 1, n)
task_range_valid i n h k l = ground arith

module _ {W : Type 0} (host : Host W) (environment : Environment) (services : Services W)
    (store : JobStore W) where
  -- For the task `i` of `n` tasks of Cloud Run, from one to thirty-two, and no shard of its own, the
  -- command `tick` processes in order the shards with the remainder `i` after division by `n`, and
  -- stops at the first error. Of the shards below thirty-two these are each one once, so that each
  -- shard has one task.
  pub run_tick_partition :
      (flags : Flags) (m i n : ℕ) (w : W)
      → flags.shard ≡ negsuc m
      → (str_eq host.task_index "" && str_eq host.task_count "") ≡ false
      → host.atoi host.task_index ≡ some (pos i)
      → host.atoi host.task_count ≡ some (pos n)
      → 1 ≤ n
      → n ≤ shard_count
      → i < n
      → (run_tick host environment services store flags w
          ≡ visit_all (tick_shard host environment services store flags.limit) (shards_of i n) w)
        × ((k : ℕ) → k < shard_count → times_in k (shards_of i n) ≡ (if k % n == i then 1 else 0))
  unfolding run_tick shard_range
  run_tick_partition flags m i n w shard set index count h k l = (
    rw (shard, set, index, count, task_range_valid i n h k l)
        (for_shards-with_remainder (tick_shard host environment services store flags.limit)
          shard_count 0 i i i n shard_count (shard_count - 1) w l l (omega arith) (mod-eq_of_lt l)
          (omega arith) (omega arith)),
    λ j q.
        times_in-with_remainder i n j (range 0 shard_count)
        ∙ ap (λ c. if j % n == i then c else 0) (times_in-all j q),
  )
