-- ===== src/Push/Retry/Bounds.antt =====
-- The limits of a dispatcher's settings and of its waits.
use push_dispatch.Base.{
  ℕ, ◌+◌, ◌*◌, ◌/◌, ◌≤◌, ◌<◌, ◌≡◌, refl, Bool-cases, inl, inr, Option, none, some, ℤ, second,
  if◌then◌else◌, arith,
}
use push_dispatch.Push.Errors.{Error, ok, err, ErrorCode}
use push_dispatch.Push.Types.{BatchSender, max_batch_concurrency}
use push_dispatch.Push.Retry.{
  Dispatcher, new_dispatcher_with_retry, retry_backoff, bounded_retry_jitter, is_rate_limited,
}

-- Without a sender a dispatcher is refused. With one, whatever concurrency and attempts are asked
-- for, it has between one and four batches in flight and makes at least one attempt.
pub new_dispatcher-bounds :
    {W : Type 0} (sender : BatchSender W) (concurrency attempts : ℤ)
    (wait : Option (ℕ → W → Option Error × W)) (jitter : Option (ℕ → W → ℕ × W))
    (wait_for_retry : ℕ → W → Option Error × W) (bounded_jitter : ℕ → W → ℕ × W)
    → let new = λ (s : Option (BatchSender W)).
      new_dispatcher_with_retry s concurrency attempts wait jitter wait_for_retry bounded_jitter in
      (d : Dispatcher W) × (new (some sender) ≡ ok d)
      × (1 ≤ d.concurrency)
      × (d.concurrency ≤ max_batch_concurrency)
      × (1 ≤ d.max_attempts)
      × (e : Error) × (new none ≡ err e)
unfolding new_dispatcher_with_retry
new_dispatcher-bounds sender concurrency attempts wait jitter wait_for_retry bounded_jitter =
    (_, refl, ground arith, ground arith, ground arith, _, refl)

-- A draw of a random number below `n` is below `n`, where there is such a number.
abbrev pub DrawsBelow : {W : Type 0} → (ℕ → W → ℕ × W) → Type 0
DrawsBelow {W} rand = (n : ℕ) (w : W) → 0 < n → (rand n w).0 < n

-- The jitter only adds, and at most a tenth.
bounded_retry_jitter_bounds :
    {W : Type 0} (rand : ℕ → W → ℕ × W) (base : ℕ) (w : W)
    → DrawsBelow rand
    → (base ≤ (bounded_retry_jitter rand base w).0)
      × ((bounded_retry_jitter rand base w).0 ≤ base + base / 10)
unfolding bounded_retry_jitter
bounded_retry_jitter_bounds rand base w draws =
    let below = draws (base * 10 / 100 + 1) w (omega arith) in ground (arith, below)

-- The least wait after a code.
abbrev pub floor_of : ErrorCode → ℕ
floor_of code = if is_rate_limited code then 60 * second else second

retry_backoff-one : (code : ErrorCode) → retry_backoff code 1 ≡ floor_of code
unfolding retry_backoff
retry_backoff-one code = elim (Bool-cases (is_rate_limited code)) [ inl h ↦ rw h | inr h ↦ rw h ]

retry_backoff-two : (code : ErrorCode) → retry_backoff code 2 ≡ 2 * floor_of code
unfolding retry_backoff
retry_backoff-two code = elim (Bool-cases (is_rate_limited code)) [ inl h ↦ rw h | inr h ↦ rw h ]

floor_of-le : (code : ErrorCode) → floor_of code ≤ 60 * second
floor_of-le code = elim (Bool-cases (is_rate_limited code)) [
  | inl h ↦ rw h (omega arith)
  | inr h ↦ rw h (omega arith)
]

-- The two waits of three attempts, for any codes: neither is shorter than its floor, which is 60
-- seconds after a quota failure and a second otherwise, and together they take at most 198 seconds.
pub retry_waits_bounds :
    {W : Type 0} (rand : ℕ → W → ℕ × W) (one two : ErrorCode) (w v : W)
    → DrawsBelow rand
    → let a = (bounded_retry_jitter rand (retry_backoff one 1) w).0 in
      let b = (bounded_retry_jitter rand (retry_backoff two 2) v).0 in
      (floor_of one ≤ a) × (floor_of two ≤ b) × (a + b ≤ 198 * second)
retry_waits_bounds rand one two w v draws =
    let p = bounded_retry_jitter_bounds rand (retry_backoff one 1) w draws in
    let q = bounded_retry_jitter_bounds rand (retry_backoff two 2) v draws in
    omega
      (arith, p, q, retry_backoff-one one, retry_backoff-two two, floor_of-le one, floor_of-le two)
