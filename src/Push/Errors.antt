-- ===== src/Push/Errors.antt =====
-- push/push.go: the classification of errors. An `error` value of Go is an `Option Error`.
use push_dispatch.Base.{
  refl, inl, inr, Bool, if◌then◌else◌, ◌≡◌, ◌⊎◌, ◌≢◌, String, Option, none, some, arith,
}

-- The codes of push.go. The Go type is a string, and no code of the repository makes another one.
pub data ErrorCode : Type 0 where
  no_error unregistered transient rate_limited permanent unknown : ErrorCode

-- The error values that the code tells apart: one with no inner error (also one of another
-- package), one made by `fmt.Errorf` with `%w`, a `*sendError`, and the result of `errors.Join`.
mutual
  pub data Error : Type 0 where
    plain : String → Error
    wrapped : String → Error → Error
    send_error : ErrorCode → Error → Error
    joined : Errors → Error

  pub data Errors : Type 0 where
    nil : Errors
    cons : Error → Errors → Errors

-- A Go result `(value, error)` of which only one part is used.
pub data Result {ℓ} (A : Type ℓ) : Type ℓ where
  ok : A → Result A
  err : Error → Result A

-- The early returns of a function that returns an error: a test that refuses, and the rest of the
-- function after a value or after a test.
abbrev pub refuse_if : (refuses : Bool) → Error → Result (Unit {0})
refuse_if refuses e = if refuses then err e else ok tt

infixl 5 ◌>>=◌
abbrev pub ◌>>=◌ {ℓ κ} :
    {Value : Type ℓ} {Answer : Type κ} → Result Value → (Value → Result Answer) → Result Answer
err e >>= rest = err e
ok value >>= rest = rest value

infixl 5 ◌>>◌
abbrev pub ◌>>◌ {κ} : {Answer : Type κ} → Result (Unit {0}) → Result Answer → Result Answer
checked >> rest = checked >>= λ passed. rest

-- What returned a value in the end returned one at first.
pub >>=-ok {ℓ κ} :
    {Value : Type ℓ} {Answer : Type κ} {answer : Answer} (r : Result Value)
    (rest : Value → Result Answer)
    → (r >>= rest) ≡ ok answer
    → (value : Value) × (r ≡ ok value) × (rest value ≡ ok answer)
>>=-ok (err e) rest h = absurd (ground arith)
>>=-ok (ok value) rest h = (value, refl, h)

-- What holds of the value, if there is one.
abbrev pub Ensures {ℓ κ} : {A : Type ℓ} → (A → Type κ) → Result A → Type κ
Ensures P (ok a) = P a
Ensures P (err e) = Unit

pub Ensures-bind {ℓ κ μ} :
    {A : Type ℓ} {B : Type κ} (P : B → Type μ) (m : Result A) (f : A → Result B)
    → ((a : A) → m ≡ ok a → Ensures P (f a))
    → Ensures P (m >>= f)
Ensures-bind P (ok a) f k = k a refl
Ensures-bind P (err e) f k = tt

pub Ensures-mono {ℓ κ μ} :
    {A : Type ℓ} (P : A → Type κ) (Q : A → Type μ)
    → ((a : A) → P a → Q a)
    → (r : Result A) → Ensures P r
    → Ensures Q r
Ensures-mono P Q f (ok a) p = f a p
Ensures-mono P Q f (err e) p = tt

pub Result-cases {ℓ} :
    {A : Type ℓ} (r : Result A) → ((a : A) × (r ≡ ok a)) ⊎ ((e : Error) × (r ≡ err e))
Result-cases (ok a) = inl (a, refl)
Result-cases (err e) = inr (e, refl)

-- `NewSendError`.
unfoldable pub new_send_error : ErrorCode → Option Error → Option Error
new_send_error code none = none
new_send_error no_error (some e) = some (send_error unknown e)
new_send_error code (some e) = some (send_error code e)

abbrev pub or_else : Option ErrorCode → Option ErrorCode → Option ErrorCode
or_else none d = d
or_else (some c) d = some c

-- `errors.As` into a `*sendError`: the error itself, then what it wraps, depth first.
unfoldable mutual
  pub find_code : Error → Option ErrorCode
  find_code (plain text) = none
  find_code (wrapped text e) = find_code e
  find_code (send_error code e) = some code
  find_code (joined es) = find_codes es

  pub find_codes : Errors → Option ErrorCode
  find_codes nil = none
  find_codes (cons e es) = or_else (find_code e) (find_codes es)

abbrev pub code_or_unknown : Option ErrorCode → ErrorCode
code_or_unknown none = unknown
code_or_unknown (some c) = c

-- `SendErrorCode`.
unfoldable pub send_error_code : Option Error → ErrorCode
unfolding find_code
send_error_code none = no_error
send_error_code (some e) = code_or_unknown (find_code e)

-- The code that `NewSendError` attaches is read back, also through `fmt.Errorf` with `%w`; in place
-- of the empty code it attaches `unknown`.
pub send_error_code-new_send_error :
    (code : ErrorCode) (e : Error) (text : String) {e' : Error}
    → new_send_error code (some e) ≡ some e'
    → (send_error_code (some (wrapped text e')) ≡ send_error_code (some e'))
      × ((code ≢ no_error) × (send_error_code (some e') ≡ code)
          ⊎ (code ≡ no_error) × (send_error_code (some e') ≡ unknown))
unfolding send_error_code new_send_error
send_error_code-new_send_error no_error e text h = ground arith
send_error_code-new_send_error _ e text h = ground arith
