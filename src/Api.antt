-- ===== src/Api.antt =====
-- The package api: the routes of devices and schedules. The routing, the headers and JSON belong to
-- `net/http` and `encoding/json`: a handler is a function of a request whose body is decoded.
pub mod Devices
pub mod Schedules
pub mod Registered
pub mod Refused
use push_dispatch.Base.{
  ℕ, String, len, Bool, true, false, ◌||◌, ◌&&◌, not, Option, none, some, str_eq, ltb,
  if◌then◌else◌,
}
use push_dispatch.Push.Errors.{
  Error, Errors, nil, cons, plain, wrapped, send_error, joined, Result, ok, err,
}

-- What a handler writes: a status with a text, the receipt of a registration, or no content.
pub data Response (A : Type 0) : Type 0 where
  refused : ℕ → String → Response A
  answered : A → Response A
  no_content : Response A

-- A request: the answer of `Authenticate`, the decoded body (`none` where `decode` refuses it) and the
-- path's `id`. `configured` says that neither the store nor `Authenticate` is nil.
pub record Request (A : Type 0) : Type 0 where
  pub configured : Bool
  pub authenticated : Result String
  pub body : Option A
  pub id : String

-- `errors.Is` for an error that `errors.New` makes: no two of the repository's have the same text.
unfoldable mutual
  pub is_error : String → Error → Bool
  is_error text (plain other_text) = str_eq text other_text
  is_error text (wrapped prefix e) = is_error text e
  is_error text (send_error code e) = is_error text e
  is_error text (joined es) = is_among text es

  pub is_among : String → Errors → Bool
  is_among text nil = false
  is_among text (cons e es) = is_error text e || is_among text es

-- The test of the user's id; `contains_separator` is `strings.ContainsAny` with a slash and a zero
-- byte.
abbrev pub bad_uid : (String → Bool) → String → Bool
bad_uid contains_separator uid =
    str_eq uid ""
    || ltb 128 (len uid)
    || contains_separator uid
    || str_eq uid "."
    || str_eq uid ".."

-- `wrap`.
abbrev pub with_user :
    {B W : Type 0}
    → (String → Bool)
    → Result String
    → (String → W → Response B × W)
    → W
    → Response B × W
with_user contains_separator (err e) next w = (refused 401 "unauthorized", w)
with_user contains_separator (ok uid) next w =
    let served = next uid w in
    if bad_uid contains_separator uid then (refused 401 "unauthorized", w) else served

unfoldable pub wrap :
    {A B W : Type 0}
    → (String → Bool)
    → (String → W → Response B × W)
    → Request A
    → W
    → Response B × W
wrap contains_separator next request w =
    let served = with_user contains_separator request.authenticated next w in
    if not request.configured then (refused 503 "service unavailable", w) else served
