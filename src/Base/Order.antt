-- ===== src/Base/Order.antt =====
-- Go's `<` on strings: a strict order in which of two different texts one is the lesser.
use Prim.Native.Nat.{Ordering, compare as compare_ℕ}
use Prim.Native.Char.{Char, code}
use Prim.Native.String.{String, compare as compare_text, then as then_order}
use Prim.Native.String.compare
use mathlib.Core.Path.{◌≡◌, refl, ap, ap₂, ◌∙◌}
use mathlib.Core.Bool.{Bool, true, false}
use native.Mathlib.Omega.{arith}
use text.Mathlib.TextEquality.{Char-path}
use push_dispatch.Base.Tests.{if◌then◌else◌, ltb, ◌==◌}

abbrev is_lt : Ordering → Bool
is_lt Ordering.lt = true
is_lt _ = false

unfoldable pub str_lt : String → String → Bool
str_lt s t = is_lt (compare_text s t)

-- The first difference decides.
str_lt-cons :
    (c d : Char) (s t : String)
    → str_lt (String.◌∷◌ c s) (String.◌∷◌ d t)
      ≡ (if ltb (code c) (code d) then true else if code c == code d then str_lt s t else false)
unfolding str_lt
str_lt-cons c d s t = ap is_lt (compare.cons-cons c d s t) ∙ by_code (compare_ℕ (code c) (code d))
  where
    by_code :
        (o : Ordering)
        → is_lt (then_order o (compare_text s t)) ≡ (
            if (elim o [ Ordering.lt ↦ true | _ ↦ false ])
            then true
            else if (elim o [ Ordering.eq ↦ true | _ ↦ false ])
            then is_lt (compare_text s t)
            else false)
    by_code Ordering.lt = refl
    by_code Ordering.eq = refl
    by_code Ordering.gt = refl

nil-lt-cons : (d : Char) (t : String) → str_lt String.[] (String.◌∷◌ d t) ≡ true
unfolding str_lt
nil-lt-cons d t = ap is_lt (compare.nil-cons d t)

cons-lt-nil : (c : Char) (s : String) → str_lt (String.◌∷◌ c s) String.[] ≡ false
unfolding str_lt
cons-lt-nil c s = ap is_lt (compare.cons-nil c s)

nil-lt-nil : str_lt String.[] String.[] ≡ false
unfolding str_lt
nil-lt-nil = ap is_lt compare.nil-nil

pub str_lt_asymm : (s t : String) → str_lt s t ≡ true → str_lt t s ≡ false
str_lt_asymm String.[] String.[] h = nil-lt-nil
str_lt_asymm String.[] (String.◌∷◌ d t) h = cons-lt-nil d t
str_lt_asymm (String.◌∷◌ c s) String.[] h = absurd (ground (arith, cons-lt-nil c s))
str_lt_asymm (String.◌∷◌ c s) (String.◌∷◌ d t) h =
    ground (arith, str_lt-cons c d s t, str_lt-cons d c t s, str_lt_asymm s t)

-- What is not below the second is not below the first, if the second is not below it.
pub str_lt_negtrans :
    (s t u : String) → str_lt t s ≡ false → str_lt u t ≡ false → str_lt u s ≡ false
str_lt_negtrans String.[] String.[] u h k = k
str_lt_negtrans String.[] (String.◌∷◌ d t) String.[] h k = nil-lt-nil
str_lt_negtrans String.[] (String.◌∷◌ d t) (String.◌∷◌ e u) h k = cons-lt-nil e u
str_lt_negtrans (String.◌∷◌ c s) String.[] u h k = absurd (ground (arith, nil-lt-cons c s))
str_lt_negtrans (String.◌∷◌ c s) (String.◌∷◌ d t) String.[] h k =
    absurd (ground (arith, nil-lt-cons d t))
str_lt_negtrans (String.◌∷◌ c s) (String.◌∷◌ d t) (String.◌∷◌ e u) h k =
    ground
      (arith, str_lt-cons d c t s, str_lt-cons e d u t, str_lt-cons e c u s, str_lt_negtrans s t u)

pub str_lt_total : (s t : String) → str_lt s t ≡ false → str_lt t s ≡ false → s ≡ t
str_lt_total String.[] String.[] h k = refl
str_lt_total String.[] (String.◌∷◌ d t) h k = absurd (ground (arith, nil-lt-cons d t))
str_lt_total (String.◌∷◌ c s) String.[] h k = absurd (ground (arith, nil-lt-cons c s))
str_lt_total (String.◌∷◌ c s) (String.◌∷◌ d t) h k =
    ap₂ String.◌∷◌ (Char-path c d (ground (arith, str_lt-cons c d s t, str_lt-cons d c t s))) (
      str_lt_total s t (ground (arith, str_lt-cons c d s t, str_lt-cons d c t s))
        (ground (arith, str_lt-cons c d s t, str_lt-cons d c t s)))
