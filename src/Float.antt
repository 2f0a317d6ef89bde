-- ===== src/Float.antt =====
-- Python's `float` and the coercions `_f` of the position kernels: what the code takes from IEEE
-- arithmetic is an interface with no laws, so a theorem over it also holds of rounded results.
use crypto_ai_system.Common.{
  ℕ, ◌+◌, ◌-◌, ◌*◌, String, Bool, false, not, ◌&&◌, Option, none, some, leb, str_eq, if◌then◌else◌,
  ◌≡◌, refl,
}
use crypto_ai_system.Common.Int.{ℤ, pos, negsuc, ◌+ℤ◌, ◌-ℤ◌, ◌*ℤ◌, ltb_ℤ, leb_ℤ}
use crypto_ai_system.Common.Int
use Prim.Native.Char.{code}

pub record Float (F : Type 0) : Type 0 where
  pub of_int : ℤ → F
  pub add : F → F → F
  pub sub : F → F → F
  pub mul : F → F → F
  pub div : F → F → F
  pub abs : F → F
  pub sqrt : F → F
  -- `-math.inf`
  pub minus_infinity : F
  -- `a < b` and `a <= b`; both are false where one side is NaN
  pub lt : F → F → Bool
  pub le : F → F → Bool
  pub eq : F → F → Bool
  -- `round(x, digits)`
  pub round : ℕ → F → F
  -- `float(text)`; `none` is the ValueError
  pub parse : String → Option F

-- A scalar of a JSON payload. Integers are read as the floats that `float` makes of them.
pub data Scalar (F : Type 0) : Type 0 where
  null : Scalar F
  text : String → Scalar F
  num : F → Scalar F

module _ {F : Type 0} ⦃f : Float F⦄ where
  abbrev pub nought : F
  nought = f.of_int (pos 0)

  -- Python's truth value of a scalar: `None`, `""` and 0 are false, and NaN is true.
  unfoldable pub truthy : Scalar F → Bool
  truthy null = false
  truthy (text s) = not (str_eq s "")
  truthy (num x) = not (f.eq x nought)

  -- `a or b`
  unfoldable pub or_else : Scalar F → Scalar F → Scalar F
  unfolding truthy
  or_else a b = if truthy a then a else b

  abbrev parsed : Option F → F → F
  parsed none default = default
  parsed (some x) default = x

  -- `_f(value, default)`
  unfoldable pub to_float_or : Scalar F → F → F
  to_float_or null default = default
  to_float_or (text s) default = if str_eq s "" then default else parsed (f.parse s) default
  to_float_or (num x) default = x

  -- `_f(value)`
  unfoldable pub to_float : Scalar F → F
  unfolding to_float_or
  to_float v = to_float_or v nought

  -- `0 < x`, as `x > 0` is written
  abbrev pub positive : F → Bool
  positive x = f.lt nought x

-- Whole numbers, for the examples: a text is a natural number in decimal digits.
digits : String → ℕ → Option ℕ
digits String.[] n = some n
digits (String.◌∷◌ c s) n =
    let rest = digits s (n * 10 + (code c - 48)) in
    if leb 48 (code c) && leb (code c) 57 then rest else none

abbrev whole : Option ℕ → Option ℤ
whole none = none
whole (some n) = some (pos n)

unfoldable pub parse_ℤ : String → Option ℤ
unfolding digits
parse_ℤ s = if str_eq s "" then none else whole (digits s 0)

instance abbrev pub whole_float : Float ℤ
whole_float = record {
  of_int = λ n. n;
  add = ◌+ℤ◌;
  sub = ◌-ℤ◌;
  mul = ◌*ℤ◌;
  div = Int.div;
  abs = Int.abs;
  sqrt = Int.sqrt;
  minus_infinity = negsuc 999999;
  lt = ltb_ℤ;
  le = leb_ℤ;
  eq = λ a b. leb_ℤ a b && leb_ℤ b a;
  round = λ d x. x;
  parse = parse_ℤ;
}

parses : to_float {F = ℤ} (text "120") ≡ pos 120
unfolding to_float parse_ℤ
parses = refl
