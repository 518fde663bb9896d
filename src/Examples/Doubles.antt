-- ===== src/Examples/Doubles.antt =====
-- The arithmetic of IEEE doubles over their bit patterns, rounded to the nearest and to even, of which the
-- tests of theorems on floats make use.
pub mod Laws
use mathlib.Core.Path.{subst}
use mathlib.Core.Option.{some-injective}
use native.Mathlib.Nat.{zero-div, zero-mod, zero-mul}
use gestalt_agentic_software.Prelude.Int.{pos, ℤ, negsuc, ◌≤ℤ◌}
use gestalt_agentic_software.Python.Values.{Float}
use gestalt_agentic_software.Prelude.{
  Bool, not, ℕ, Option, false, if◌then◌else◌, leb, ltb, min, ◌*◌, ◌+◌, ◌||◌, ◌≡◌, none, some, true,
  ◌&&◌, ◌-◌, ◌/◌, ◌==◌, refl, zero, arith, ◌≤◌, ◌⊎◌, ap, ◌∙◌, inl, sym, inr,
}
use Prim.Native.Nat.{◌%◌, ◌^◌, suc}
use gestalt_agentic_software.Python.Floats.{FloatOps, FloatLaws, float_zero}

-- The sign's bit, the infinity and a NaN, without their signs, and the number of least positive doubles in 1.
abbrev pub sign_bit : ℕ
sign_bit = 0x8000000000000000

abbrev pub infinity : ℕ
infinity = 0x7ff0000000000000

abbrev pub nan : ℕ
nan = 0x7ff8000000000000

unfoldable pub one_in_units : ℕ
one_in_units = 2 ^ 1074

abbrev pub is_negative : Float → Bool
is_negative x = leb sign_bit x

abbrev pub magnitude : Float → ℕ
magnitude x = if is_negative x then x - sign_bit else x

abbrev pub signed : Bool → ℕ → Float
signed true m = sign_bit + m
signed false m = m

abbrev pub is_nan_magnitude : ℕ → Bool
is_nan_magnitude m = ltb infinity m

-- The number of least positive doubles in a magnitude.
unfoldable pub units : ℕ → ℕ
units m = if ltb m (2 ^ 52) then m else (m % 2 ^ 52 + 2 ^ 52) * 2 ^ (m / 2 ^ 52 - 1)

unfoldable pub round : ℕ → ℕ → ℕ
round n d =
    if ltb d (n % d * 2) then n / d + 1 else if n % d * 2 == d then n / d + n / d % 2 else n / d

-- The magnitude nearest to n / d least doubles: the exponent is raised until 53 bits hold it.
unfoldable pub nearest : ℕ → ℕ → ℕ → ℕ → ℕ
unfolding round
nearest zero k n d = infinity
nearest (suc fuel) k n d = elim (ltb (n / d) (2 ^ 53)) [
  | true ↦ k * 2 ^ 52 + round n d
  | false ↦ nearest fuel (k + 1) n (d * 2)
]

unfoldable pub capped : ℕ → ℕ
capped m = min infinity m

unfoldable pub encode : ℕ → ℕ → ℕ
unfolding nearest capped
encode n d = capped (nearest 2100 0 n d)

unfoldable pub mul_magnitude : ℕ → ℕ → ℕ
unfolding units encode one_in_units
mul_magnitude a b =
    if is_nan_magnitude a || is_nan_magnitude b
    then nan
    else if a == infinity
    then (if b == 0 then nan else infinity)
    else if b == infinity
    then (if a == 0 then nan else infinity)
    else encode (units a * units b) one_in_units

unfoldable pub div_magnitude : ℕ → ℕ → ℕ
unfolding units encode one_in_units
div_magnitude a b =
    if is_nan_magnitude a || is_nan_magnitude b
    then nan
    else if a == infinity
    then (if b == infinity then nan else infinity)
    else if b == infinity
    then 0
    else if b == 0
    then (if a == 0 then nan else infinity)
    else encode (units a * one_in_units) (units b)

abbrev pub differ : Bool → Bool → Bool
differ false b = b
differ true b = not b

abbrev pub with_sign : Bool → ℕ → ℤ
with_sign false n = pos n
with_sign true zero = pos 0
with_sign true (suc n) = negsuc n

abbrev pub leb_signed : Bool → ℕ → Bool → ℕ → Bool
leb_signed false a false b = leb a b
leb_signed false a true b = a == 0 && b == 0
leb_signed true a false b = true
leb_signed true a true b = leb b a

unfoldable pub double_of_int : ℤ → Float
unfolding encode one_in_units
double_of_int (pos n) = encode (n * one_in_units) 1
double_of_int (negsuc n) = signed true (encode ((n + 1) * one_in_units) 1)

unfoldable pub double_to_int : Float → Option ℤ
unfolding units one_in_units
double_to_int x =
    if leb infinity (magnitude x)
    then none
    else some (with_sign (is_negative x) (units (magnitude x) / one_in_units))

abbrev pub int_leb_signed : ℤ → Bool → ℕ → Bool
unfolding units one_in_units
int_leb_signed (pos n) false m = leb infinity m || leb (n * one_in_units) (units m)
int_leb_signed (pos n) true m = n == 0 && m == 0
int_leb_signed (negsuc n) false m = true
int_leb_signed (negsuc n) true m = not (leb infinity m) && leb (units m) ((n + 1) * one_in_units)

unfoldable pub doubles : FloatOps
unfolding mul_magnitude div_magnitude double_of_int double_to_int units one_in_units
doubles = record {
  of_int = double_of_int;
  mul = λ x y.
      signed (differ (is_negative x) (is_negative y)) (mul_magnitude (magnitude x) (magnitude y));
  div = λ x y.
      signed (differ (is_negative x) (is_negative y)) (div_magnitude (magnitude x) (magnitude y));
  le = λ x y.
      not (is_nan_magnitude (magnitude x) || is_nan_magnitude (magnitude y))
      && leb_signed (is_negative x) (magnitude x) (is_negative y) (magnitude y);
  int_le =
      λ n x. not (is_nan_magnitude (magnitude x)) && int_leb_signed n (is_negative x) (magnitude x);
  to_int = double_to_int;
}

-- 900.0 / 100 and 0.07 * 100, whose product is above 7.
runs :
    (double_of_int (pos 900) ≡ 0x408c200000000000)
    × (doubles.to_int (doubles.div 0x408c200000000000 (doubles.of_int (pos 100))) ≡ some (pos 9))
    × (doubles.mul 0x3fb1eb851eb851ec (doubles.of_int (pos 100)) ≡ 0x401c000000000001)
unfolding doubles double_of_int encode capped nearest round one_in_units mul_magnitude div_magnitude
    double_to_int units
runs = (refl, refl, refl)
