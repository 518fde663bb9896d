-- ===== src/Python/Floats.antt =====
-- The arithmetic of Python's floats, over their bit patterns. A value of `FloatOps` is what the
-- language gives; `FloatLaws` are the facts about it that some theorems use.
use gestalt_agentic_software.Prelude.{
  ◌≡◌, Bool, true, Option, none, some, if◌then◌else◌, ltb, not, ℕ, ◌&&◌, ◌/◌, ◌≤◌,
}
use Prim.Native.Nat.{◌%◌, ◌^◌}
use gestalt_agentic_software.Prelude.Int.{ℤ, pos, ◌≤ℤ◌}
use gestalt_agentic_software.Python.Exec.{Result, ok, raise_with, overflow_error, value_error}
use gestalt_agentic_software.Python.Values.{Float}

-- The literals 0.0 and 1.0.
abbrev pub float_zero : Float
float_zero = 0

abbrev pub float_one : Float
float_one = 0x3ff0000000000000

-- `int_le n x` is the exact test `n <= x` of an integer and a float. `to_int` is `int(x)`: it has no
-- value at an infinity and at a NaN.
pub record FloatOps : Type 0 where
  pub of_int : ℤ → Float
  pub mul : Float → Float → Float
  pub div : Float → Float → Float
  pub le : Float → Float → Bool
  pub int_le : ℤ → Float → Bool
  pub to_int : Float → Option ℤ

-- What a theorem may use of a product or a quotient of a float by an integer n that a float represents
-- exactly: of an operand that is not negative, it has no negative integer part. (It may be a NaN or an
-- infinity, which have no integer part.)
pub record FloatLaws (f : FloatOps) : Type 0 where
  pub mul_nonneg :
      (x : Float) (n : ℕ) (z : ℤ)
      → n ≤ 2 ^ 53
      → f.le float_zero x ≡ true
      → f.to_int (f.mul x (f.of_int (pos n))) ≡ some z
      → pos 0 ≤ℤ z
  pub div_nonneg :
      (x : Float) (n : ℕ) (z : ℤ)
      → 1 ≤ n
      → n ≤ 2 ^ 53
      → f.le float_zero x ≡ true
      → f.to_int (f.div x (f.of_int (pos n))) ≡ some z
      → pos 0 ≤ℤ z

-- The exponent and the fraction of a bit pattern; an exponent of all ones is that of the infinities and,
-- with a fraction, of the NaNs.
abbrev pub exponent_bits : Float → ℕ
exponent_bits x = x / 2 ^ 52 % 2048

abbrev pub is_finite : Float → Bool
is_finite x = ltb (exponent_bits x) 2047

abbrev pub is_nan : Float → Bool
is_nan x = not (is_finite x) && ltb 0 (x % 2 ^ 52)

-- int(x)
abbrev pub int_of : FloatOps → Float → Result ℤ
int_of f x = elim (f.to_int x) [
  | none ↦
      if is_nan x
      then raise_with value_error "cannot convert float NaN to integer"
      else raise_with overflow_error "cannot convert float infinity to integer"
  | some z ↦ ok z
]
