-- ===== src/Examples/Doubles/Laws.antt =====
-- The doubles satisfy the laws of floats.
use mathlib.Core.Path.{subst}
use mathlib.Core.Option.{some-injective}
use native.Mathlib.Nat.{zero-div, zero-mod, zero-mul}
use gestalt_agentic_software.Prelude.Int.{pos, ℤ, ◌≤ℤ◌}
use gestalt_agentic_software.Python.Values.{Float}
use gestalt_agentic_software.Prelude.{
  Bool, ℕ, false, ltb, ◌*◌, ◌+◌, ◌≡◌, some, true, ◌&&◌, refl, arith, ◌≤◌, ◌⊎◌, ap, ◌∙◌, inl, sym,
  inr,
}
use Prim.Native.Nat.{◌^◌, suc}
use gestalt_agentic_software.Python.Floats.{FloatLaws, float_zero}
use gestalt_agentic_software.Examples.Doubles.{
  capped, differ, div_magnitude, double_of_int, double_to_int, doubles, encode, infinity,
  is_negative, leb_signed, magnitude, mul_magnitude, nan, nearest, one_in_units, round, signed,
  units,
}

capped-le : (m : ℕ) → capped m ≤ infinity
unfolding capped
capped-le m = omega arith

encode-le : (n d : ℕ) → encode n d ≤ infinity
unfolding encode
encode-le n d = capped-le (nearest 2100 0 n d)

round-zero : (d : ℕ) → round 0 d ≡ 0
unfolding round
round-zero d = ground (arith, zero-div d, zero-mod d)

nearest-zero : (fuel d : ℕ) → nearest (suc fuel) 0 0 d ≡ 0
unfolding nearest
nearest-zero fuel d =
    ap
      (λ (q : ℕ). elim (ltb q (2 ^ 53)) [
        | true ↦ 0 * 2 ^ 52 + round 0 d
        | false ↦ nearest fuel (0 + 1) 0 (d * 2)
      ])
      (zero-div d)
    ∙ ap (λ k. 0 * 2 ^ 52 + k) (round-zero d)

encode-zero : (d : ℕ) → encode 0 d ≡ 0
unfolding encode capped
encode-zero d = ap capped (nearest-zero 2099 d)

units-zero : units 0 ≡ 0
unfolding units
units-zero = refl

abbrev IsZeroOrNan : ℕ → Type 0
IsZeroOrNan m = (m ≡ 0) ⊎ (m ≡ nan)

mul-le : (a b : ℕ) → mul_magnitude a b ≤ nan
unfolding mul_magnitude
mul-le a b = ground (arith, encode-le (units a * units b) one_in_units)

div-le : (a b : ℕ) → div_magnitude a b ≤ nan
unfolding div_magnitude
div-le a b = ground (arith, encode-le (units a * one_in_units) (units b))

encode_of_zero : (a b d : ℕ) → a ≡ 0 → encode (a * b) d ≡ 0
encode_of_zero a b d h =
    ap (λ k. encode (k * b) d) h ∙ ap (λ k. encode k d) (zero-mul b) ∙ encode-zero d

mul_of_zero : (b : ℕ) → IsZeroOrNan (mul_magnitude 0 b)
unfolding mul_magnitude
mul_of_zero b = ground (arith, encode_of_zero (units 0) (units b) one_in_units units-zero)

div_of_zero : (b : ℕ) → IsZeroOrNan (div_magnitude 0 b)
unfolding div_magnitude
div_of_zero b = ground (arith, encode_of_zero (units 0) one_in_units (units b) units-zero)

positive : (y : ℕ) → y ≤ infinity → is_negative y ≡ false
positive y h = ground arith

and_right : (p q : Bool) → p && q ≡ true → q ≡ true
and_right p q h = ground arith

magnitude_nonneg : (m : ℕ) (z : ℤ) → m ≤ nan → double_to_int m ≡ some z → pos 0 ≤ℤ z
unfolding double_to_int
magnitude_nonneg m z small e = ground arith

negative_zero_nonneg :
    (m : ℕ) (z : ℤ) → IsZeroOrNan m → double_to_int (signed true m) ≡ some z → pos 0 ≤ℤ z
unfolding double_to_int units one_in_units
negative_zero_nonneg m z (inl e) h =
    subst (λ (y : ℤ). pos 0 ≤ℤ y)
      (some-injective _ _ (sym (ap (λ k. double_to_int (signed true k)) e) ∙ h)) (omega arith)
negative_zero_nonneg m z (inr e) h =
    absurd (ground (arith, sym (ap (λ k. double_to_int (signed true k)) e) ∙ h))

module _ (g : ℕ → ℕ → ℕ) (g-le : (a b : ℕ) → g a b ≤ nan)
    (g_of_zero : (b : ℕ) → IsZeroOrNan (g 0 b)) where
  abbrev combined : Float → Float → Float
  combined x y = signed (differ (is_negative x) (is_negative y)) (g (magnitude x) (magnitude y))

  by_sign :
      (s : Bool) (a b : ℕ) (z : ℤ)
      → leb_signed false 0 s a ≡ true
      → double_to_int (signed (differ s false) (g a b)) ≡ some z
      → pos 0 ≤ℤ z
  by_sign false a b z h e = magnitude_nonneg (g a b) z (g-le a b) e
  by_sign true a b z h e =
      negative_zero_nonneg (g a b) z
        (subst (λ (k : ℕ). IsZeroOrNan (g k b)) (zero_of a h) (g_of_zero b)) e
    where
      zero_of : (a : ℕ) → leb_signed false 0 true a ≡ true → 0 ≡ a
      zero_of a h = ground arith

  combined_nonneg :
      (x : Float) (n : ℕ) (z : ℤ)
      → doubles.le float_zero x ≡ true
      → double_to_int (combined x (double_of_int (pos n))) ≡ some z
      → pos 0 ≤ℤ z
  unfolding doubles double_of_int
  combined_nonneg x n z h e =
      let y = encode (n * one_in_units) 1 in
      by_sign (is_negative x) (magnitude x) (magnitude y) z (and_right _ _ h) (
        sym (
          ap
            (λ (s : Bool).
              double_to_int (signed (differ (is_negative x) s) (g (magnitude x) (magnitude y))))
            (positive y (encode-le (n * one_in_units) 1)))
        ∙ e)

pub doubles-FloatLaws : FloatLaws doubles
unfolding doubles
doubles-FloatLaws = record {
  mul_nonneg = λ x n z small h e. combined_nonneg mul_magnitude mul-le mul_of_zero x n z h e;
  div_nonneg = λ x n z one small h e. combined_nonneg div_magnitude div-le div_of_zero x n z h e;
}
