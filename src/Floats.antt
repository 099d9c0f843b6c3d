-- ===== src/Floats.antt =====
-- The comparisons and assertions of src/cmocka.c on `float` and `double` values. The arithmetic of the C
-- implementation is a parameter.
pub mod Judged
use cmocka.Prelude.{ℕ, Bool, true, false, not, if◌then◌else◌, [], ◌∷◌, CString}
use cmocka.State.{float_bits}
use cmocka.State.Run.{M}
use cmocka.Compare.{verdict}
use cmocka.Asserts.{fail_unless}

-- The operators of C on one floating-point type, FLT_EPSILON as a value of it, and the bits of a value
-- once it is passed on as a double.
pub record Arithmetic (F : Type 0) : Type 0 where
  pub zero_value : F
  pub flt_epsilon : F
  pub minus : F → F → F
  pub times : F → F → F
  pub negated : F → F
  pub at_least : F → F → Bool
  pub at_most : F → F → Bool
  pub above : F → F → Bool
  pub bits : F → ℕ

module _ {F : Type 0} (c : Arithmetic F) where
  -- `(x >= 0.f) ? x : -x`
  abbrev pub magnitude : F → F
  magnitude x = if c.at_least x c.zero_value then x else c.negated x

  unfoldable pub float_compare : F → F → F → Bool
  float_compare left right epsilon =
      let diff = magnitude (c.minus left right) in
      let abs_left = magnitude left in
      let abs_right = magnitude right in
      let largest = if c.above abs_right abs_left then abs_right else abs_left in
      let rel_diff = c.times largest c.flt_epsilon in
      if c.at_most diff epsilon then true else if c.above diff rel_diff then false else true

  unfoldable pub float_values_equal_display_error : F → F → F → M Bool
  unfolding float_compare
  float_values_equal_display_error left right epsilon =
      verdict (float_compare left right epsilon) "%f != %f\n"
        (float_bits (c.bits left) ∷ float_bits (c.bits right) ∷ [])

  unfoldable pub float_values_not_equal_display_error : F → F → F → M Bool
  unfolding float_compare
  float_values_not_equal_display_error left right epsilon =
      verdict (not (float_compare left right epsilon)) "%f == %f\n"
        (float_bits (c.bits left) ∷ float_bits (c.bits right) ∷ [])

  unfoldable pub double_compare : F → F → F → Bool
  double_compare left right epsilon =
      let diff = magnitude (c.minus left right) in
      let abs_left = magnitude left in
      let abs_right = magnitude right in
      let largest = if c.above abs_right abs_left then abs_right else abs_left in
      let rel_diff = c.times largest c.flt_epsilon in
      if c.at_most diff epsilon then true else if c.above diff rel_diff then false else true

  unfoldable pub double_values_equal_display_error : F → F → F → M Bool
  unfolding double_compare
  double_values_equal_display_error left right epsilon =
      verdict (double_compare left right epsilon) "%f != %f\n"
        (float_bits (c.bits left) ∷ float_bits (c.bits right) ∷ [])

  unfoldable pub double_values_not_equal_display_error : F → F → F → M Bool
  unfolding double_compare
  double_values_not_equal_display_error left right epsilon =
      verdict (not (double_compare left right epsilon)) "%f == %f\n"
        (float_bits (c.bits left) ∷ float_bits (c.bits right) ∷ [])

  module _ (file : CString) (line : ℕ) where
    unfoldable pub assert_float_equal : F → F → F → M (Unit {0})
    assert_float_equal a b epsilon =
        fail_unless (float_values_equal_display_error a b epsilon) file line

    unfoldable pub assert_float_not_equal : F → F → F → M (Unit {0})
    assert_float_not_equal a b epsilon =
        fail_unless (float_values_not_equal_display_error a b epsilon) file line

    unfoldable pub assert_double_equal : F → F → F → M (Unit {0})
    assert_double_equal a b epsilon =
        fail_unless (double_values_equal_display_error a b epsilon) file line

    unfoldable pub assert_double_not_equal : F → F → F → M (Unit {0})
    assert_double_not_equal a b epsilon =
        fail_unless (double_values_not_equal_display_error a b epsilon) file line
