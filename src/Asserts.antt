-- ===== src/Asserts.antt =====
-- The assertions of src/cmocka.c: a comparison, and _fail where it answers false.
pub mod Judged
use cmocka.Prelude.{ℕ, Bool, true, false, not, Option, none, some, List, [], ◌∷◌, CString, String}
use cmocka.Prelude.{if◌then◌else◌, ltb, ◌==◌}
use cmocka.Prelude.Int.{ℤ, pos, ltb_ℤ}
use cmocka.State.{Arg, str, int}
use cmocka.State.Run.{M, ok, pure, ◌>>=◌, ◌>>◌, when}
use cmocka.Report.{cmocka_print_error, fail, additional_msg}
use cmocka.Compare.{uint_values_equal_display_error, uint_values_not_equal_display_error}
use cmocka.Compare.{int_values_equal_display_error, int_values_not_equal_display_error}
use cmocka.Compare.{ptr_values_equal_display_error, ptr_values_not_equal_display_error}
use cmocka.Compare.{int_value_in_set_display_error, uint_value_in_set_display_error}
use cmocka.Compare.{uint_in_range_display_error, uint_not_in_range_display_error}
use cmocka.Compare.{int_in_range_display_error, int_not_in_range_display_error}
use cmocka.Compare.{string_equal_display_error, string_not_equal_display_error}
use cmocka.Compare.Memory.{memory_equal_display_error, memory_not_equal_display_error}

-- `if (!comparison) { _fail(file, line); }`
unfoldable pub fail_unless : M Bool → CString → ℕ → M (Unit {0})
unfolding fail
fail_unless comparison file line = comparison >>= λ holds. when (not holds) (fail file line)

module _ (file : CString) (line : ℕ) where
  unfoldable pub assert_true : ℕ → CString → M (Unit {0})
  unfolding cmocka_print_error fail
  assert_true result expression =
      when (result == 0)
        (cmocka_print_error "%s is not true\n" (str expression ∷ []) >> fail file line)

  unfoldable pub assert_false : ℕ → CString → M (Unit {0})
  unfolding cmocka_print_error fail
  assert_false result expression =
      when (not (result == 0))
        (cmocka_print_error "%s is not false\n" (str expression ∷ []) >> fail file line)

  -- `error_text` is what `strerror(error)` says.
  unfoldable pub assert_return_code : ℤ → ℤ → CString → CString → M (Unit {0})
  unfolding cmocka_print_error fail
  assert_return_code result error error_text expression = when (ltb_ℤ result (pos 0)) (do
    (if ltb_ℤ (pos 0) error
        then cmocka_print_error "%s < 0, errno(%d): %s\n"
            (str expression ∷ int error ∷ str error_text ∷ [])
        else cmocka_print_error "%s < 0\n" (str expression ∷ []))
    fail file line)

  unfoldable pub assert_int_equal : ℤ → ℤ → M (Unit {0})
  assert_int_equal a b = fail_unless (int_values_equal_display_error a b) file line

  unfoldable pub assert_int_not_equal : ℤ → ℤ → M (Unit {0})
  assert_int_not_equal a b = fail_unless (int_values_not_equal_display_error a b) file line

  unfoldable pub assert_uint_equal : ℕ → ℕ → M (Unit {0})
  assert_uint_equal a b = fail_unless (uint_values_equal_display_error a b) file line

  unfoldable pub assert_uint_not_equal : ℕ → ℕ → M (Unit {0})
  assert_uint_not_equal a b = fail_unless (uint_values_not_equal_display_error a b) file line

  abbrev print_msg : Option CString → M (Unit {0})
  print_msg none = pure tt
  print_msg (some msg) = additional_msg msg

  unfoldable pub assert_ptr_equal_msg : ℕ → ℕ → Option CString → M (Unit {0})
  unfolding additional_msg fail
  assert_ptr_equal_msg a b msg = ptr_values_equal_display_error a b >>= λ holds.
      when (not holds) (print_msg msg >> fail file line)

  unfoldable pub assert_ptr_not_equal_msg : ℕ → ℕ → Option CString → M (Unit {0})
  unfolding additional_msg fail
  assert_ptr_not_equal_msg a b msg = ptr_values_not_equal_display_error a b >>= λ holds.
      when (not holds) (print_msg msg >> fail file line)

  unfoldable pub assert_string_equal : CString → CString → M (Unit {0})
  assert_string_equal a b = fail_unless (string_equal_display_error a b) file line

  unfoldable pub assert_string_not_equal : CString → CString → M (Unit {0})
  assert_string_not_equal a b = fail_unless (string_not_equal_display_error a b) file line

  unfoldable pub assert_memory_equal : List ℕ → List ℕ → ℕ → M (Unit {0})
  assert_memory_equal a b size = fail_unless (memory_equal_display_error a b size) file line

  unfoldable pub assert_memory_not_equal : List ℕ → List ℕ → ℕ → M (Unit {0})
  assert_memory_not_equal a b size = fail_unless (memory_not_equal_display_error a b size) file line

  unfoldable pub assert_int_in_range : ℤ → ℤ → ℤ → M (Unit {0})
  assert_int_in_range value minimum maximum =
      fail_unless (int_in_range_display_error value minimum maximum) file line

  unfoldable pub assert_int_not_in_range : ℤ → ℤ → ℤ → M (Unit {0})
  assert_int_not_in_range value minimum maximum =
      fail_unless (int_not_in_range_display_error value minimum maximum) file line

  unfoldable pub assert_uint_in_range : ℕ → ℕ → ℕ → M (Unit {0})
  assert_uint_in_range value minimum maximum =
      fail_unless (uint_in_range_display_error value minimum maximum) file line

  unfoldable pub assert_uint_not_in_range : ℕ → ℕ → ℕ → M (Unit {0})
  assert_uint_not_in_range value minimum maximum =
      fail_unless (uint_not_in_range_display_error value minimum maximum) file line

  unfoldable pub assert_not_in_set : ℕ → List ℕ → M (Unit {0})
  assert_not_in_set value values =
      fail_unless (uint_value_in_set_display_error value values true) file line

  unfoldable pub assert_int_in_set : ℤ → List ℤ → M (Unit {0})
  assert_int_in_set value values =
      fail_unless (int_value_in_set_display_error value values false) file line

  unfoldable pub assert_int_not_in_set : ℤ → List ℤ → M (Unit {0})
  assert_int_not_in_set value values =
      fail_unless (int_value_in_set_display_error value values true) file line

  unfoldable pub assert_uint_in_set : ℕ → List ℕ → M (Unit {0})
  assert_uint_in_set value values =
      fail_unless (uint_value_in_set_display_error value values false) file line

  unfoldable pub assert_uint_not_in_set : ℕ → List ℕ → M (Unit {0})
  assert_uint_not_in_set value values =
      fail_unless (uint_value_in_set_display_error value values true) file line
