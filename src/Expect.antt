-- ===== src/Expect.antt =====
-- Parameter checks of src/cmocka.c: _expect_check and the _expect_… functions over it, the callbacks
-- check_…, and _check_expected. The objects that the _expect_… functions allocate for a callback's data
-- are the arguments of the callback's constructor of `Check`.
pub mod Outcome
use cmocka.Prelude.{ℕ, ◌-◌, ◌^◌, Bool, true, false, not, Option, none, some, List, [], ◌∷◌, CString}
use cmocka.Prelude.{if◌then◌else◌, ltb, ◌==◌, codes, length}
use cmocka.Prelude.Int.{ℤ, pos, negsuc, eq_ℤ}
use cmocka.State.{Global, SourceLocation, CMockaValueData, CheckParameterEvent, Check, str, nat}
use cmocka.State.{check_value, check_not_value, check_string, check_not_string, check_memory}
use cmocka.State.{check_not_memory, check_in_range, check_not_in_range, check_int_in_set}
use cmocka.State.{check_uint_in_set, check_not_in_set, check_any, check_custom}
use cmocka.State.Run.{M, ok, pure, ◌>>=◌, ◌>>◌, modify, gets, when}
use cmocka.Report.{cmocka_print_error, exit_test, fail}
use cmocka.Symbols.{Got, found, missing, no_value, Item, add_symbol_value, get_symbol_value}
use cmocka.Mocks.{set_source_location, file_of, print_last_location, report_missing, assert_true}
use cmocka.Compare.{uint_values_equal_display_error, uint_values_not_equal_display_error}
use cmocka.Compare.{value_in_set_display_error, int_value_in_set_display_error}
use cmocka.Compare.{uint_value_in_set_display_error, uint_in_range_display_error}
use cmocka.Compare.{integer_not_in_range_display_error, string_equal_display_error}
use cmocka.Compare.{string_not_equal_display_error}
use cmocka.Compare.Memory.{memory_equal_display_error, memory_not_equal_display_error}

-- `value.int_val`, the two's complement reading of the 64 bits
abbrev pub int_val : CMockaValueData → ℤ
int_val value = if ltb value.word (2 ^ 63) then pos value.word else negsuc (2 ^ 64 - 1 - value.word)

-- The string that a pointer points to: its bytes up to the NUL.
abbrev pub c_string : List ℕ → CString
c_string [] = []
c_string (b ∷ bytes) = let rest = c_string bytes in if b == 0 then [] else b ∷ rest

-- The callbacks, on the value of the parameter.
unfoldable pub run_check : Check → CMockaValueData → M Bool
run_check (check_value data_) value = uint_values_equal_display_error value.word data_.word
run_check (check_not_value data_) value = uint_values_not_equal_display_error value.word data_.word
run_check (check_string data_) value =
    string_equal_display_error (c_string value.pointee) (c_string data_.pointee)
run_check (check_not_string data_) value =
    string_not_equal_display_error (c_string value.pointee) (c_string data_.pointee)
run_check (check_memory memory) value =
    memory_equal_display_error value.pointee memory (length memory)
run_check (check_not_memory memory) value =
    memory_not_equal_display_error value.pointee memory (length memory)
run_check (check_in_range minimum maximum) value =
    uint_in_range_display_error value.word minimum maximum
run_check (check_not_in_range minimum maximum) value =
    integer_not_in_range_display_error value.word minimum maximum
run_check (check_int_in_set set) value = int_value_in_set_display_error (int_val value) set false
run_check (check_uint_in_set set) value = uint_value_in_set_display_error value.word set false
run_check (check_not_in_set set) value = value_in_set_display_error value.word set true
run_check check_any value = pure true
run_check (check_custom callback data_) value = pure (callback value data_)

unfoldable pub expect_check : CString → CString → CString → ℕ → Check → ℤ → M (Unit {0})
unfolding add_symbol_value
expect_check function parameter file line check count = do
  let location = set_source_location file line
  let event : CheckParameterEvent = record {
    location = location;
    parameter_name = parameter;
    check = check;
  }
  modify λ g. record g {
    function_parameter_map =
        add_symbol_value 2 g.function_parameter_map (function, (parameter, tt)) event count;
  }

-- The arguments that every _expect_… function has.
module _ (function parameter file : CString) (line : ℕ) where
  unfoldable pub expect_value : ℕ → ℤ → M (Unit {0})
  unfolding expect_check
  expect_value value count =
      expect_check function parameter file line
        (check_value (record { word = value; pointee = [] })) count

  unfoldable pub expect_not_value : ℕ → ℤ → M (Unit {0})
  unfolding expect_check
  expect_not_value value count =
      expect_check function parameter file line
        (check_not_value (record { word = value; pointee = [] })) count

  unfoldable pub expect_string : CMockaValueData → ℤ → M (Unit {0})
  unfolding expect_check
  expect_string string count = expect_check function parameter file line (check_string string) count

  unfoldable pub expect_not_string : CMockaValueData → ℤ → M (Unit {0})
  unfolding expect_check
  expect_not_string string count =
      expect_check function parameter file line (check_not_string string) count

  unfoldable pub expect_in_range : ℕ → ℕ → ℤ → M (Unit {0})
  unfolding expect_check
  expect_in_range minimum maximum count =
      expect_check function parameter file line (check_in_range minimum maximum) count

  unfoldable pub expect_not_in_range : ℕ → ℕ → ℤ → M (Unit {0})
  unfolding expect_check
  expect_not_in_range minimum maximum count =
      expect_check function parameter file line (check_not_in_range minimum maximum) count

  -- expect_memory_setup: `memory` is the copy of the bytes; `assert_true(size)`.
  unfoldable expect_memory_setup : List ℕ → Check → ℤ → M (Unit {0})
  unfolding expect_check assert_true
  expect_memory_setup memory check count = do
    assert_true 2144 (not (length memory == 0)) (codes "size")
    expect_check function parameter file line check count

  unfoldable pub expect_memory : List ℕ → ℤ → M (Unit {0})
  unfolding expect_memory_setup
  expect_memory memory = expect_memory_setup memory (check_memory memory)

  unfoldable pub expect_not_memory : List ℕ → ℤ → M (Unit {0})
  unfolding expect_memory_setup
  expect_not_memory memory = expect_memory_setup memory (check_not_memory memory)

  -- expect_set and the two __expect_…_in_set: `assert_true(number_of_values)`, at that line.
  unfoldable expect_set : ℕ → ℕ → Check → ℤ → M (Unit {0})
  unfolding expect_check assert_true
  expect_set at number_of_values check count = do
    assert_true at (not (number_of_values == 0)) (codes "number_of_values")
    expect_check function parameter file line check count

  unfoldable pub expect_int_in_set : List ℤ → ℤ → M (Unit {0})
  unfolding expect_set
  expect_int_in_set values = expect_set 1876 (length values) (check_int_in_set values)

  unfoldable pub expect_uint_in_set : List ℕ → ℤ → M (Unit {0})
  unfolding expect_set
  expect_uint_in_set values = expect_set 1910 (length values) (check_uint_in_set values)

  unfoldable pub expect_not_in_set : List ℕ → ℤ → M (Unit {0})
  unfolding expect_set
  expect_not_in_set values = expect_set 1850 (length values) (check_not_in_set values)

  unfoldable pub expect_any : ℤ → M (Unit {0})
  unfolding expect_check
  expect_any count = expect_check function parameter file line check_any count

module _ (function_name parameter_name file : CString) (line : ℕ) where
  -- The message of a failed check, and _fail.
  unfoldable pub report_failed_check : SourceLocation → M (Unit {0})
  unfolding cmocka_print_error fail
  report_failed_check location = do
    cmocka_print_error
        "%s:%u: error: Check of parameter %s, function %s failed\n%s:%u: note: Expected parameter declared here\n"
        (str file
          ∷ nat line
          ∷ str parameter_name
          ∷ str function_name
          ∷ str (file_of location)
          ∷ nat location.line
          ∷ [])
    fail file line

  unfoldable pub run_event : CMockaValueData → CheckParameterEvent → M (Unit {0})
  unfolding run_check report_failed_check
  run_event value event = do
    modify (λ g. record g { last_parameter_location = event.location })
    check_succeeded ← run_check event.check value
    when (not check_succeeded) (report_failed_check event.location)

  unfoldable pub report_no_parameter : M (Unit {0})
  unfolding cmocka_print_error exit_test print_last_location
  report_no_parameter = do
    cmocka_print_error "%s:%u: error: Could not get value to check parameter %s of function %s\n"
        (str file ∷ nat line ∷ str parameter_name ∷ str function_name ∷ [])
    g ← gets (λ g. g)
    print_last_location g.last_parameter_location
        "%s:%u: note: Previously declared parameter value was declared here\n"
        "There were no previously declared parameter values for this test.\n"
    exit_test true

  unfoldable pub check_got :
      CMockaValueData → Got CheckParameterEvent (List (Item CheckParameterEvent 2)) → M (Unit {0})
  unfolding run_event report_no_parameter cmocka_print_error assert_true
  check_got value (found rc event map) = do
    modify (λ g. record g { function_parameter_map = map })
    if eq_ℤ rc (pos 0) then report_no_parameter else run_event value event
  check_got value (missing symbol map) = do
    modify (λ g. record g { function_parameter_map = map })
    report_missing symbol
    report_no_parameter
  check_got value no_value = do
    assert_true 856 false (codes "return_value")
    report_missing function_name
    report_no_parameter

  unfoldable pub check_expected : CMockaValueData → M (Unit {0})
  unfolding check_got get_symbol_value
  check_expected value = do
    g ← gets (λ g. g)
    check_got value
        (get_symbol_value 2 g.function_parameter_map (function_name, (parameter_name, tt)))
