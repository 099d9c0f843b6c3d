-- ===== src/Mocks.antt =====
-- The mock support of src/cmocka.c: _will_return and _mock, and how a test begins and ends.
pub mod Calls
pub mod Leftover
pub mod Settled
pub mod Values
pub mod Counts
pub mod Ordering
use cmocka.Prelude.{ℕ, ◌+◌, Bool, true, false, not, ◌&&◌, ◌||◌, Option, none, some, List, [], ◌∷◌}
use cmocka.Prelude.{◌++◌, CString, str_eq, if◌then◌else◌, ◌==◌, length, codes, String}
use cmocka.Prelude.Int.{ℤ, pos, negsuc, pred_ℤ, ltb_ℤ, eq_ℤ}
use cmocka.State.{Global, SourceLocation, ListNode, SymbolValue, CMockaValueData, FuncOrderingValue}
use cmocka.State.{str, nat}
use cmocka.State.Run.{M, ok, pure, ◌>>=◌, ◌>>◌, modify, gets, when, undefined}
use cmocka.Report.{cmocka_print_error, exit_test, fail}
use cmocka.Symbols.{
  Got, found, missing, no_value, Item, list_empty, add_symbol_value, get_symbol_value,
}
use cmocka.Symbols.{remove_always_return_values, remove_always_return_values_from_list}
use cmocka.Symbols.{check_for_leftover_values}

abbrev pub no_location : SourceLocation
no_location = record { file = none; line = 0 }

abbrev file_is_set : Option CString → ℕ → Bool
file_is_set none line = false
file_is_set (some file) line = not (line == 0)

unfoldable pub source_location_is_set : SourceLocation → Bool
source_location_is_set location = file_is_set location.file location.line

abbrev pub set_source_location : CString → ℕ → SourceLocation
set_source_location file line = record { file = some file; line = line }

-- The `:f` and `:u` of a location that is printed.
abbrev pub file_of : SourceLocation → CString
file_of location = elim location.file [ none ↦ [] | some file ↦ file ]

-- The third location that is reset is last_parameter_location again.
unfoldable pub initialize_testing : M (Unit {0})
initialize_testing = modify λ g. record g {
  function_result_map = [];
  last_mock_value_location = no_location;
  function_parameter_map = [];
  last_parameter_location = no_location;
  call_ordering = [];
}

unfoldable pub teardown_testing : M (Unit {0})
teardown_testing = modify λ g. record g {
  function_result_map = [];
  last_mock_value_location = no_location;
  function_parameter_map = [];
  last_parameter_location = no_location;
  call_ordering = [];
  last_call_ordering_location = no_location;
}

-- `assert_true(condition)` inside the library, at that line of src/cmocka.c.
unfoldable pub assert_true : ℕ → Bool → CString → M (Unit {0})
unfolding cmocka_print_error fail
assert_true at condition expression =
    if not condition
    then (do
      cmocka_print_error "%s is not true\n" (str expression ∷ [])
      fail (codes "src/cmocka.c") at)
    else pure tt

unfoldable pub will_return :
    CString → CString → ℕ → Option CString → CMockaValueData → ℤ → M (Unit {0})
unfolding assert_true add_symbol_value
will_return function_name file line name value count = do
  assert_true 1141 (not (eq_ℤ count (pos 0))) (codes "count != 0")
  let location = set_source_location file line
  let return_value : SymbolValue = record { name = name; location = location; value = value }
  modify λ g. record g {
    function_result_map =
        add_symbol_value 1 g.function_result_map (function_name, tt) return_value count;
  }

-- `name != NULL` and the value's name is missing or another
abbrev pub is_mismatch : Option CString → Option CString → Bool
is_mismatch none stored = false
is_mismatch (some name) none = true
is_mismatch (some name) (some stored) = not (str_eq name stored)

abbrev null_data : CMockaValueData
null_data = record { word = 0; pointee = [] }

abbrev printed_name : Option CString → CString
printed_name none = codes "NULL"
printed_name (some name) = name

unfoldable pub note_last_value : M (Unit {0})
unfolding source_location_is_set cmocka_print_error
note_last_value = do
  g ← gets (λ g. g)
  let location = g.last_mock_value_location
  when (source_location_is_set location) (
      cmocka_print_error "NOTE: The value to be returned by mock declared here: %s:%u\n"
        (str (file_of location) ∷ nat location.line ∷ []))

-- The branch of _mock for a value whose name is not the one asked for.
unfoldable pub report_mismatch : CString → CString → ℕ → Option CString → SymbolValue → M (Unit {0})
unfolding cmocka_print_error exit_test note_last_value
report_mismatch function file line name symbol = do
  cmocka_print_error "%s:%u: error: Type mismatch: name[%s] expected[%s]in %s\n" (
      str file
      ∷ nat line
      ∷ str (printed_name symbol.name)
      ∷ str (printed_name name)
      ∷ str function
      ∷ [])
  note_last_value
  exit_test true

-- `rc` is not 0.
unfoldable pub mock_value : CString → CString → ℕ → Option CString → SymbolValue → M CMockaValueData
unfolding report_mismatch
mock_value function file line name symbol = do
  when (is_mismatch name symbol.name) (report_mismatch function file line name symbol)
  modify (λ g. record g { last_mock_value_location = symbol.location })
  pure symbol.value

-- The location, where it is set, or that there is none.
unfoldable pub print_last_location : SourceLocation → String → String → M (Unit {0})
unfolding cmocka_print_error source_location_is_set
print_last_location location declared not_declared =
    if source_location_is_set location
    then cmocka_print_error declared (str (file_of location) ∷ nat location.line ∷ [])
    else cmocka_print_error not_declared []

unfoldable pub report_no_value : CString → CString → ℕ → M (Unit {0})
unfolding cmocka_print_error exit_test print_last_location
report_no_value function file line = do
  cmocka_print_error "%s:%u: error: Could not get value to mock function %s\n"
      (str file ∷ nat line ∷ str function ∷ [])
  g ← gets (λ g. g)
  print_last_location g.last_mock_value_location
      "%s:%u: note: Previously returned mock value was declared here\n"
      "There were no previously returned mock values for this test.\n"
  exit_test true

unfoldable pub no_mock_value : CString → CString → ℕ → M CMockaValueData
unfolding report_no_value
no_mock_value function file line = report_no_value function file line >>= λ _. pure null_data

-- A symbol that is missing has been reported by get_symbol_value; `no_value` is its failed assertion.
abbrev pub report_missing : CString → M (Unit {0})
report_missing symbol = cmocka_print_error "No entries for symbol %s.\n" (str symbol ∷ [])

unfoldable pub mock_got :
    CString
    → CString
    → ℕ
    → Option CString
    → Got SymbolValue (List (Item SymbolValue 1))
    → M CMockaValueData
unfolding mock_value no_mock_value cmocka_print_error assert_true
mock_got function file line name (found rc symbol map) = do
  modify (λ g. record g { function_result_map = map })
  if eq_ℤ rc (pos 0)
      then no_mock_value function file line
      else mock_value function file line name symbol
mock_got function file line name (missing symbol map) = do
  modify (λ g. record g { function_result_map = map })
  report_missing symbol
  no_mock_value function file line
mock_got function file line name no_value = do
  assert_true 856 false (codes "return_value")
  report_missing function
  no_mock_value function file line

unfoldable pub mock : CString → CString → ℕ → Option CString → M CMockaValueData
unfolding mock_got get_symbol_value
mock function file line name = do
  g ← gets (λ g. g)
  mock_got function file line name (get_symbol_value 1 g.function_result_map (function, tt))
