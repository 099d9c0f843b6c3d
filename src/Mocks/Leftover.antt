-- ===== src/Mocks/Leftover.antt =====
-- The end of a test in src/cmocka.c: values and calls that are left over.
use cmocka.Prelude.{Bool, true, not, ◌||◌, List, [], ◌∷◌}
use cmocka.Prelude.{◌==◌, String, length}
use cmocka.State.{
  Libc, ListNode, FuncOrderingValue, str, nat, SourceLocation, SymbolValue, CheckParameterEvent,
}
use cmocka.State.Run.{M, pure, ◌>>=◌, ◌>>◌, modify, gets, when}
use cmocka.Report.{cmocka_print_error, exit_test}
use cmocka.Mocks.{file_of}
use cmocka.Symbols.{Item, list_empty, check_for_leftover_values, remove_always_return_values}
use cmocka.Symbols.{remove_always_return_values_from_list}

-- `note: remaining item was declared here` for each value
unfoldable pub report_items : {V : Type 0} → (V → SourceLocation) → List (ListNode V) → M (Unit {0})
unfolding cmocka_print_error
report_items location [] = pure tt
report_items location (node ∷ rest) = do
  let declared = location node.value
  cmocka_print_error "%s:%u: note: remaining item was declared here\n"
      (str (file_of declared) ∷ nat declared.line ∷ [])
  report_items location rest

-- What check_for_leftover_values prints for a map over one name.
unfoldable pub report_values :
    {V : Type 0} → (V → SourceLocation) → String → List (Item V 1) → M (Unit {0})
unfolding cmocka_print_error report_items
report_values location format [] = pure tt
report_values location format (m ∷ map) = do
  let values = m.symbol_values_list_head
  when (not (list_empty values))
      (do cmocka_print_error format (str m.symbol_name ∷ []); report_items location values)
  report_values location format map

-- And for a map over two names.
unfoldable pub report_parameters :
    {V : Type 0} → (V → SourceLocation) → String → List (Item V 2) → M (Unit {0})
unfolding cmocka_print_error report_values
report_parameters location format [] = pure tt
report_parameters location format (m ∷ map) = do
  let parameters = m.symbol_values_list_head
  when (not (list_empty parameters)) (do
    cmocka_print_error "%s: " (str m.symbol_name ∷ [])
    report_values location format parameters)
  report_parameters location format map

-- check_for_leftover_values_list
unfoldable pub report_calls : List (ListNode FuncOrderingValue) → M (Unit {0})
unfolding cmocka_print_error
report_calls [] = pure tt
report_calls (node ∷ rest) = do
  let call = node.value
  cmocka_print_error "Function was expected to be called but was not: %s\n" (str call.function ∷ [])
  cmocka_print_error "%s:%u: note: remaining item was declared here\n"
      (str (file_of call.location) ∷ nat call.location.line ∷ [])
  report_calls rest

-- The cast of the value to a SourceLocation: a SymbolValue starts with its name, and the file's pointer
-- stands where the line is read.
abbrev pub symbol_location : Libc → SymbolValue → SourceLocation
symbol_location libc v = record { file = v.name; line = libc.int_of_pointer v.location.file }

abbrev pub event_location : CheckParameterEvent → SourceLocation
event_location v = v.location

-- The three parts of has_leftover_values: for each kind of value, what may be left is removed, and the
-- rest is reported.
unfoldable pub leftover_results : M Bool
leftover_results = do
  modify (λ g. record g {
    function_result_map = remove_always_return_values SymbolValue 1 g.function_result_map;
  })
  g ← gets (λ g. g)
  report_values (symbol_location g.libc) "Has remaining non-returned values: %s\n"
      g.function_result_map
  pure (not (check_for_leftover_values g.function_result_map == 0))

unfoldable pub leftover_parameters : M Bool
leftover_parameters = do
  modify (λ g. record g {
    function_parameter_map =
        remove_always_return_values CheckParameterEvent 2 g.function_parameter_map;
  })
  g ← gets (λ g. g)
  report_parameters event_location "Parameter still has values that haven't been checked: %s\n"
      g.function_parameter_map
  pure (not (check_for_leftover_values g.function_parameter_map == 0))

unfoldable pub leftover_calls : M Bool
leftover_calls = do
  modify (λ g. record g { call_ordering = remove_always_return_values_from_list g.call_ordering })
  g ← gets (λ g. g)
  report_calls g.call_ordering
  pure (not (length g.call_ordering == 0))

unfoldable pub has_leftover_values : M Bool
has_leftover_values = do
  results ← leftover_results
  parameters ← leftover_parameters
  calls ← leftover_calls
  pure (results || parameters || calls)

unfoldable pub fail_if_leftover_values : M (Unit {0})
unfolding has_leftover_values exit_test
fail_if_leftover_values = do leftover ← has_leftover_values; when leftover (exit_test true)
