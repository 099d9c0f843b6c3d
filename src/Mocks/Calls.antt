-- ===== src/Mocks/Calls.antt =====
-- The call ordering of src/cmocka.c: _expect_function_call and _function_called.
use cmocka.Prelude.{ℕ, true, not, List, [], ◌∷◌}
use cmocka.Prelude.{◌++◌, CString, str_eq, if◌then◌else◌, codes}
use cmocka.Prelude.Int.{ℤ, pos, negsuc, pred_ℤ, ltb_ℤ, eq_ℤ}
use cmocka.State.{ListNode, FuncOrderingValue}
use cmocka.State.{str, nat}
use cmocka.State.Run.{M, ◌>>=◌, ◌>>◌, modify, gets}
use cmocka.Report.{cmocka_print_error, exit_test}
use cmocka.Symbols.{list_empty}
use cmocka.Mocks.{set_source_location, assert_true}

unfoldable pub expect_function_call : CString → CString → ℕ → ℤ → M (Unit {0})
unfolding assert_true
expect_function_call function_name file line count = do
  assert_true 1194 (not (eq_ℤ count (pos 0))) (codes "count != 0")
  let location = set_source_location file line
  let ordering : FuncOrderingValue = record { location = location; function = function_name }
  modify λ g. record g {
    call_ordering = g.call_ordering ++ record { value = ordering; refcount = count } ∷ [];
  }

-- How the search loop of _function_called ends: at the end of the list, at a call of that name with the
-- list as it is afterwards, or at an expected call of another name.
pub data Search : Type 0 where
  at_end : Search
  called : List (ListNode FuncOrderingValue) → Search
  expected_other : CString → Search

-- The node that was found, and the nodes behind it.
unfoldable pub use_node :
    ListNode FuncOrderingValue
    → List (ListNode FuncOrderingValue)
    → List (ListNode FuncOrderingValue)
use_node node rest =
    if ltb_ℤ (negsuc 1) node.refcount
    then (if eq_ℤ (pred_ℤ node.refcount) (pos 0)
        then rest
        else record node { refcount = pred_ℤ node.refcount } ∷ rest)
    else node ∷ rest

abbrev pub behind : ListNode FuncOrderingValue → Search → Search
behind node at_end = at_end
behind node (called rest) = called (node ∷ rest)
behind node (expected_other name) = expected_other name

-- A node whose count is below -1 is passed over; any other that is not the call ends the search.
unfoldable pub search_call : CString → List (ListNode FuncOrderingValue) → Search
unfolding use_node
search_call function [] = at_end
search_call function (node ∷ rest) =
    let onward = search_call function rest in
    if str_eq node.value.function function
    then called (use_node node rest)
    else if ltb_ℤ (negsuc 1) node.refcount
    then expected_other node.value.function
    else behind node onward

unfoldable pub after_search : CString → CString → ℕ → Search → M (Unit {0})
unfolding cmocka_print_error exit_test
after_search function file line at_end = do
  cmocka_print_error "%s:%u: error: No expected mock calls matching called() invocation in %s\n"
      (str file ∷ nat line ∷ str function ∷ [])
  exit_test true
after_search function file line (called ordering) =
    modify λ g. record g { call_ordering = ordering }
after_search function file line (expected_other name) = do
  cmocka_print_error "%s:%u: error: Expected call to %s but received called() in %s\n"
      (str file ∷ nat line ∷ str name ∷ str function ∷ [])
  exit_test true

unfoldable pub function_called : CString → CString → ℕ → M (Unit {0})
unfolding cmocka_print_error exit_test search_call after_search
function_called function file line = do
  g ← gets (λ g. g)
  if list_empty g.call_ordering
      then (do
        cmocka_print_error "%s:%u: error: No mock calls expected but called() was invoked in %s\n"
            (str file ∷ nat line ∷ str function ∷ [])
        exit_test true)
      else after_search function file line (search_call function g.call_ordering)
