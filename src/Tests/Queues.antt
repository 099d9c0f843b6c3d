-- ===== src/Tests/Queues.antt =====
-- The symbol maps, the mock values, the call ordering and the expectations at concrete states.
use cmocka.Mocks.Calls.{function_called}
use cmocka.Prelude.{
  ℕ, ◌≡◌, refl, none, List, [], ◌∷◌, ◌++◌, CString, codes, replicate, if◌then◌else◌,
}
use cmocka.Prelude.{str_eq}
use cmocka.Prelude.Int.{pos, negsuc}
use cmocka.State.{Global}
use cmocka.State.{check_value}
use cmocka.State.Run.{ok, NeverReturns, ◌>>◌}
use cmocka.Symbols.{find_child, Item, add_symbol_value, get_symbol_value}
use cmocka.Symbols.Queue.{queue, IsWellFormed, same_names}
use cmocka.Symbols.Add.{add_symbol_value-IsWellFormed, queue-add_symbol_value}
use cmocka.Symbols.Get.{Answers, get_symbol_value-Answers}
use cmocka.Mocks.{mock, will_return}
use cmocka.Mocks.Values.{Serves, returns, mock-Serves}
use cmocka.Mocks.Counts.{mock_times, mock_times-will_return}
use cmocka.Mocks.Ordering.{Obeys, function_called_iff}
use cmocka.Expect.{check_expected}
use cmocka.Expect.Outcome.{Checks, expectations, check_expected-Checks}
use cmocka.Prelude.{Bool, false, ◌↔◌}
use cmocka.Mocks.Leftover.{has_leftover_values}
use cmocka.Mocks.Settled.{IsSettled, has_leftover_values_iff}
use cmocka.Tests.{start, word, nowhere, file}

abbrev open_name : CString
open_name = codes "open"

-- One value left for `open`, and two for `read`.
abbrev values : List (Item ℕ 1)
values =
    record {
      symbol_name = codes "open";
      symbol_values_list_head = record { value = 3; refcount = pos 1 } ∷ [];
    }
    ∷ record {
      symbol_name = codes "read";
      symbol_values_list_head =
          record { value = 5; refcount = pos 2 } ∷ record { value = 6; refcount = negsuc 0 } ∷ [];
    }
    ∷ []

values-IsWellFormed : IsWellFormed ℕ 1 values
unfolding str_eq
values-IsWellFormed = ((refl, tt), refl, tt, (tt, refl, tt, tt))

get_symbol_value-Answers_example :
    Answers 1 values (codes "open", tt) (get_symbol_value 1 values (codes "open", tt))
get_symbol_value-Answers_example =
    get_symbol_value-Answers ℕ 0 values (codes "open", tt) values-IsWellFormed

queue-add_symbol_value_example :
    queue 1 (add_symbol_value 1 values (codes "open", tt) 9 (pos 1)) (codes "open", tt) ≡ (
      if same_names 1 (codes "open", tt) (codes "open", tt)
      then queue 1 values (codes "open", tt) ++ record { value = 9; refcount = pos 1 } ∷ []
      else queue 1 values (codes "open", tt))
queue-add_symbol_value_example =
    queue-add_symbol_value 9 (pos 1) 1 values (codes "open", tt) (codes "open", tt)

add_symbol_value-IsWellFormed_example :
    IsWellFormed ℕ 1 (add_symbol_value 1 values (codes "close", tt) 9 (pos 1))
add_symbol_value-IsWellFormed_example =
    add_symbol_value-IsWellFormed 9 (pos 1) 1 values (codes "close", tt) values-IsWellFormed

-- A state with one value for `open`.
abbrev with_result : Global
with_result = record start {
  function_result_map =
      record {
        symbol_name = open_name;
        symbol_values_list_head =
            record {
              value = record { name = none; location = nowhere; value = word 3 };
              refcount = pos 2;
            }
            ∷ [];
      }
      ∷ [];
}

mock-Serves_example :
    Serves open_name file 4 none
      (returns with_result open_name)
      with_result
      (mock open_name file 4 none with_result)
mock-Serves_example = mock-Serves open_name file 4 none with_result (tt, refl, tt, tt)

mock_times-will_return_example :
    (g' : Global) × ((will_return open_name file 4 none (word 3) (pos 2)
          >> mock_times open_name file 4 2)
        start
      ≡ ok (replicate 2 (word 3)) g')
    × NeverReturns (mock open_name file 4 none g')
unfolding find_child
mock_times-will_return_example =
    mock_times-will_return open_name file 4 none (word 3) start 1 tt refl

abbrev call_names : List CString
call_names = open_name ∷ codes "read" ∷ open_name ∷ []

-- A state in which `read` may be called, and then `open` must be.
abbrev with_ordering : Global
with_ordering = record start {
  call_ordering =
      record { value = record { location = nowhere; function = codes "read" }; refcount = negsuc 1 }
      ∷ record { value = record { location = nowhere; function = open_name }; refcount = pos 1 }
      ∷ [];
}

function_called_iff_example :
    Obeys open_name file 4 with_ordering with_ordering.call_ordering
      (function_called open_name file 4 with_ordering)
function_called_iff_example = function_called_iff open_name file 4 with_ordering

-- A state that expects 3 for the parameter `fd` of `open`.
abbrev with_expectation : Global
with_expectation = record start {
  function_parameter_map =
      record {
        symbol_name = open_name;
        symbol_values_list_head =
            record {
              symbol_name = codes "fd";
              symbol_values_list_head =
                  record {
                    value = record {
                      location = nowhere;
                      parameter_name = codes "fd";
                      check = check_value (word 3);
                    };
                    refcount = pos 1;
                  }
                  ∷ [];
            }
            ∷ [];
      }
      ∷ [];
}

check_expected-Checks_example :
    Checks open_name
      (codes "fd")
      file
      4
      (word 3)
      (expectations with_expectation open_name (codes "fd"))
      with_expectation
      (check_expected open_name (codes "fd") file 4 (word 3) with_expectation)
check_expected-Checks_example =
    check_expected-Checks open_name (codes "fd") file 4 (word 3) with_expectation
      (tt, refl, (tt, refl, tt, tt), tt)

has_leftover_values_iff_example :
    (left : Bool) × (g' : Global) × (has_leftover_values with_result ≡ ok left g')
    × ((left ≡ false) ↔ IsSettled with_result)
has_leftover_values_iff_example = has_leftover_values_iff with_result (tt, refl, tt, tt) tt
