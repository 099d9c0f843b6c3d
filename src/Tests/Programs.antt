-- ===== src/Tests/Programs.antt =====
-- The example programs at concrete arguments.
use cmocka.Prelude.{
  ℕ, ◌-◌, ◌≡◌, ◌↔◌, refl, Bool, true, Option, none, some, List, [], ◌∷◌, ◌++◌, CString, String,
  codes, if◌then◌else◌, leb, ◌&&◌, arith, length, str_eq,
}
use cmocka.Prelude.Int.{ℤ, pos, ◌-ℤ◌}
use cmocka.State.{Arg, str, int}
use cmocka.Examples.Calculator.{
  undefined, value, operator_function_map, find_operator_function_by_string, subtract,
}
use cmocka.Examples.Calculator.Perform.{to_int, Result, main, print_steps}
use cmocka.Examples.Calculator.Evaluates.{end, step, success, last_or}
use cmocka.Examples.Calculator.Outcome.{given, IsEvaluated, perform_operation_iff, main-prints}
use cmocka.Examples.Calculator.Bounds.{ExpressionOverflows, perform_operation-Overflows}

-- `strtol` on texts of one digit.
abbrev digit : CString → Option ℤ
digit [] = none
digit (c ∷ text) = if leb b'0' c && leb c b'9' then some (pos (c - b'0')) else none

abbrev served : ℕ → Bool
served n = true

abbrev difference : List CString
difference = codes "-" ∷ codes "2" ∷ []

perform_operation_iff_example :
    ((given digit served (codes "7" ∷ difference) 4 operator_function_map
        ≡ value (success (pos 5) (pos 5 ∷ [])))
      × (pos 0 ≡ pos 0))
    ↔ ((n : ℤ) × (values : List ℤ) × IsEvaluated digit served
          (codes "7")
          difference
          4
          operator_function_map
          n
          values
        × (success (pos 5) (pos 5 ∷ []) ≡ success (last_or (to_int n) values) values))
perform_operation_iff_example =
    perform_operation_iff digit served (codes "7") difference 4 operator_function_map
      (success (pos 5) (pos 5 ∷ [])) refl

abbrev nothing_done : Result
nothing_done = record {
  result = pos 0;
  error_occurred = pos 1;
  number_of_intermediate_values = 0;
  intermediate_values = none;
  message = some ("Binary operator %s missing argument\n", str (codes "+") ∷ []);
}

seven_less_two :
    IsEvaluated digit served (codes "7") difference 4 operator_function_map (pos 7) (pos 5 ∷ [])
unfolding find_operator_function_by_string operator_function_map str_eq subtract to_int ◌-ℤ◌
seven_less_two = (refl, step refl refl refl end)

main-prints_example :
    (lines : List (String × List Arg)) × (main digit served (codes "7" ∷ difference)
      ≡ value (pos 0, ("%s\n", str (codes "7") ∷ []) ∷ lines ++ ("= %d\n", int (pos 5) ∷ []) ∷ []))
    × (print_steps difference (pos 5 ∷ []) ≡ value lines)
    × (length lines ≡ 1)
unfolding last_or to_int
main-prints_example =
    main-prints digit served (codes "7") difference (pos 7) (pos 5 ∷ []) refl seven_less_two

abbrev largest : CString → Option ℤ
largest text = some (pos 2147483647)

abbrev too_large : List CString
too_large = codes "2147483647" ∷ codes "+" ∷ codes "2147483647" ∷ []

perform_operation-Overflows_example :
    (given largest served too_large 4 operator_function_map ≡ undefined)
    ↔ ExpressionOverflows largest 4 operator_function_map too_large
unfolding operator_function_map
perform_operation-Overflows_example =
    perform_operation-Overflows largest served too_large 4 operator_function_map (omega arith) refl
