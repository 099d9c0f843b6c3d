-- ===== src/Examples/Calculator/Perform.antt =====
-- perform_operation and main of example/calculator.c.
use cmocka.Prelude.{
  ℕ, zero, suc, ◌+◌, ◌-◌, ◌/◌, ◌%◌, ◌^◌, Bool, true, ◌||◌, Option, none, some, List, [], ◌∷◌, ◌++◌,
  CString, String, codes, if◌then◌else◌, ◌==◌, ltb, length, take,
}
use cmocka.Prelude.Int.{ℤ, pos, negsuc, eq_ℤ}
use cmocka.State.{Arg, str, int, nat}
use cmocka.Examples.Calculator.{
  Run, value, asserted, undefined, ◌>>=◌, ◌>>◌, assert, is_set, elements, OperatorFunction,
  operator_function_map, find_operator_function_by_string,
}

-- The conversion of a `long` to an `int`, which wraps around.
unfoldable pub to_int : ℤ → ℤ
to_int (pos n) =
    let low = n % 2 ^ 32 in if ltb low (2 ^ 31) then pos low else negsuc (2 ^ 32 - 1 - low)
to_int (negsuc n) =
    let low = n % 2 ^ 32 in if ltb low (2 ^ 31) then negsuc low else pos (2 ^ 32 - 1 - low)

-- What perform_operation returns and leaves behind its pointers; `intermediate_values` is the array that
-- was allocated, `none` for NULL, and `message` what went to stderr.
pub record Result : Type 0 where
  pub result : ℤ
  pub error_occurred : ℤ
  pub number_of_intermediate_values : ℕ
  pub intermediate_values : Option (List ℤ)
  pub message : Option (String × List Arg)

-- `*intermediate_value = v`, where the pointer is to the element of that index.
unfoldable pub store : ℕ → ℤ → List ℤ → Run (List ℤ)
store n v [] = undefined
store zero v (w ∷ values) = value (v ∷ values)
store (suc n) v (w ∷ values) =
    let rest = store n v values in rest >>= λ values'. value (w ∷ values')

abbrev pub store_value : ℕ → ℤ → Option (List ℤ) → Run (Option (List ℤ))
store_value n v none = undefined
store_value n v (some values) = store n v values >>= λ values'. value (some values')

-- The array of that many zeros.
unfoldable pub zeros : ℕ → List ℤ
zeros zero = []
zeros (suc n) = pos 0 ∷ zeros n

-- The first `n` elements of an array; what is behind its end is not defined.
unfoldable pub first_elements : ℕ → List CString → Run (List CString)
first_elements zero arguments = value []
first_elements (suc n) [] = undefined
first_elements (suc n) (argument ∷ arguments) =
    let rest = first_elements n arguments in rest >>= λ rest'. value (argument ∷ rest')

-- The loop left by a `break` with that message: what has been computed and counted so far is still there.
abbrev pub broken_off : ℤ → ℕ → Option (List ℤ) → String → List Arg → Result
broken_off current count values format args = record {
  result = current;
  error_occurred = pos 1;
  number_of_intermediate_values = count;
  intermediate_values = values;
  message = some (format, args);
}

-- The end of perform_operation behind the loop.
unfoldable pub finish_operation : Result → Result
finish_operation r =
    if eq_ℤ r.error_occurred (pos 0)
    then r
    else record r { intermediate_values = none; number_of_intermediate_values = 0; result = pos 0 }

-- The lines of main for the pairs of an operator and its operand, from `values` on.
unfoldable pub print_steps : List CString → List ℤ → Run (List (String × List Arg))
print_steps [] values = value []
print_steps (operator_string ∷ rest) [] =
    asserted (codes "intermediate_value_index < number_of_intermediate_values")
print_steps (operator_string ∷ []) (v ∷ values) = undefined
print_steps (operator_string ∷ argument ∷ rest) (v ∷ values) =
    let lines = print_steps rest values in
    lines >>= λ lines'.
    value (("  %s %s = %d\n", str operator_string ∷ str argument ∷ int v ∷ []) ∷ lines')

-- `strtol` answers `none` where it leaves `end_of_integer` at the start; the first argument of `calloc_ok`
-- is the number of elements.
module _ (strtol : CString → Option ℤ) (calloc_ok : ℕ → Bool) where
  -- The loop from argument `i` on; its result is what holds behind the loop.
  unfoldable pub perform_rest :
      ℕ → Option (List OperatorFunction) → ℕ → ℤ → List CString → ℕ → Option (List ℤ) → Run Result
  unfolding find_operator_function_by_string to_int store
  perform_rest number_of_functions functions i current [] count values = value (record {
    result = current;
    error_occurred = pos 0;
    number_of_intermediate_values = count;
    intermediate_values = values;
    message = none;
  })
  perform_rest number_of_functions functions i current (operator_string ∷ []) count values =
      find_operator_function_by_string number_of_functions functions (some operator_string)
      >>= λ found. elim found [
        | none ↦ value (
            broken_off current (count + 1) values "Unknown operator %s, argument %d\n"
              (str operator_string ∷ nat i ∷ []))
        | some function ↦ value (
            broken_off current (count + 1) values "Binary operator %s missing argument\n"
              (str operator_string ∷ []))
      ]
  perform_rest number_of_functions functions i current (operator_string ∷ argument ∷ rest) count
        values =
      find_operator_function_by_string number_of_functions functions (some operator_string)
      >>= λ found. elim found [
        | none ↦ value (
            broken_off current (count + 1) values "Unknown operator %s, argument %d\n"
              (str operator_string ∷ nat i ∷ []))
        | some function ↦ elim (strtol argument) [
          | none ↦ value (
              broken_off current (count + 1) values "Unable to parse integer %s of argument %d\n"
                (str argument ∷ nat (i + 1) ∷ []))
          | some n ↦ function current (to_int n) >>= λ v. store_value count v values >>= λ values'.
              perform_rest number_of_functions functions (i + 2) v rest (count + 1) values'
        ]
      ]

  -- The first value, and the array for the others.
  unfoldable pub perform_from : ℕ → Option (List OperatorFunction) → ℕ → List CString → Run Result
  unfolding perform_rest zeros to_int finish_operation
  perform_from number_of_functions functions number_of_arguments [] = value (record {
    result = pos 0;
    error_occurred = pos 0;
    number_of_intermediate_values = 0;
    intermediate_values = none;
    message = none;
  })
  perform_from number_of_functions functions number_of_arguments (argument ∷ rest) =
      elim (strtol argument) [
        | none ↦ value (record {
          result = pos 0;
          error_occurred = pos 1;
          number_of_intermediate_values = 0;
          intermediate_values = none;
          message = some ("Unable to parse integer from argument %s\n", str argument ∷ []);
        })
        | some n ↦
            let size = (number_of_arguments - 1) / 2 in
            perform_rest number_of_functions functions 1 (to_int n) rest 0
              (if calloc_ok size then some (zeros size) else none)
            >>= λ r. value (finish_operation r)
      ]

  -- The last three arguments say whether a pointer is not NULL.
  unfoldable pub perform_operation :
      ℕ
      → Option (List CString)
      → ℕ
      → Option (List OperatorFunction)
      → Bool
      → Bool
      → Bool
      → Run Result
  unfolding perform_from first_elements
  perform_operation number_of_arguments arguments number_of_functions functions has_error_occurred
        has_number has_values =
      do
        assert (number_of_arguments == 0 || is_set arguments)
            (codes "!number_of_arguments || arguments")
        assert (number_of_functions == 0 || is_set functions)
            (codes "!number_of_operator_functions || operator_functions")
        assert has_error_occurred (codes "error_occurred != NULL")
        assert has_number (codes "number_of_intermediate_values != NULL")
        assert has_values (codes "intermediate_values != NULL")
        given ← first_elements number_of_arguments (elements arguments)
        perform_from number_of_functions functions number_of_arguments given

  -- The exit status of main, and what it has printed to stdout; `arguments` are those behind the name of
  -- the program.
  unfoldable pub main : List CString → Run (ℤ × List (String × List Arg))
  unfolding perform_operation operator_function_map print_steps
  main arguments =
      perform_operation (length arguments) (some arguments) 4 (some operator_function_map) true true
        true
      >>= λ r. elim arguments [
        | [] ↦ value (r.error_occurred, [])
        | argument ∷ rest ↦
            if eq_ℤ r.error_occurred (pos 0)
            then (print_steps rest
                  (take r.number_of_intermediate_values (elements r.intermediate_values))
                >>= λ lines. value (
                  r.error_occurred,
                  ("%s\n", str argument ∷ []) ∷ lines ++ ("= %d\n", int r.result ∷ []) ∷ [],
                ))
            else value (r.error_occurred, [])
      ]
