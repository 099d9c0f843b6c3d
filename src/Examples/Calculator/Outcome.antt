-- ===== src/Examples/Calculator/Outcome.antt =====
-- What perform_operation and main do with the expression: without an error, and with one.
use cmocka.Prelude.{
  ℕ, suc, ◌-◌, ◌/◌, ◌≡◌, refl, sym, ◌∙◌, ◌||◌, ◌==◌, ◌↔◌, ◌⊎◌, inl, inr, Bool, true, false, Option,
  none, some, subst, List, [], ◌∷◌, ◌++◌, CString, String, length, take-length, arith, ap,
}
use cmocka.Prelude.Int.{ℤ, pos}
use cmocka.State.{Arg, str, int}
use cmocka.Examples.Calculator.{Run, value, ◌>>=◌, OperatorFunction, operator_function_map}
use cmocka.Examples.Calculator.Perform.{
  to_int, Result, finish_operation, zeros, perform_rest, first_elements, perform_from,
  perform_operation, print_steps, main,
}
use cmocka.Examples.Calculator.Evaluates.{
  Steps, end, step, last_or, success, IsReported, Run-cases, Steps-length, rest_complete,
  rest_cases, value-inj, Option-cases,
}

pub or_true : (b : Bool) → (b || true) ≡ true
or_true true = refl
or_true false = refl

first_elements-all : (l : List CString) → first_elements (length l) l ≡ value l
unfolding first_elements
first_elements-all [] = refl
first_elements-all (x ∷ l) = rw (first_elements-all l)

abbrev pub given :
    (CString → Option ℤ) → (ℕ → Bool) → List CString → ℕ → List OperatorFunction → Run Result
given strtol calloc_ok arguments number_of_functions functions =
    perform_operation strtol calloc_ok (length arguments) (some arguments) number_of_functions
      (some functions) true true true

-- Behind the assertions.
pub given_lem :
    (strtol : CString → Option ℤ) (calloc_ok : ℕ → Bool) (arguments : List CString)
    (number_of_functions : ℕ) (functions : List OperatorFunction)
    → given strtol calloc_ok arguments number_of_functions functions
      ≡ perform_from strtol calloc_ok number_of_functions
          (some functions)
          (length arguments)
          arguments
unfolding perform_operation
given_lem strtol calloc_ok arguments number_of_functions functions =
    rw
      (
        or_true (length arguments == 0),
        or_true (number_of_functions == 0),
        first_elements-all arguments,
      )
      refl

-- An error: 0 is returned with the flag at 1, no count, the pointer NULL and a message on stderr.
abbrev pub IsFailed : Result → Type 0
IsFailed r =
    (r.result ≡ pos 0)
    × (r.error_occurred ≡ pos 1)
    × (r.number_of_intermediate_values ≡ 0)
    × (r.intermediate_values ≡ none)
    × ((format : String) × (args : List Arg) × (r.message ≡ some (format, args)))

finish_operation-IsFailed : (r : Result) → IsReported r → IsFailed (finish_operation r)
unfolding finish_operation
finish_operation-IsFailed r (flag, message) = rw flag (refl, refl, refl, refl, message)

module _ (strtol : CString → Option ℤ) (calloc_ok : ℕ → Bool) (argument : CString)
    (rest : List CString) (number_of_functions : ℕ) (functions : List OperatorFunction) where
  -- The first argument is a number, and the others are steps from it on.
  abbrev pub IsEvaluated : ℤ → List ℤ → Type 0
  IsEvaluated n values =
      (strtol argument ≡ some n)
      × Steps strtol number_of_functions (some functions) (to_int n) rest values

  given_complete :
      (n : ℤ) (values : List ℤ)
      → calloc_ok (length rest / 2) ≡ true
      → IsEvaluated n values
      → given strtol calloc_ok (argument ∷ rest) number_of_functions functions
        ≡ value (success (last_or (to_int n) values) values)
  unfolding perform_from finish_operation
  given_complete n values served (a, s) =
      let size : length rest / 2 ≡ length values =
        omega (arith, Steps-length strtol number_of_functions (some functions) s) in
      let halved : (length (argument ∷ rest) - 1) / 2 ≡ length values = omega (arith, size) in
      let room : calloc_ok (length values) ≡ true = cc (size, served) in
      rw
        (
          given_lem strtol calloc_ok (argument ∷ rest) number_of_functions functions,
          perform_from,
          a,
          halved,
          room,
        )
        (rw
          (rest_complete strtol number_of_functions (some functions) calloc_ok 1 0 (to_int n) rest
            [] values (zeros (length values)) refl refl s)
          refl)

  -- The loop, and what comes behind it.
  loop_cases :
      (n : ℤ) (array : Option (List ℤ)) (r : Result)
      → strtol argument ≡ some n
      → (perform_rest strtol calloc_ok number_of_functions
            (some functions)
            1
            (to_int n)
            rest
            0
            array
          >>= λ s. value (finish_operation s))
        ≡ value r
      → ((m : ℤ) × (values : List ℤ) × IsEvaluated m values) ⊎ IsFailed r
  loop_cases n array r a run =
      elim (Run-cases (
        perform_rest strtol calloc_ok number_of_functions (some functions) 1 (to_int n) rest 0
          array)) [
            | inl (s, e) ↦
                elim (rest_cases strtol number_of_functions (some functions) calloc_ok 1 0
                  (to_int n) rest array s e) [
                    | inl (values, steps) ↦ inl (n, values, (a, steps))
                    | inr wrong ↦ inr (
                        subst IsFailed (value-inj (rw e at run))
                          (finish_operation-IsFailed s wrong))
                  ]
            | inr (inl (expression, e)) ↦ cc (rw e at run)
            | inr (inr e) ↦ cc (rw e at run)
          ]

  given_cases :
      (r : Result)
      → given strtol calloc_ok (argument ∷ rest) number_of_functions functions ≡ value r
      → ((n : ℤ) × (values : List ℤ) × IsEvaluated n values) ⊎ IsFailed r
  unfolding perform_from
  given_cases r run =
      let behind =
        sym (given_lem strtol calloc_ok (argument ∷ rest) number_of_functions functions) ∙ run in
      elim (Option-cases (strtol argument)) [
        | inl a ↦ inr (
            subst IsFailed (value-inj (rw (perform_from, a) at behind))
              (refl, refl, refl, refl, (_, _, refl)))
        | inr (n, a) ↦ loop_cases n _ r a (rw (perform_from, a) at behind)
      ]

-- Where calloc succeeds for half as many values as there are arguments behind the first,
-- perform_operation returns a result without an error exactly where the first argument is a number
-- and the others are pairs of a known operator and a number whose operations are defined one behind
-- another; the result is then the last value, and the array holds the values of all steps and
-- nothing else.
pub perform_operation_iff :
    (strtol : CString → Option ℤ) (calloc_ok : ℕ → Bool) (argument : CString) (rest : List CString)
    (number_of_functions : ℕ) (functions : List OperatorFunction) (r : Result)
    → calloc_ok (length rest / 2) ≡ true
    → ((given strtol calloc_ok (argument ∷ rest) number_of_functions functions ≡ value r)
        × (r.error_occurred ≡ pos 0))
      ↔ ((n : ℤ) × (values : List ℤ) × IsEvaluated strtol calloc_ok argument rest
            number_of_functions functions n values
          × (r ≡ success (last_or (to_int n) values) values))
perform_operation_iff strtol calloc_ok argument rest number_of_functions functions r served =
    let complete = given_complete strtol calloc_ok argument rest number_of_functions functions in
    (
      λ (run, e).
          elim (given_cases strtol calloc_ok argument rest number_of_functions functions r run) [
            | inl (n, values, h) ↦ (n, values, h, value-inj (sym run ∙ complete n values served h))
            | inr failed ↦ cc (e, failed.1)
          ],
      λ (n, values, h, e). (complete n values served h ∙ ap value (sym e), rw e refl),
    )

module _ (strtol : CString → Option ℤ) (number_of_functions : ℕ)
    (functions : Option (List OperatorFunction)) where
  -- There is a value for each pair, and a line for each value.
  Steps-printed :
      {v : ℤ} {rest : List CString} {values : List ℤ}
      → Steps strtol number_of_functions functions v rest values
      → (lines : List (String × List Arg)) × (print_steps rest values ≡ value lines)
        × (length lines ≡ length values)
  unfolding print_steps
  Steps-printed end = ([], refl, refl)
  Steps-printed (step {w = w} {operator_string = operator_string} {argument = argument} f a e s) =
      let (lines, printed, n) = Steps-printed s in
      (
        ("  %s %s = %d\n", str operator_string ∷ str argument ∷ int w ∷ []) ∷ lines,
        rw printed refl,
        ap suc n,
      )

-- For an expression as above main returns 0 and prints the first argument, one line for each step
-- and the result: its own assertion on the index of the intermediate values does not fail.
pub main-prints :
    (strtol : CString → Option ℤ) (calloc_ok : ℕ → Bool) (argument : CString) (rest : List CString)
    (n : ℤ) (values : List ℤ)
    → calloc_ok (length rest / 2) ≡ true
    → IsEvaluated strtol calloc_ok argument rest 4 operator_function_map n values
    → (lines : List (String × List Arg)) × (main strtol calloc_ok (argument ∷ rest)
        ≡ value (
          pos 0,
          ("%s\n", str argument ∷ []) ∷ lines
              ++ ("= %d\n", int (last_or (to_int n) values) ∷ []) ∷ [],
        ))
      × (print_steps rest values ≡ value lines)
      × (length lines ≡ length values)
unfolding main
main-prints strtol calloc_ok argument rest n values served h =
    let (lines, printed, count) = Steps-printed strtol 4 (some operator_function_map) h.1 in
    let run =
      given_complete strtol calloc_ok argument rest 4 operator_function_map n values served h in
    (lines, rw (run, take-length values, printed) refl, printed, count)
