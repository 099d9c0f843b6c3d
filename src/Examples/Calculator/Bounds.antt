-- ===== src/Examples/Calculator/Bounds.antt =====
-- Where perform_operation can be undefined: not at the array of the intermediate values.
use cmocka.Prelude.{
  ℕ, zero, suc, ◌+◌, ◌-◌, ◌/◌, ◌≡◌, ◌≢◌, ◌≤◌, ◌<◌, refl, sym, ◌∙◌, inl, inr, Bool, true, Option,
  none, some, List, [], ◌∷◌, CString, length, arith, Bool-cases, str_eq, ◌==◌, ◌↔◌,
}
use cmocka.Prelude.Int.{ℤ}
use cmocka.Examples.Calculator.{
  Run, value, asserted, undefined, ◌>>=◌, OperatorFunction, find_operator,
  find_operator_function_by_string,
}
use cmocka.Examples.Calculator.Perform.{
  to_int, Result, finish_operation, store, zeros, perform_rest, perform_from,
}
use cmocka.Examples.Calculator.Evaluates.{find, Run-cases, Option-cases}
use cmocka.Examples.Calculator.Outcome.{given, given_lem, or_true}

store-lt :
    (n : ℕ) (v : ℤ) (values : List ℤ)
    → n < length values
    → (values' : List ℤ) × (store n v values ≡ value values') × (length values' ≡ length values)
unfolding store
store-lt n v [] h = absurd (omega (arith, h))
store-lt zero v (w ∷ values) h = (v ∷ values, refl, refl)
store-lt (suc n) v (w ∷ values) h =
    let (values', e, same) = store-lt n v values (omega (arith, h)) in
    (w ∷ values', rw e refl, omega (arith, same))

length-zeros : (n : ℕ) → length (zeros n) ≡ n
unfolding zeros
length-zeros zero = refl
length-zeros (suc n) = rw (length-zeros n) refl

cleaned-undefined :
    (m : Run Result) → (m >>= λ r. value (finish_operation r)) ≡ undefined → m ≡ undefined
cleaned-undefined (value r) e = cc
cleaned-undefined (asserted expression) e = cc
cleaned-undefined undefined e = refl

-- Within the array of functions the search is defined.
find_operator-defined :
    (n : ℕ) (functions : List OperatorFunction) (operator_string : CString)
    → n ≤ length functions
    → find_operator n functions operator_string ≢ undefined
unfolding find_operator
find_operator-defined zero functions operator_string h e = cc
find_operator-defined (suc n) [] operator_string h e = absurd (omega (arith, h))
find_operator-defined (suc n) (f ∷ functions) operator_string h e =
    elim (Bool-cases (str_eq f.operator operator_string)) [
      | inl same ↦ cc (rw same at e)
      | inr other ↦
          find_operator-defined n functions operator_string (omega (arith, h)) (rw other at e)
    ]

module _ (strtol : CString → Option ℤ) (n : ℕ) (functions : List OperatorFunction) where
  -- From the value `v`, steps that are defined lead to one whose function is not defined at the value
  -- reached and the operand that stands there.
  pub data Overflows : ℤ → List CString → Type 0 where
    here :
        {v m : ℤ} {operator_string argument : CString} {rest : List CString}
        {function : ℤ → ℤ → Run ℤ}
        → find strtol n (some functions) operator_string ≡ value (some function)
        → strtol argument ≡ some m
        → function v (to_int m) ≡ undefined
        → Overflows v (operator_string ∷ argument ∷ rest)
    later :
        {v m w : ℤ} {operator_string argument : CString} {rest : List CString}
        {function : ℤ → ℤ → Run ℤ}
        → find strtol n (some functions) operator_string ≡ value (some function)
        → strtol argument ≡ some m
        → function v (to_int m) ≡ value w
        → Overflows w rest
        → Overflows v (operator_string ∷ argument ∷ rest)

  -- The first argument is a number, and the steps from it on overflow.
  abbrev pub ExpressionOverflows : List CString → Type 0
  ExpressionOverflows [] = ⊥
  ExpressionOverflows (argument ∷ rest) =
      (m : ℤ) × (strtol argument ≡ some m) × Overflows (to_int m) rest

module _ (strtol : CString → Option ℤ) (calloc_ok : ℕ → Bool) (n : ℕ)
    (functions : List OperatorFunction) (within : n ≤ length functions) where
  find-defined :
      (operator_string : CString) → find strtol n (some functions) operator_string ≢ undefined
  unfolding find_operator_function_by_string
  find-defined operator_string e =
      find_operator-defined n functions operator_string within (rw (or_true (n == 0)) at e)

  rest-Overflows :
      (i count : ℕ) (v : ℤ) (rest : List CString) (array : List ℤ)
      → count + length rest / 2 ≤ length array
      → perform_rest strtol calloc_ok n (some functions) i v rest count (some array) ≡ undefined
      → Overflows strtol n functions v rest
  unfolding perform_rest
  rest-Overflows i count v [] array room run = cc
  rest-Overflows i count v (operator_string ∷ []) array room run =
      elim (Run-cases (find strtol n (some functions) operator_string)) [
        | inl (none, f) ↦ cc (rw f at run)
        | inl (some function, f) ↦ cc (rw f at run)
        | inr (inl (expression, f)) ↦ cc (rw f at run)
        | inr (inr f) ↦ absurd (find-defined operator_string f)
      ]
  rest-Overflows i count v (operator_string ∷ argument ∷ rest) array room run =
      elim (Run-cases (find strtol n (some functions) operator_string)) [
        | inl (none, f) ↦ cc (rw f at run)
        | inl (some function, f) ↦ elim (Option-cases (strtol argument)) [
          | inl a ↦ cc (rw a at rw f at run)
          | inr (m, a) ↦ elim (Run-cases (function v (to_int m))) [
            | inl (w, e) ↦
                let (array', stored, same) = store-lt count w array (omega (arith, room)) in
                later f a e (
                  rest-Overflows (i + 2) (count + 1) w rest array' (omega (arith, room, same))
                    (rw stored at rw e at rw a at rw f at run))
            | inr (inl (expression, e)) ↦ cc (rw e at rw a at rw f at run)
            | inr (inr e) ↦ here f a e
          ]
        ]
        | inr (inl (expression, f)) ↦ cc (rw f at run)
        | inr (inr f) ↦ absurd (find-defined operator_string f)
      ]

  Overflows-undefined :
      {v : ℤ} {rest : List CString} (i count : ℕ) (array : List ℤ)
      → count + length rest / 2 ≤ length array
      → Overflows strtol n functions v rest
      → perform_rest strtol calloc_ok n (some functions) i v rest count (some array) ≡ undefined
  unfolding perform_rest
  Overflows-undefined i count array room (here f a e) = rw (f, a, e) refl
  Overflows-undefined i count array room (later {w = w} f a e o) =
      let (array', stored, same) = store-lt count w array (omega (arith, room)) in
      rw (f, a, e, stored)
        (Overflows-undefined (i + 2) (count + 1) array' (omega (arith, room, same)) o)

-- Where calloc succeeds and the count of operators is within their array, perform_operation is
-- undefined exactly where the first argument is a number and steps that are defined lead from it to
-- an operator and an operand at which the operator's function, applied to the value reached, is
-- undefined: the intermediate values are written within their array, and no argument or operator is
-- read behind its end.
pub perform_operation-Overflows :
    (strtol : CString → Option ℤ) (calloc_ok : ℕ → Bool) (arguments : List CString) (n : ℕ)
    (functions : List OperatorFunction)
    → n ≤ length functions
    → calloc_ok ((length arguments - 1) / 2) ≡ true
    → (given strtol calloc_ok arguments n functions ≡ undefined)
      ↔ ExpressionOverflows strtol n functions arguments
unfolding perform_from
perform_operation-Overflows strtol calloc_ok [] n functions within served =
    (λ run. cc (sym (given_lem strtol calloc_ok [] n functions) ∙ run), λ h. absurd h)
perform_operation-Overflows strtol calloc_ok (argument ∷ rest) n functions within served =
    let lem = given_lem strtol calloc_ok (argument ∷ rest) n functions in
    let size = (length (argument ∷ rest) - 1) / 2 in
    let room : 0 + length rest / 2 ≤ length (zeros size) = omega (arith, length-zeros size) in
    (
      λ run.
          let behind = sym lem ∙ run in
          elim (Option-cases (strtol argument)) [
            | inl a ↦ cc (rw (perform_from, a) at behind)
            | inr (m, a) ↦ (
              m,
              a,
              rest-Overflows strtol calloc_ok n functions within 1 0 (to_int m) rest (zeros size)
                  room (cleaned-undefined _ (rw (perform_from, a, served) at behind)),
            )
          ],
      λ (m, a, o).
          rw (lem, perform_from, a, served)
            (rw (Overflows-undefined strtol calloc_ok n functions within 1 0 (zeros size) room o)
              refl),
    )
