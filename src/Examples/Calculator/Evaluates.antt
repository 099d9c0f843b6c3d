-- ===== src/Examples/Calculator/Evaluates.antt =====
-- What perform_operation computes: the expression from left to right, without precedence.
use cmocka.Prelude.{
  ℕ, ◌+◌, ◌*◌, ◌≡◌, refl, sym, subst, Bool, Option, none, some, List, [], ◌∷◌, ◌++◌, append-nil,
  append_assoc, CString, String, length, length-append, arith, ◌⊎◌, inl, inr,
}
use cmocka.Prelude.Int.{ℤ, pos}
use cmocka.State.{Arg}
use cmocka.Examples.Calculator.{
  Run, value, asserted, undefined, ◌>>=◌, OperatorFunction, find_operator_function_by_string,
}
use cmocka.Examples.Calculator.Perform.{to_int, Result, store, store_value, zeros, perform_rest}

pub value-inj {ℓ} : {A : Type ℓ} {a b : A} → value a ≡ value b → a ≡ b
value-inj e = cc

map_left {ℓ κ μ} : {A : Type ℓ} {B : Type κ} {C : Type μ} → (A → B) → A ⊎ C → B ⊎ C
map_left f (inl a) = inl (f a)
map_left f (inr c) = inr c

pub Run-cases {ℓ} :
    {A : Type ℓ} (m : Run A)
    → ((a : A) × (m ≡ value a)) ⊎ ((e : CString) × (m ≡ asserted e)) ⊎ (m ≡ undefined)
Run-cases (value a) = inl (a, refl)
Run-cases (asserted e) = inr (inl (e, refl))
Run-cases undefined = inr (inr refl)

pub Option-cases {ℓ} : {A : Type ℓ} (o : Option A) → (o ≡ none) ⊎ ((a : A) × (o ≡ some a))
Option-cases none = inl refl
Option-cases (some a) = inr (a, refl)

-- A message went to stderr, and the error flag is at 1.
abbrev pub IsReported : Result → Type 0
IsReported r =
    (r.error_occurred ≡ pos 1)
    × ((format : String) × (args : List Arg) × (r.message ≡ some (format, args)))

reported : (r s : Result) → value s ≡ value r → IsReported s → IsReported r
reported r s e h = subst IsReported (value-inj e) h

-- What a run without an error leaves: its values fill the array.
abbrev pub success : ℤ → List ℤ → Result
success v values = record {
  result = v;
  error_occurred = pos 0;
  number_of_intermediate_values = length values;
  intermediate_values = some values;
  message = none;
}

-- The last of the values, or the first one where there is none.
unfoldable pub last_or : ℤ → List ℤ → ℤ
last_or v [] = v
last_or v (w ∷ values) = last_or w values

module _ (strtol : CString → Option ℤ) (number_of_functions : ℕ)
    (functions : Option (List OperatorFunction)) where
  abbrev pub find : CString → Run (Option (ℤ → ℤ → Run ℤ))
  find operator_string =
      find_operator_function_by_string number_of_functions functions (some operator_string)

  -- From the value `v`, those pairs of an operator and an operand give these values, one behind another.
  pub data Steps : ℤ → List CString → List ℤ → Type 0 where
    end : {v : ℤ} → Steps v [] []
    step :
        {v n w : ℤ} {operator_string argument : CString} {rest : List CString} {values : List ℤ}
        {function : ℤ → ℤ → Run ℤ}
        → find operator_string ≡ value (some function)
        → strtol argument ≡ some n
        → function v (to_int n) ≡ value w
        → Steps w rest values
        → Steps v (operator_string ∷ argument ∷ rest) (w ∷ values)

  -- Every argument but the first is half of a pair.
  pub Steps-length :
      {v : ℤ} {rest : List CString} {values : List ℤ}
      → Steps v rest values
      → length rest ≡ 2 * length values
  Steps-length end = refl
  Steps-length (step f a e s) = omega (arith, Steps-length s)

  store-append :
      (done todo : List ℤ) (v w : ℤ)
      → store (length done) v (done ++ w ∷ todo) ≡ value (done ++ v ∷ todo)
  unfolding store
  store-append [] todo v w = refl
  store-append (u ∷ done) todo v w = rw (store-append done todo v w)

  module _ (calloc_ok : ℕ → Bool) where
    -- The steps are carried out in an array that has room for them.
    pub rest_complete :
        (i count : ℕ) (v : ℤ) (rest : List CString) (done values : List ℤ) (array : List ℤ)
        → count ≡ length done
        → array ≡ done ++ zeros (length values)
        → Steps v rest values
        → perform_rest strtol calloc_ok number_of_functions functions i v rest count (some array)
          ≡ value (success (last_or v values) (done ++ values))
    unfolding perform_rest zeros last_or
    rest_complete i count v [] done [] array c e end = rw (c, e) (rw (append-nil done) refl)
    rest_complete i count v _ done _ array c room
          (step {w = w} {rest = rest} {values = values} f a e s) =
        let ih =
          rest_complete (i + 2) (count + 1) w rest (done ++ w ∷ []) values
            (done ++ w ∷ zeros (length values)) (cc (c, length-append done (w ∷ [])))
            (sym (append_assoc done (w ∷ []) (zeros (length values)))) s in
        rw (f, a, e, c, room, store-append done (zeros (length values)) w (pos 0))
          (cc (ih, append_assoc done (w ∷ []) values, c))

    -- How a run that returns has ended: with the steps taken, or with an error.
    abbrev pub Ended : ℤ → List CString → Result → Type 0
    Ended v rest r = ((values : List ℤ) × Steps v rest values) ⊎ IsReported r

    -- One operation, by what comes behind it.
    step_cases :
        (i count : ℕ) (v : ℤ) (operator_string argument : CString) (rest : List CString)
        (array : Option (List ℤ)) (function : ℤ → ℤ → Run ℤ) (n : ℤ) (r : Result)
        → find operator_string ≡ value (some function)
        → strtol argument ≡ some n
        → ((w : ℤ) (array' : Option (List ℤ))
            → perform_rest strtol calloc_ok number_of_functions functions
                (i + 2)
                w
                rest
                (count + 1)
                array'
              ≡ value r
            → Ended w rest r)
        → (function v (to_int n) >>= λ w. store_value count w array >>= λ array'.
            perform_rest strtol calloc_ok number_of_functions functions
              (i + 2)
              w
              rest
              (count + 1)
              array')
          ≡ value r
        → Ended v (operator_string ∷ argument ∷ rest) r
    step_cases i count v operator_string argument rest array function n r f a behind run =
        elim (Run-cases (function v (to_int n))) [
          | inl (w, e) ↦ elim (Run-cases (store_value count w array)) [
            | inl (array', stored) ↦
                map_left (λ (values, s). (w ∷ values, step f a e s))
                  (behind w array' (rw stored at rw e at run))
            | inr (inl (expression, stored)) ↦ cc (rw stored at rw e at run)
            | inr (inr stored) ↦ cc (rw stored at rw e at run)
          ]
          | inr (inl (expression, e)) ↦ cc (rw e at run)
          | inr (inr e) ↦ cc (rw e at run)
        ]

    -- Every run that returns has ended in one of the two ways.
    pub rest_cases :
        (i count : ℕ) (v : ℤ) (rest : List CString) (array : Option (List ℤ)) (r : Result)
        → perform_rest strtol calloc_ok number_of_functions functions i v rest count array ≡ value r
        → Ended v rest r
    unfolding perform_rest
    rest_cases i count v [] array r run = inl ([], end)
    rest_cases i count v (operator_string ∷ []) array r run =
        elim (Run-cases (find operator_string)) [
          | inl (none, f) ↦ inr (reported r _ (rw f at run) (refl, (_, _, refl)))
          | inl (some function, f) ↦ inr (reported r _ (rw f at run) (refl, (_, _, refl)))
          | inr (inl (expression, f)) ↦ cc (rw f at run)
          | inr (inr f) ↦ cc (rw f at run)
        ]
    rest_cases i count v (operator_string ∷ argument ∷ rest) array r run =
        elim (Run-cases (find operator_string)) [
          | inl (none, f) ↦ inr (reported r _ (rw f at run) (refl, (_, _, refl)))
          | inl (some function, f) ↦ elim (Option-cases (strtol argument)) [
            | inl a ↦ inr (reported r _ (rw a at rw f at run) (refl, (_, _, refl)))
            | inr (n, a) ↦
                step_cases i count v operator_string argument rest array function n r f a
                  (λ w array' run'. rest_cases (i + 2) (count + 1) w rest array' r run')
                  (rw a at rw f at run)
          ]
          | inr (inl (expression, f)) ↦ cc (rw f at run)
          | inr (inr f) ↦ cc (rw f at run)
        ]
