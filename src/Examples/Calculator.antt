-- ===== src/Examples/Calculator.antt =====
-- example/calculator.c: the operators, find_operator_function_by_string, perform_operation and main,
-- as they are without UNIT_TESTING. `strtol` and whether `calloc` succeeds are parameters.
pub mod Perform
pub mod Evaluates
pub mod Outcome
pub mod Bounds
use cmocka.Prelude.{
  ℕ, zero, suc, ◌+◌, ◌-◌, ◌*◌, ◌/◌, ◌%◌, ◌^◌, Bool, true, false, not, ◌&&◌, ◌||◌, Option, none,
  some, List, [], ◌∷◌, CString, String, codes, if◌then◌else◌, ◌==◌, ltb, leb, length, str_eq,
}
use cmocka.Prelude.Int.{ℤ, pos, negsuc, pos_part, neg_part, eq_ℤ, quotient, ◌+ℤ◌, ◌-ℤ◌, ◌*ℤ◌}
use cmocka.State.{Arg, str, int, nat}

-- `asserted` is a failed assert; `undefined` an overflow or a use of memory that C does not define.
pub data Run {ℓ} (A : Type ℓ) : Type ℓ where
  value : A → Run A
  asserted : CString → Run A
  undefined : Run A

infixl 5 ◌>>=◌ ◌>>◌
abbrev pub ◌>>=◌ {ℓ κ} : {A : Type ℓ} {B : Type κ} → Run A → (A → Run B) → Run B
value a >>= f = f a
asserted e >>= f = asserted e
undefined >>= f = undefined

abbrev pub ◌>>◌ {ℓ} : {B : Type ℓ} → Run (Unit {0}) → Run B → Run B
m >> k = m >>= λ _. k

abbrev pub assert : Bool → CString → Run (Unit {0})
assert true expression = value tt
assert false expression = asserted expression

-- A result that an `int` holds.
unfoldable pub checked : ℤ → Run ℤ
checked n = if ltb (pos_part n) (2 ^ 31) && leb (neg_part n) (2 ^ 31) then value n else undefined

unfoldable pub add : ℤ → ℤ → Run ℤ
unfolding checked
add a b = checked (a +ℤ b)

unfoldable pub subtract : ℤ → ℤ → Run ℤ
unfolding checked
subtract a b = checked (a -ℤ b)

unfoldable pub multiply : ℤ → ℤ → Run ℤ
unfolding checked
multiply a b = checked (a *ℤ b)

unfoldable pub divide : ℤ → ℤ → Run ℤ
unfolding checked quotient
divide a b = assert (not (eq_ℤ b (pos 0))) (codes "b") >> checked (quotient a b)

pub record OperatorFunction : Type 0 where
  pub operator : CString
  pub function : ℤ → ℤ → Run ℤ

unfoldable pub operator_function_map : List OperatorFunction
operator_function_map =
    record { operator = codes "+"; function = add }
    ∷ record { operator = codes "-"; function = subtract }
    ∷ record { operator = codes "*"; function = multiply }
    ∷ record { operator = codes "/"; function = divide }
    ∷ []

-- The loop over the first entries of the array; an entry behind its end is not defined.
unfoldable pub find_operator : ℕ → List OperatorFunction → CString → Run (Option (ℤ → ℤ → Run ℤ))
unfolding str_eq
find_operator zero operator_functions operator_string = value none
find_operator (suc n) [] operator_string = undefined
find_operator (suc n) (f ∷ operator_functions) operator_string =
    let rest = find_operator n operator_functions operator_string in
    if str_eq f.operator operator_string then value (some f.function) else rest

abbrev pub is_set {ℓ} : {A : Type ℓ} → Option A → Bool
is_set none = false
is_set (some a) = true

-- The elements that a pointer points to.
abbrev pub elements {ℓ} : {A : Type ℓ} → Option (List A) → List A
elements none = []
elements (some items) = items

unfoldable pub find_operator_function_by_string :
    ℕ → Option (List OperatorFunction) → Option CString → Run (Option (ℤ → ℤ → Run ℤ))
unfolding find_operator
find_operator_function_by_string number_of_operator_functions operator_functions none =
    assert (number_of_operator_functions == 0 || is_set operator_functions)
      (codes "!number_of_operator_functions || operator_functions")
    >> asserted (codes "operator_string != NULL")
find_operator_function_by_string number_of_operator_functions operator_functions
      (some operator_string) =
    assert (number_of_operator_functions == 0 || is_set operator_functions)
      (codes "!number_of_operator_functions || operator_functions")
    >> find_operator number_of_operator_functions (elements operator_functions) operator_string
