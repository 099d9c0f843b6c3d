-- ===== src/Coverity.antt =====
-- The model of the assertions that coverity/coverity_assert_model.c gives to a static analyser: which
-- calls return, and which end in `__coverity_panic__`.
pub mod Agrees
pub mod Departs
use cmocka.Prelude.{
  ℕ, Bool, true, false, not, ◌||◌, ◌&&◌, List, [], ◌∷◌, CString, if◌then◌else◌, ◌==◌, ltb,
}
use cmocka.Prelude.Int.{ℤ, pos, ltb_ℤ, eq_ℤ}
use cmocka.Floats.{Arithmetic}

pub data Verdict : Type 0 where
  returns panics : Verdict

-- `if (test) { __coverity_panic__(); }`
abbrev pub panic_if : Bool → Verdict
panic_if test = if test then panics else returns

unfoldable pub assert_true : ℕ → Verdict
assert_true result = panic_if (result == 0)

unfoldable pub assert_int_equal : ℤ → ℤ → Verdict
assert_int_equal a b = panic_if (not (eq_ℤ a b))

unfoldable pub assert_uint_equal : ℕ → ℕ → Verdict
assert_uint_equal a b = panic_if (not (a == b))

unfoldable pub assert_int_not_equal : ℤ → ℤ → Verdict
assert_int_not_equal a b = panic_if (eq_ℤ a b)

unfoldable pub assert_uint_not_equal : ℕ → ℕ → Verdict
assert_uint_not_equal a b = panic_if (a == b)

unfoldable pub assert_return_code : ℤ → Verdict
assert_return_code result = panic_if (ltb_ℤ result (pos 0))

-- The operator `==` on a floating-point type is an argument.
module _ {F : Type 0} (same : F → F → Bool) where
  unfoldable pub assert_float_equal : F → F → F → Verdict
  assert_float_equal a b epsilon = panic_if (not (same a b))

  unfoldable pub assert_float_not_equal : F → F → F → Verdict
  assert_float_not_equal a b epsilon = panic_if (same a b)

  unfoldable pub assert_double_equal : F → F → F → Verdict
  assert_double_equal a b epsilon = panic_if (not (same a b))

  unfoldable pub assert_double_not_equal : F → F → F → Verdict
  assert_double_not_equal a b epsilon = panic_if (not (same a b))

-- `cmp` is a variable without a value, which the analyser takes to have any.
module _ (cmp : ℤ) where
  unfoldable pub assert_string_equal : CString → CString → Verdict
  assert_string_equal a b = panic_if (not (eq_ℤ cmp (pos 0)))

  unfoldable pub assert_string_not_equal : CString → CString → Verdict
  assert_string_not_equal a b = panic_if (eq_ℤ cmp (pos 0))

  unfoldable pub assert_memory_equal : List ℕ → List ℕ → ℕ → Verdict
  assert_memory_equal a b size = panic_if (not (eq_ℤ cmp (pos 0)))

  unfoldable pub assert_memory_not_equal : List ℕ → List ℕ → ℕ → Verdict
  assert_memory_not_equal a b size = panic_if (eq_ℤ cmp (pos 0))

unfoldable pub assert_int_in_range : ℤ → ℤ → ℤ → Verdict
assert_int_in_range value minimum maximum = panic_if (ltb_ℤ value minimum || ltb_ℤ maximum value)

unfoldable pub assert_uint_in_range : ℕ → ℕ → ℕ → Verdict
assert_uint_in_range value minimum maximum = panic_if (ltb value minimum || ltb maximum value)

unfoldable pub assert_not_in_range : ℕ → ℕ → ℕ → Verdict
assert_not_in_range value minimum maximum = panic_if (ltb minimum value && ltb value maximum)

-- The loops return, or panic, at the first element that is the value.
unfoldable pub assert_int_in_set : ℤ → List ℤ → Verdict
assert_int_in_set value [] = panics
assert_int_in_set value (x ∷ values) =
    if eq_ℤ value x then returns else assert_int_in_set value values

unfoldable pub assert_uint_in_set : ℕ → List ℕ → Verdict
assert_uint_in_set value [] = panics
assert_uint_in_set value (x ∷ values) =
    if value == x then returns else assert_uint_in_set value values

unfoldable pub assert_int_not_in_set : ℤ → List ℤ → Verdict
assert_int_not_in_set value [] = returns
assert_int_not_in_set value (x ∷ values) =
    if eq_ℤ value x then panics else assert_int_not_in_set value values

unfoldable pub assert_uint_not_in_set : ℕ → List ℕ → Verdict
assert_uint_not_in_set value [] = returns
assert_uint_not_in_set value (x ∷ values) =
    if value == x then panics else assert_uint_not_in_set value values
