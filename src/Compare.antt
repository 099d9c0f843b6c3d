-- ===== src/Compare.antt =====
-- The comparisons of src/cmocka.c that display an error (…_display_error). `intmax_t` values are
-- integers and `uintmax_t` values, `size_t` and pointers are numbers.
pub mod Memory
pub mod Verdicts
use cmocka.Prelude.{
  ℕ, suc, ◌+◌, ◌-◌, Bool, true, false, not, ◌&&◌, ◌||◌, List, [], ◌∷◌, CString, String,
}
use cmocka.Prelude.{str_eq, if◌then◌else◌, ltb, leb, ◌==◌, codes}
use cmocka.Prelude.Int.{ℤ, leb_ℤ, ltb_ℤ, eq_ℤ}
use cmocka.State.{Arg, str, int, nat}
use cmocka.State.Run.{M, ok, pure, ◌>>=◌, ◌>>◌, when}
use cmocka.Report.{cmocka_print_error}

-- `if (!holds) { cmocka_print_error(…); } return holds;`
unfoldable pub verdict : Bool → String → List Arg → M Bool
unfolding cmocka_print_error
verdict holds format args = do when (not holds) (cmocka_print_error format args); pure holds

unfoldable pub uint_values_equal_display_error : ℕ → ℕ → M Bool
uint_values_equal_display_error left right =
    verdict (left == right) "%ju (%#jx) != %ju (%#jx)\n"
      (nat left ∷ nat left ∷ nat right ∷ nat right ∷ [])

unfoldable pub int_values_equal_display_error : ℤ → ℤ → M Bool
int_values_equal_display_error left right =
    verdict (eq_ℤ left right) "%jd != %jd\n" (int left ∷ int right ∷ [])

unfoldable pub uint_values_not_equal_display_error : ℕ → ℕ → M Bool
uint_values_not_equal_display_error left right =
    verdict (not (left == right)) "%ju (%#jx) == %ju (%#jx)\n"
      (nat left ∷ nat left ∷ nat right ∷ nat right ∷ [])

unfoldable pub int_values_not_equal_display_error : ℤ → ℤ → M Bool
int_values_not_equal_display_error left right =
    verdict (not (eq_ℤ left right)) "%jd == %jd\n" (int left ∷ int right ∷ [])

unfoldable pub ptr_values_equal_display_error : ℕ → ℕ → M Bool
ptr_values_equal_display_error left right =
    verdict (left == right) "%p != %p\n" (nat left ∷ nat right ∷ [])

unfoldable pub ptr_values_not_equal_display_error : ℕ → ℕ → M Bool
ptr_values_not_equal_display_error left right =
    verdict (not (left == right)) "%p == %p\n" (nat left ∷ nat right ∷ [])

-- The search loop of the …_value_in_set_display_error functions: the flag that starts as `invert` and
-- is flipped at the first element that is the value.
unfoldable pub in_set_flag : {A : Type 0} → (A → A → Bool) → Bool → A → List A → Bool
in_set_flag same succeeded value [] = succeeded
in_set_flag same succeeded value (x ∷ set) =
    if same x value then not succeeded else in_set_flag same succeeded value set

abbrev not_word : Bool → CString
not_word invert = if invert then [] else codes "not "

-- The elements one by one: `last` prints the one that nothing follows.
unfoldable pub print_set : {A : Type 0} → (A → Arg) → String → String → List A → M (Unit {0})
unfolding cmocka_print_error
print_set arg inner last [] = pure tt
print_set arg inner last (x ∷ []) = cmocka_print_error last (arg x ∷ [])
print_set arg inner last (x ∷ y ∷ set) =
    cmocka_print_error inner (arg x ∷ []) >> print_set arg inner last (y ∷ set)

-- What is printed where the flag stays down, and the answer.
unfoldable pub in_set_verdict : Bool → M (Unit {0}) → M Bool
in_set_verdict true report = pure true
in_set_verdict false report = report >>= λ _. pure false

unfoldable pub value_in_set_display_error : ℕ → List ℕ → Bool → M Bool
unfolding print_set
value_in_set_display_error value set invert = in_set_verdict (in_set_flag ◌==◌ invert value set) (do
  cmocka_print_error "%ju is %sin the set (" (nat value ∷ str (not_word invert) ∷ [])
  print_set nat "%#jx, " "%#jx, " set
  cmocka_print_error ")\n" [])

unfoldable pub int_value_in_set_display_error : ℤ → List ℤ → Bool → M Bool
unfolding print_set
int_value_in_set_display_error value set invert =
    in_set_verdict (in_set_flag eq_ℤ invert value set) (do
      cmocka_print_error "%jd is %sin the set (" (int value ∷ str (not_word invert) ∷ [])
      print_set int "%jd, " "%jd" set
      cmocka_print_error ")\n" [])

unfoldable pub uint_value_in_set_display_error : ℕ → List ℕ → Bool → M Bool
unfolding print_set
uint_value_in_set_display_error value set invert =
    in_set_verdict (in_set_flag ◌==◌ invert value set) (do
      cmocka_print_error "%ju is %sin the set (" (nat value ∷ str (not_word invert) ∷ [])
      print_set nat "%ju, " "%ju" set
      cmocka_print_error ")\n" [])

unfoldable pub uint_in_range_display_error : ℕ → ℕ → ℕ → M Bool
uint_in_range_display_error value range_min range_max =
    verdict (leb range_min value && leb value range_max) "%ju is not within the range [%ju, %ju]\n"
      (nat value ∷ nat range_min ∷ nat range_max ∷ [])

unfoldable pub int_in_range_display_error : ℤ → ℤ → ℤ → M Bool
int_in_range_display_error value range_min range_max =
    verdict (leb_ℤ range_min value && leb_ℤ value range_max)
      "%jd is not within the range [%jd, %jd]\n" (int value ∷ int range_min ∷ int range_max ∷ [])

unfoldable pub int_not_in_range_display_error : ℤ → ℤ → ℤ → M Bool
int_not_in_range_display_error value range_min range_max =
    verdict (ltb_ℤ value range_min || ltb_ℤ range_max value) "%jd is within the range [%jd, %jd]\n"
      (int value ∷ int range_min ∷ int range_max ∷ [])

unfoldable pub uint_not_in_range_display_error : ℕ → ℕ → ℕ → M Bool
uint_not_in_range_display_error value range_min range_max =
    verdict (ltb value range_min || ltb range_max value) "%ju is within the range [%ju, %ju]\n"
      (nat value ∷ nat range_min ∷ nat range_max ∷ [])

unfoldable pub integer_not_in_range_display_error : ℕ → ℕ → ℕ → M Bool
integer_not_in_range_display_error value range_min range_max =
    verdict (ltb value range_min || ltb range_max value) "%ju is within the range %ju-%ju\n"
      (nat value ∷ nat range_min ∷ nat range_max ∷ [])

unfoldable pub string_equal_display_error : CString → CString → M Bool
string_equal_display_error left right =
    verdict (str_eq left right) "\"%s\" != \"%s\"\n" (str left ∷ str right ∷ [])

unfoldable pub string_not_equal_display_error : CString → CString → M Bool
string_not_equal_display_error left right =
    verdict (not (str_eq left right)) "\"%s\" == \"%s\"\n" (str left ∷ str right ∷ [])
