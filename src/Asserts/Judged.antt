-- ===== src/Asserts/Judged.antt =====
-- An assertion returns where its condition holds, and does not return where it does not.
use cmocka.Prelude.{
  ℕ, ◌≡◌, ◌≤◌, ◌<◌, ◌↔◌, ◌⊎◌, inl, inr, Bool, true, false, ◌&&◌, ◌||◌, List, CString,
}
use cmocka.Prelude.{str_eq, str_eq_iff, str_eq_ne, arith, leb, ltb, Bool-cases, ◌==◌, ==_iff}
use cmocka.Prelude.Int.{ℤ, eq_ℤ, eq_ℤ_iff, ◌≤ℤ◌, leb_ℤ, ltb_ℤ}
use cmocka.State.{Global}
use cmocka.State.Run.{M, Outcome, NeverReturns}
use cmocka.Report.Ends.{fail-NeverReturns}
use cmocka.Compare.{in_set_flag}
use cmocka.Compare.{int_values_equal_display_error, string_equal_display_error}
use cmocka.Compare.{uint_in_range_display_error, uint_not_in_range_display_error}
use cmocka.Compare.{int_in_range_display_error, int_not_in_range_display_error}
use cmocka.Compare.Verdicts.{
  Answers, verdict-Answers, uint_value_in_set-Answers, int_value_in_set-Answers,
}
use cmocka.Compare.Verdicts.{IsIn, in_set_flag_in, in_set_flag_out}
use cmocka.Asserts.{fail_unless, assert_int_equal, assert_string_equal, assert_uint_in_range}
use cmocka.Asserts.{assert_uint_not_in_range, assert_int_in_range, assert_int_not_in_range}
use cmocka.Asserts.{assert_int_in_set, assert_int_not_in_set, assert_uint_in_set}
use cmocka.Asserts.{assert_uint_not_in_set}

-- The assertion returns if `P`, and does not return if not `P`.
abbrev pub Judges : Type 0 → Outcome (Unit {0}) → Type 0
Judges P o = (P → Answers tt o) × (¬ P → NeverReturns o)

twice_negated :
    {A : Type 0} (same : A → A → Bool)
    → ((a b : A) → (same a b ≡ true) ↔ (a ≡ b))
    → (value : A) (values : List A) → ¬ (¬ IsIn value values)
    → in_set_flag same true value values ≡ false
twice_negated same same_iff value values nn =
    elim (Bool-cases (in_set_flag same true value values)) [
      | inl e ↦ absurd (nn (λ i. cc (in_set_flag_in same same_iff value true i)))
      | inr e ↦ e
    ]

module _ (file : CString) (line : ℕ) (g : Global) where
  pub fail_unless-Judges :
      {P : Type 0} (b : Bool) (comparison : M Bool)
      → Answers b (comparison g)
      → (P → b ≡ true)
      → (¬ P → b ≡ false)
      → Judges P (fail_unless comparison file line g)
  unfolding fail_unless
  fail_unless-Judges true comparison (g', e) pass stop = (λ p. (g', rw e), λ n. cc (stop n))
  fail_unless-Judges false comparison (g', e) pass stop =
      (λ p. cc (pass p), λ n. rw e (fail-NeverReturns file line g'))

  -- _assert_int_equal returns if its two integers are equal, and does not return if they are not.
  pub assert_int_equal-Judges : (a b : ℤ) → Judges (a ≡ b) (assert_int_equal file line a b g)
  unfolding assert_int_equal int_values_equal_display_error
  assert_int_equal-Judges a b =
      fail_unless-Judges (eq_ℤ a b) (int_values_equal_display_error a b)
        (verdict-Answers (eq_ℤ a b) _ _ g) (eq_ℤ_iff a b).1 (λ ne. ground (arith, (eq_ℤ_iff a b).0))

  -- _assert_string_equal returns if its two strings have the same bytes, and does not return if
  -- not.
  pub assert_string_equal-Judges :
      (a b : CString) → Judges (a ≡ b) (assert_string_equal file line a b g)
  unfolding assert_string_equal string_equal_display_error
  assert_string_equal-Judges a b =
      fail_unless-Judges (str_eq a b) (string_equal_display_error a b)
        (verdict-Answers (str_eq a b) _ _ g) (str_eq_iff a b).1 (str_eq_ne a b)

  -- _assert_uint_in_range returns if the value is in the closed range, _assert_uint_not_in_range if
  -- it is below or above it, and neither returns otherwise.
  pub uint_range-Judges :
      (value minimum maximum : ℕ)
      → Judges
          ((minimum ≤ value) × (value ≤ maximum))
          (assert_uint_in_range file line value minimum maximum g)
        × Judges
            ((value < minimum) ⊎ (maximum < value))
            (assert_uint_not_in_range file line value minimum maximum g)
  unfolding assert_uint_in_range uint_in_range_display_error assert_uint_not_in_range
      uint_not_in_range_display_error
  uint_range-Judges value minimum maximum = (
    fail_unless-Judges (leb minimum value && leb value maximum)
        (uint_in_range_display_error value minimum maximum) (verdict-Answers _ _ _ g)
        (λ p. ground arith) (λ n. inside_false n),
    fail_unless-Judges (ltb value minimum || ltb maximum value)
        (uint_not_in_range_display_error value minimum maximum) (verdict-Answers _ _ _ g)
        (λ p. ground arith) (λ n. outside_false n),
  )
    where
      inside_false :
          ¬ ((minimum ≤ value) × (value ≤ maximum))
          → (leb minimum value && leb value maximum) ≡ false
      inside_false n = ground arith

      outside_false :
          ¬ ((value < minimum) ⊎ (maximum < value))
          → (ltb value minimum || ltb maximum value) ≡ false
      outside_false n = ground arith

  -- _assert_int_in_range returns if the value is in the closed range, _assert_int_not_in_range if
  -- it is not, and neither returns otherwise.
  pub int_range-Judges :
      (value minimum maximum : ℤ)
      → Judges
          ((minimum ≤ℤ value) × (value ≤ℤ maximum))
          (assert_int_in_range file line value minimum maximum g)
        × Judges
            (¬ ((minimum ≤ℤ value) × (value ≤ℤ maximum)))
            (assert_int_not_in_range file line value minimum maximum g)
  unfolding assert_int_in_range int_in_range_display_error assert_int_not_in_range
      int_not_in_range_display_error
  int_range-Judges value minimum maximum = (
    fail_unless-Judges (leb_ℤ minimum value && leb_ℤ value maximum)
        (int_in_range_display_error value minimum maximum) (verdict-Answers _ _ _ g)
        (λ p. ground arith) (λ n. ground arith),
    fail_unless-Judges (ltb_ℤ value minimum || ltb_ℤ maximum value)
        (int_not_in_range_display_error value minimum maximum) (verdict-Answers _ _ _ g)
        (λ n. ground arith) (λ nn. ground arith),
  )

  -- _assert_int_in_set returns if the value is in the set, _assert_int_not_in_set if it is not, and
  -- neither returns otherwise.
  pub int_set-Judges :
      (value : ℤ) (values : List ℤ)
      → Judges (IsIn value values) (assert_int_in_set file line value values g)
        × Judges (¬ IsIn value values) (assert_int_not_in_set file line value values g)
  unfolding assert_int_in_set assert_int_not_in_set
  int_set-Judges value values = (
    fail_unless-Judges (in_set_flag eq_ℤ false value values) _
        (int_value_in_set-Answers values value false g) (in_set_flag_in eq_ℤ eq_ℤ_iff value false)
        (in_set_flag_out eq_ℤ eq_ℤ_iff value values false),
    fail_unless-Judges (in_set_flag eq_ℤ true value values) _
        (int_value_in_set-Answers values value true g)
        (in_set_flag_out eq_ℤ eq_ℤ_iff value values true)
        (twice_negated eq_ℤ eq_ℤ_iff value values),
  )

  -- _assert_uint_in_set returns if the value is in the set, _assert_uint_not_in_set if it is not,
  -- and neither returns otherwise.
  pub uint_set-Judges :
      (value : ℕ) (values : List ℕ)
      → Judges (IsIn value values) (assert_uint_in_set file line value values g)
        × Judges (¬ IsIn value values) (assert_uint_not_in_set file line value values g)
  unfolding assert_uint_in_set assert_uint_not_in_set
  uint_set-Judges value values = (
    fail_unless-Judges (in_set_flag ◌==◌ false value values) _
        (uint_value_in_set-Answers values value false g) (in_set_flag_in ◌==◌ ==_iff value false)
        (in_set_flag_out ◌==◌ ==_iff value values false),
    fail_unless-Judges (in_set_flag ◌==◌ true value values) _
        (uint_value_in_set-Answers values value true g)
        (in_set_flag_out ◌==◌ ==_iff value values true) (twice_negated ◌==◌ ==_iff value values),
  )
