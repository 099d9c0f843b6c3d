-- ===== src/Floats/Judged.antt =====
-- What the assertions on floating-point values make of a NaN, and of values that compare.
use cmocka.Prelude.{
  ◌↔◌, ℕ, ◌≡◌, refl, Bool, true, false, not, ◌||◌, if◌then◌else◌, CString, ◌⊎◌, arith, Bool-cases,
  inl, inr,
}
use cmocka.State.{Global}
use cmocka.State.Run.{NeverReturns}
use cmocka.Compare.Verdicts.{Answers, verdict-Answers}
use cmocka.Asserts.Judged.{Judges, fail_unless-Judges}
use cmocka.Floats.{Arithmetic, magnitude, float_compare, double_compare}
use cmocka.Floats.{float_values_equal_display_error, float_values_not_equal_display_error}
use cmocka.Floats.{double_values_equal_display_error, double_values_not_equal_display_error}
use cmocka.Floats.{
  assert_float_equal, assert_float_not_equal, assert_double_equal, assert_double_not_equal,
}

-- What IEEE 754 says of the values that are not numbers: `-` hands them on, and no order holds of them.
pub record NanLaws {F : Type 0} (c : Arithmetic F) : Type 0 where
  pub is_nan : F → Bool
  pub minus-is_nan : (a b : F) → (is_nan a || is_nan b) ≡ true → is_nan (c.minus a b) ≡ true
  pub negated-is_nan : (a : F) → is_nan a ≡ true → is_nan (c.negated a) ≡ true
  pub at_most_unordered : (a b : F) → is_nan a ≡ true → c.at_most a b ≡ false
  pub above_unordered : (a b : F) → is_nan a ≡ true → c.above a b ≡ false

module _ {F : Type 0} (c : Arithmetic F) where
  -- The bound that the code takes from the larger of the two magnitudes.
  abbrev pub relative_bound : F → F → F
  relative_bound a b =
      c.times (if c.above (magnitude c b) (magnitude c a) then magnitude c b else magnitude c a)
        c.flt_epsilon

  -- The values are at most `epsilon` or the relative bound apart.
  abbrev pub IsClose : F → F → F → Type 0
  IsClose a b epsilon =
      (c.at_most (magnitude c (c.minus a b)) epsilon ≡ true)
      ⊎ (c.at_most (magnitude c (c.minus a b)) (relative_bound a b) ≡ true)

  double_compare-float_compare :
      (a b epsilon : F) → double_compare c a b epsilon ≡ float_compare c a b epsilon
  unfolding double_compare float_compare
  double_compare-float_compare a b epsilon = refl

  float_compare-nan :
      (laws : NanLaws c) (a b epsilon : F)
      → (laws.is_nan a || laws.is_nan b) ≡ true
      → float_compare c a b epsilon ≡ true
  unfolding float_compare
  float_compare-nan laws a b epsilon n =
      let difference = laws.minus-is_nan a b n in
      let diff : laws.is_nan (magnitude c (c.minus a b)) ≡ true =
        elim (Bool-cases (c.at_least (c.minus a b) c.zero_value)) [
          | inl e ↦ rw e difference
          | inr e ↦ rw e (laws.negated-is_nan (c.minus a b) difference)
        ] in
      rw (
        laws.at_most_unordered (magnitude c (c.minus a b)) epsilon diff,
        laws.above_unordered (magnitude c (c.minus a b)) (relative_bound a b) diff,
      )

  float_compare_iff :
      (a b epsilon : F)
      → c.above (magnitude c (c.minus a b)) (relative_bound a b)
        ≡ not (c.at_most (magnitude c (c.minus a b)) (relative_bound a b))
      → (float_compare c a b epsilon ≡ true) ↔ IsClose a b epsilon
  unfolding float_compare
  float_compare_iff a b epsilon ordered =
      elim (Bool-cases (c.at_most (magnitude c (c.minus a b)) epsilon)) [
        | inl e ↦ ((λ _. inl e), λ _. rw e)
        | inr e ↦ ((λ same. ground arith), λ close. ground arith)
      ]

  module _ (file : CString) (line : ℕ) (g : Global) where
    float-Judges :
        (P : Type 0) (a b epsilon : F)
        → (float_compare c a b epsilon ≡ true) ↔ P
        → Judges P (assert_float_equal c file line a b epsilon g)
          × Judges (¬ P) (assert_float_not_equal c file line a b epsilon g)
    unfolding assert_float_equal assert_float_not_equal float_values_equal_display_error
        float_values_not_equal_display_error
    float-Judges P a b epsilon (only_if, back) = (
      fail_unless-Judges file line g (float_compare c a b epsilon) _ (verdict-Answers _ _ _ g) back
          (λ n. ground arith),
      fail_unless-Judges file line g (not (float_compare c a b epsilon)) _ (verdict-Answers _ _ _ g)
          (λ n. ground arith) (λ nn. ground arith),
    )

    double-Judges :
        (P : Type 0) (a b epsilon : F)
        → (double_compare c a b epsilon ≡ true) ↔ P
        → Judges P (assert_double_equal c file line a b epsilon g)
          × Judges (¬ P) (assert_double_not_equal c file line a b epsilon g)
    unfolding assert_double_equal assert_double_not_equal double_values_equal_display_error
        double_values_not_equal_display_error
    double-Judges P a b epsilon (only_if, back) = (
      fail_unless-Judges file line g (double_compare c a b epsilon) _ (verdict-Answers _ _ _ g) back
          (λ n. ground arith),
      fail_unless-Judges file line g (not (double_compare c a b epsilon)) _
          (verdict-Answers _ _ _ g) (λ n. ground arith) (λ nn. ground arith),
    )

    -- Where the difference of two values and their relative bound compare, _assert_float_equal and
    -- _assert_double_equal return if the difference is at most epsilon or the relative bound and do
    -- not return if not, and the two not-equal assertions the other way round.
    pub assert_float-Judges :
        (a b epsilon : F)
        → c.above (magnitude c (c.minus a b)) (relative_bound a b)
          ≡ not (c.at_most (magnitude c (c.minus a b)) (relative_bound a b))
        → Judges (IsClose a b epsilon) (assert_float_equal c file line a b epsilon g)
          × Judges (¬ IsClose a b epsilon) (assert_float_not_equal c file line a b epsilon g)
          × Judges (IsClose a b epsilon) (assert_double_equal c file line a b epsilon g)
          × Judges (¬ IsClose a b epsilon) (assert_double_not_equal c file line a b epsilon g)
    assert_float-Judges a b epsilon ordered =
        let close = float_compare_iff a b epsilon ordered in
        let (f, f') = float-Judges _ a b epsilon close in
        let (d, d') =
          double-Judges (IsClose a b epsilon) a b epsilon
            (rw (double_compare-float_compare a b epsilon) close) in
        (f, f', d, d')

    -- In an arithmetic where subtraction and negation hand a NaN on and no comparison holds of one,
    -- if one of the two values is a NaN then _assert_float_equal and _assert_double_equal return,
    -- and _assert_float_not_equal and _assert_double_not_equal do not.
    pub assert_float-nan :
        (laws : NanLaws c) (a b epsilon : F)
        → (laws.is_nan a || laws.is_nan b) ≡ true
        → Answers tt (assert_float_equal c file line a b epsilon g)
          × NeverReturns (assert_float_not_equal c file line a b epsilon g)
          × Answers tt (assert_double_equal c file line a b epsilon g)
          × NeverReturns (assert_double_not_equal c file line a b epsilon g)
    assert_float-nan laws a b epsilon n =
        let same : (float_compare c a b epsilon ≡ true) ↔ Unit =
          ((λ _. tt), λ _. float_compare-nan laws a b epsilon n) in
        let (f, f') = float-Judges _ a b epsilon same in
        let (d, d') =
          double-Judges Unit a b epsilon (rw (double_compare-float_compare a b epsilon) same) in
        (f.0 tt, f'.1 (λ no. no tt), d.0 tt, d'.1 (λ no. no tt))
