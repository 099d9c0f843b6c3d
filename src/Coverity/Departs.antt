-- ===== src/Coverity/Departs.antt =====
-- Where the static analyser's model and the assertions part.
use cmocka.Prelude.{
  ℕ, ◌≤◌, ◌≡◌, ◌≢◌, ◌⊎◌, ◌↔◌, refl, subst, Bool, true, false, not, ◌||◌, CString, ltb, arith,
}
use cmocka.State.{Global}
use cmocka.State.Run.{Outcome, NeverReturns}
use cmocka.Compare.{uint_not_in_range_display_error}
use cmocka.Compare.Verdicts.{verdict-Answers}
use cmocka.Asserts
use cmocka.Asserts.Judged.{Judges}
use cmocka.Floats
use cmocka.Floats.{Arithmetic, magnitude}
use cmocka.Floats.Judged.{IsClose, relative_bound, assert_float-Judges}
use cmocka.Coverity
use cmocka.Coverity.{Verdict, returns, panics, panic_if}
use cmocka.Coverity.Agrees.{Agrees, fail_unless-Agrees}

Bool-elim_false : (b : Bool) → ¬ (b ≡ true) → b ≡ false
Bool-elim_false true n = absurd (n refl)
Bool-elim_false false n = refl

module _ (file : CString) (line : ℕ) (g : Global) where
  -- The static analyser's model of _assert_not_in_range agrees with _assert_uint_not_in_range off
  -- the two ends of an ordered range; at the ends the model returns and the assertion does not.
  pub not_in_range-Agrees :
      (value minimum maximum : ℕ)
      → minimum ≤ maximum
      → (value ≢ minimum
          → value ≢ maximum
          → Agrees
              (Coverity.assert_not_in_range value minimum maximum)
              (Asserts.assert_uint_not_in_range file line value minimum maximum g))
        × ((value ≡ minimum) ⊎ (value ≡ maximum)
            → (Coverity.assert_not_in_range value minimum maximum ≡ returns)
              × NeverReturns (Asserts.assert_uint_not_in_range file line value minimum maximum g))
  unfolding Coverity.assert_not_in_range Asserts.assert_uint_not_in_range
      uint_not_in_range_display_error
  not_in_range-Agrees value minimum maximum ordered = (
    λ n k.
        fail_unless-Agrees file line g (ltb value minimum || ltb maximum value) _ _
          (verdict-Answers _ _ _ g) (ground arith),
    λ ends. (
      ground arith,
      fail_unless-Agrees file line g (ltb value minimum || ltb maximum value) _ panics
          (verdict-Answers _ _ _ g) (ground arith),
    ),
  )

  Judges-Agrees :
      {P : Type 0} (stop : Bool) (o : Outcome (Unit {0}))
      → Judges P o
      → (stop ≡ false) ↔ P
      → Agrees (panic_if stop) o
  Judges-Agrees true o (answers, ends) (only_if, back) = ends (λ p. cc (back p))
  Judges-Agrees false o (answers, ends) (only_if, back) = answers (only_if refl)

  Judges-departs :
      {P : Type 0} (stop : Bool) (o : Outcome (Unit {0}))
      → Judges P o
      → (stop ≡ true) ↔ P
      → ¬ Agrees (panic_if stop) o
  Judges-departs true o (answers, ends) (only_if, back) agrees =
      let (g', e) = answers (only_if refl) in subst NeverReturns e agrees
  Judges-departs false o (answers, ends) (only_if, back) (g', e) =
      subst NeverReturns e (ends (λ p. cc (back p)))

  -- At two values that are the same exactly if they are close, and whose difference and relative
  -- bound compare, the static analyser's models of _assert_float_equal, _assert_float_not_equal and
  -- _assert_double_equal agree with the assertions, and the model of _assert_double_not_equal does
  -- not: it returns where the assertion does not, and stops where the assertion returns.
  pub doubles-Agrees :
      {F : Type 0} (c : Arithmetic F) (same : F → F → Bool) (a b epsilon : F)
      → c.above (magnitude c (c.minus a b)) (relative_bound c a b)
        ≡ not (c.at_most (magnitude c (c.minus a b)) (relative_bound c a b))
      → (same a b ≡ true) ↔ IsClose c a b epsilon
      → Agrees
          (Coverity.assert_float_equal same a b epsilon)
          (Floats.assert_float_equal c file line a b epsilon g)
        × Agrees
            (Coverity.assert_float_not_equal same a b epsilon)
            (Floats.assert_float_not_equal c file line a b epsilon g)
        × Agrees
            (Coverity.assert_double_equal same a b epsilon)
            (Floats.assert_double_equal c file line a b epsilon g)
        × (¬ Agrees
            (Coverity.assert_double_not_equal same a b epsilon)
            (Floats.assert_double_not_equal c file line a b epsilon g))
  unfolding Coverity.assert_float_equal Coverity.assert_float_not_equal Coverity.assert_double_equal
      Coverity.assert_double_not_equal
  doubles-Agrees c same a b epsilon ordered (only_if, back) =
      let (f, f', d, d') = assert_float-Judges c file line g a b epsilon ordered in
      let differ : (same a b ≡ false) ↔ (¬ IsClose c a b epsilon) = (
        (λ e close. cc (back close)),
        λ apart. Bool-elim_false (same a b) (λ e. apart (only_if e)),
      ) in
      (
        Judges-Agrees (not (same a b)) _ f ((λ e. only_if (ground arith)), λ p. rw (back p) refl),
        Judges-Agrees (same a b) _ f' differ,
        Judges-Agrees (not (same a b)) _ d ((λ e. only_if (ground arith)), λ p. rw (back p) refl),
        Judges-departs (not (same a b)) _ d'
            ((λ e. differ.0 (ground arith)), λ p. rw (differ.1 p) refl),
      )
