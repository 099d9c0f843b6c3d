-- ===== src/Runner/Loop.antt =====
-- The loop over the tests of a group: it returns, and counts.
use cmocka.Prelude.{
  ap, subst, sym, ℕ, ◌+◌, ◌≡◌, refl, ◌∙◌, Option, none, List, [], ◌∷◌, map, CString, if◌then◌else◌,
  arith, All, Bool-cases, inl, inr,
}
use cmocka.State.{Global}
use cmocka.State.Run.{ok}
use cmocka.Report.Steady.{Same, Same-refl, Same-trans}
use cmocka.Runner.{
  CmUnitTest, CmUnitTestState, CmUnitTestStatus, not_started, error, passed, failed, skipped,
  name_of,
}
use cmocka.Runner.Print.{test_start, test_success, test_failure, test_skipped}
use cmocka.Runner.Group.{
  Totals, is_selected, select_tests, run_tests, count_test, count_status, state_for, is_failed,
}
use cmocka.Runner.Steady.{cmprintf-IsSteady}
use cmocka.Runner.Plain.{IsReady, IsReady-Same}
use cmocka.Runner.Regular.{IsRegular, run_one_tests-IsRegular}

-- How many statuses are `failed`.
unfoldable pub failures : List CmUnitTestStatus → ℕ
failures [] = 0
failures (status ∷ statuses) =
    let rest = failures statuses in if is_failed status then rest + 1 else rest

failures_cons :
    (status : CmUnitTestStatus) (rest : List CmUnitTestStatus)
    → failures (status ∷ rest) ≡ failures (status ∷ []) + failures rest
unfolding failures
failures_cons status rest = ground arith

-- A status that a test can earn.
abbrev IsVerdict : CmUnitTestStatus → Type 0
IsVerdict passed = Unit
IsVerdict failed = Unit
IsVerdict skipped = Unit
IsVerdict _ = ⊥

module _ (totals : Totals) (number : ℕ) (t : CmUnitTestState) (g : Global) where
  count_status-verdict :
      (status : CmUnitTestStatus)
      → IsVerdict status
      → (totals' : Totals) × (g' : Global) × (count_status status number t totals g ≡ ok totals' g')
        × (totals'.failed ≡ totals.failed + failures (status ∷ []))
        × (totals'.errors ≡ totals.errors)
        × Same g g'
  unfolding count_status failures
  count_status-verdict passed _ =
      let (g', e, same) =
        (cmprintf-IsSteady test_success number (name_of t.test) t.error_message).runs g in
      (record totals { passed = totals.passed + 1 }, g', rw e, omega arith, refl, same)
  count_status-verdict failed _ =
      let (g', e, same) =
        (cmprintf-IsSteady test_failure number (name_of t.test) t.error_message).runs g in
      (record totals { failed = totals.failed + 1 }, g', rw e, omega arith, refl, same)
  count_status-verdict skipped _ =
      let (g', e, same) =
        (cmprintf-IsSteady test_skipped number (name_of t.test) t.error_message).runs g in
      (record totals { skipped = totals.skipped + 1 }, g', rw e, omega arith, refl, same)
  count_status-verdict not_started impossible = absurd impossible
  count_status-verdict error impossible = absurd impossible

IsRegular-IsVerdict :
    (status : CmUnitTestStatus) (test : CmUnitTest) (g : Global)
    → IsRegular status test
    → IsReady g
    → IsVerdict status
IsRegular-IsVerdict passed test g p ready = tt
IsRegular-IsVerdict failed test g p ready = tt
IsRegular-IsVerdict skipped test g p ready = tt
IsRegular-IsVerdict not_started test g p ready =
    let (_, impossible, _, _, _) = p.ends 0 g ready in impossible
IsRegular-IsVerdict error test g p ready =
    let (_, impossible, _, _, _) = p.ends 0 g ready in impossible

module _ (status_of : CmUnitTest → CmUnitTestStatus) where
  abbrev IsRegularState : CmUnitTestState → Type 0
  IsRegularState t = IsRegular (status_of t.test) t.test

  abbrev pub statuses : List CmUnitTestState → List CmUnitTestStatus
  statuses tests = map (λ t. status_of t.test) tests

  -- The loop over the tests returns, and has counted the failures.
  pub run_tests-IsRegular :
      (group_state number : ℕ) (tests : List CmUnitTestState) (totals : Totals) (g : Global)
      → All IsRegularState tests
      → IsReady g
      → (r : Totals × List CmUnitTestState) × (g' : Global) × (run_tests group_state number tests
            totals g
          ≡ ok r g')
        × (r.0.failed ≡ totals.failed + failures (statuses tests))
        × (r.0.errors ≡ totals.errors)
        × Same g g'
  unfolding run_tests failures count_test
  run_tests-IsRegular group_state number [] totals g plain ready =
      ((totals, []), g, refl, omega arith, refl, Same-refl g)
  run_tests-IsRegular group_state number (t ∷ tests) totals g (p, plain) ready =
      let status = status_of t.test in
      let (g₁, e₁, same₁) = (cmprintf-IsSteady test_start number (name_of t.test) none).runs g in
      let ready₁ = IsReady-Same g g₁ ready same₁ in
      let (t', g₂, e₂, has_status, same₂) =
        run_one_tests-IsRegular status (record t { state = state_for group_state t }) g₁ p ready₁ in
      let ready₂ = IsReady-Same g₁ g₂ ready₁ same₂ in
      let (totals', g₃, e₃, failed₃, errors₃, same₃) =
        count_status-verdict (record totals { executed = totals.executed + 1 }) number t' g₂
          t'.status
          (subst IsVerdict (sym has_status) (IsRegular-IsVerdict status t.test g p ready)) in
      let (r, g₄, e₄, failed₄, errors₄, same₄) =
        run_tests-IsRegular group_state (number + 1) tests totals' g₃ plain
          (IsReady-Same g₂ g₃ ready₂ same₃) in
      let one = ap (λ s. failures (s ∷ [])) has_status in
      (
        (r.0, t' ∷ r.1),
        g₄,
        rw e₁ (rw e₂ (rw e₃ (rw e₄))),
        omega (arith, failed₃, failed₄, failures_cons status (statuses tests), one),
        errors₄ ∙ errors₃,
        Same-trans g g₁ g₄ same₁ (Same-trans g₁ g₂ g₄ same₂ (Same-trans g₂ g₃ g₄ same₃ same₄)),
      )

  pub selected-IsRegular :
      (test_filter skip_filter : Option CString) (tests : List CmUnitTest)
      → All (λ test. IsRegular (status_of test) test) tests
      → All IsRegularState (select_tests test_filter skip_filter tests)
  unfolding select_tests
  selected-IsRegular test_filter skip_filter [] plain = tt
  selected-IsRegular test_filter skip_filter (test ∷ tests) (p, plain) =
      let rest = selected-IsRegular test_filter skip_filter tests plain in
      elim (Bool-cases (is_selected test_filter skip_filter test)) [
        | inl e ↦ rw e (p, rest)
        | inr e ↦ rw e rest
      ]
