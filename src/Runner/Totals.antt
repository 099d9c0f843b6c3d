-- ===== src/Runner/Totals.antt =====
-- The counters of _cmocka_run_group_tests.
use cmocka.Prelude.{ℕ, ◌+◌, ◌≡◌, refl, Bool, true, false, List, [], ◌∷◌, arith, length}
use cmocka.Prelude.{if◌then◌else◌}
use cmocka.Prelude.Int.{ℤ, pos, eq_ℤ}
use cmocka.State.{Global}
use cmocka.State.Run.{M, Outcome, ok, continue, pure}
use cmocka.Runner.{CmUnitTestState, CmUnitTestStatus, passed, failed, skipped, run_one_tests}
use cmocka.Runner.Print.{cmprintf}
use cmocka.Runner.Group.{Totals, run_tests, count_test, count_status, count_error}

-- If the call returns, `P` holds of what it returns.
abbrev pub Ensures : {A : Type 0} → (A → Type 0) → Outcome A → Type 0
Ensures P (ok a g) = P a
Ensures P _ = Unit

pub continue-Ensures :
    {A B : Type 0} (P : A → Type 0) (Q : B → Type 0) (o : Outcome A) (f : A → M B)
    → Ensures P o
    → ((a : A) (g : Global) → P a → Ensures Q (f a g))
    → Ensures Q (continue o f)
continue-Ensures P Q (ok a g) f h k = k a g h
continue-Ensures P Q _ f h k = tt

any-Ensures : {A : Type 0} (o : Outcome A) → Ensures (λ _. Unit {0}) o
any-Ensures (ok a g) = tt
any-Ensures _ = tt

-- Every test that was run is counted once.
abbrev pub IsBalanced : Totals → Type 0
IsBalanced t = t.executed ≡ t.passed + t.failed + t.errors + t.skipped

-- What one test does to the counters.
abbrev Counts : Totals → Totals → Type 0
Counts t t' = (t'.executed ≡ t.executed + 1) × IsBalanced t'

module _ (totals : Totals) (h : IsBalanced totals) where
  printed-Ensures :
      (o : Outcome (Unit {0})) (t' : Totals)
      → Counts totals t'
      → Ensures (Counts totals) (continue o (λ _. pure t'))
  printed-Ensures o t' c =
      continue-Ensures (λ _. Unit {0}) (Counts totals) o _ (any-Ensures o) (λ _ g _. c)

  count_status-Ensures :
      (status : CmUnitTestStatus) (number : ℕ) (t : CmUnitTestState) (g : Global)
      → Ensures
          (Counts totals)
          (count_status status number t (record totals { executed = totals.executed + 1 }) g)
  unfolding count_status
  count_status-Ensures passed number t g =
      printed-Ensures (cmprintf _ _ _ _ g) _ (refl, omega arith)
  count_status-Ensures skipped number t g =
      printed-Ensures (cmprintf _ _ _ _ g) _ (refl, omega arith)
  count_status-Ensures failed number t g =
      printed-Ensures (cmprintf _ _ _ _ g) _ (refl, omega arith)
  count_status-Ensures _ number t g = printed-Ensures (cmprintf _ _ _ _ g) _ (refl, omega arith)

  count_error-Ensures :
      (number : ℕ) (t : CmUnitTestState) (g : Global)
      → Ensures
          (Counts totals)
          (count_error number t (record totals { executed = totals.executed + 1 }) g)
  unfolding count_error
  count_error-Ensures number t g = printed-Ensures (cmprintf _ _ _ _ g) _ (refl, omega arith)

  if-Ensures :
      (b : Bool) (m n : M Totals) (g : Global)
      → Ensures (Counts totals) (m g)
      → Ensures (Counts totals) (n g)
      → Ensures (Counts totals) ((if b then m else n) g)
  if-Ensures true m n g hm hn = hm
  if-Ensures false m n g hm hn = hn

  count_test-Ensures :
      (rc : ℤ) (number : ℕ) (t : CmUnitTestState) (g : Global)
      → Ensures (Counts totals) (count_test rc number t totals g)
  unfolding count_test
  count_test-Ensures rc number t g =
      if-Ensures (eq_ℤ rc (pos 0)) _ _ g (count_status-Ensures t.status number t g)
        (count_error-Ensures number t g)

-- If the counters add up before the loop over the tests, then when the loop returns they add up,
-- the tests executed have gone up by the number of tests, and there is a state for each test.
pub run_tests-IsBalanced :
    (group_state number : ℕ) (tests : List CmUnitTestState) (totals : Totals) (g : Global)
    → IsBalanced totals
    → Ensures
        (λ r.
          IsBalanced r.0
          × (r.0.executed ≡ totals.executed + length tests)
          × (length r.1 ≡ length tests))
        (run_tests group_state number tests totals g)
unfolding run_tests
run_tests-IsBalanced group_state number [] totals g h = (h, omega arith, refl)
run_tests-IsBalanced group_state number (t ∷ tests) totals g h =
    continue-Ensures (λ _. Unit {0}) _ (cmprintf _ _ _ _ g) _ (any-Ensures _)
      λ _ g₁ _.
        continue-Ensures (λ _. Unit {0}) _ (run_one_tests _ g₁) _ (any-Ensures _)
          λ (rc, t') g₂ _.
            continue-Ensures (Counts totals) _ (count_test rc number t' totals g₂) _
              (count_test-Ensures totals h rc number t' g₂)
              λ totals' g₃ c.
                continue-Ensures _ _ (run_tests group_state (number + 1) tests totals' g₃) _
                  (run_tests-IsBalanced group_state (number + 1) tests totals' g₃ c.1)
                  λ (all_totals, rest) g₄ r. (r.0, omega (arith, c.0, r.1), omega (arith, r.2))
