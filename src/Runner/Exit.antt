-- ===== src/Runner/Exit.antt =====
-- What _cmocka_run_group_tests returns for a group of tests.
use cmocka.Prelude.{
  ℕ, ◌≡◌, refl, sym, ◌∙◌, true, Option, List, [], append-nil, CString, arith, All, length, ap,
  codes,
}
use cmocka.State.{Global}
use cmocka.State.Run.{ok}
use cmocka.Report.Steady.{Same}
use cmocka.Alloc.{check_point_allocated_blocks}
use cmocka.Alloc.CheckPoints.{fail_if_blocks_allocated_iff}
use cmocka.Runner.{FixtureFunction, CmUnitTest, CmUnitTestStatus}
use cmocka.Runner.Group.{
  no_totals, select_tests, run_tests_if, run_group_tests, is_failed, is_skipped, names_with, int_of,
}
use cmocka.Runner.Steady.{cmprintf_group_start-IsSteady, cmprintf_group_finish-IsSteady}
use cmocka.Runner.Loop.{failures, statuses, run_tests-IsRegular, selected-IsRegular}
use cmocka.Runner.Plain.{IsReady, IsReady-Same}
use cmocka.Runner.Regular.{IsRegular}
use cmocka.Runner.Fixtures.{with_blocks, IsReady-with_blocks}
use cmocka.Runner.GroupFixtures.{HasGroupFixtures, TearsDown, group_setup_runs, group_teardown_runs}
use cmocka.State.{MallocBlockInfoData}
use cmocka.Prelude.{subst}

-- Through the run of a group, where the setup may add blocks that the teardown takes back.
through_group :
    (blocks : List MallocBlockInfoData) (g g₁ g₂ g₃ g₄ g₅ : Global)
    → Same g g₁
    → Same (with_blocks blocks g₁) g₂
    → Same g₂ g₃
    → Same (with_blocks g.allocated_blocks g₃) g₄
    → Same g₄ g₅
    → Same g g₅
through_group blocks g g₁ g₂ g₃ g₄ g₅ s₁ s₂ s₃ s₄ s₅ = record {
  libc = s₅.libc ∙ s₄.libc ∙ s₃.libc ∙ s₂.libc ∙ s₁.libc;
  skip_test = s₅.skip_test ∙ s₄.skip_test ∙ s₃.skip_test ∙ s₂.skip_test ∙ s₁.skip_test;
  stop_test = s₅.stop_test ∙ s₄.stop_test ∙ s₃.stop_test ∙ s₂.stop_test ∙ s₁.stop_test;
  allocated_blocks = s₅.allocated_blocks ∙ s₄.allocated_blocks;
}

-- When the table of tests can be allocated and no flag is up, CMOCKA_TEST_ABORT is not 1 and the
-- blocks are at distinct addresses; each test's function ends, from every such state, as its status
-- says, keeping the blocks and the environment and not raising the stop flag, so without a call of
-- stop(), and where it returns, with the test marked as running and the maps well formed (it passes
-- by returning with the skip flag down and nothing left over, fails by returning so with something
-- left over or by a jump with the skip flag down, is skipped by a jump with the skip flag up); a
-- test has no fixtures, or a setup and a teardown that likewise return 0 with nothing left over and
-- both flags down, the teardown taking back the blocks that the setup has added; and the group's
-- setup returns 0 and its teardown any number, likewise, where they are set:
-- _cmocka_run_group_tests returns the number of the selected tests that fail, converted to an int,
-- and leaves the flags and the blocks as before.
pub run_group_tests-failures :
    (status_of : CmUnitTest → CmUnitTestStatus) (group_name : CString) (tests : List CmUnitTest)
    (tests_size : ℕ) (group_setup group_teardown : Option FixtureFunction) (g : Global)
    → g.libc.alloc_ok tests_size ≡ true
    → IsReady g
    → HasGroupFixtures group_setup group_teardown
    → All (λ test. IsRegular (status_of test) test) tests
    → (g' : Global) × (run_group_tests group_name tests tests_size group_setup group_teardown g
        ≡ ok
            (int_of (
              failures (
                statuses status_of
                  (select_tests g.test_filter_pattern g.skip_filter_pattern tests))))
            g')
      × Same g g'
unfolding run_group_tests run_tests_if
run_group_tests-failures status_of group_name tests tests_size group_setup group_teardown g served
      ready fixtures regular =
    let cm_tests = select_tests g.test_filter_pattern g.skip_filter_pattern tests in
    let (g₁, e₁, same₁) = (cmprintf_group_start-IsSteady group_name (length cm_tests)).runs g in
    let ready₁ = IsReady-Same g g₁ ready same₁ in
    let (state, blocks, g₂, distinct, e₂, same₂, down) =
      group_setup_runs group_setup group_teardown (check_point_allocated_blocks g) g₁ fixtures
        ready₁ in
    let ready₂ = IsReady-with_blocks blocks g₁ g₂ ready₁ distinct same₂ in
    let ((totals, ran), g₃, e₃, failed₃, errors₃, same₃) =
      run_tests-IsRegular status_of state 1 cm_tests no_totals g₂
        (selected-IsRegular status_of g.test_filter_pattern g.skip_filter_pattern tests regular)
        ready₂ in
    let (g₄, e₄, same₄) =
      group_teardown_runs group_teardown group_name state blocks g g₃
        (subst (TearsDown group_teardown blocks) same₁.allocated_blocks down) ready.distinct
        (IsReady-Same g₂ g₃ ready₂ same₃) (same₃.allocated_blocks ∙ same₂.allocated_blocks) in
    let (g₅, e₅, same₅) =
      (cmprintf_group_finish-IsSteady group_name totals.executed totals.passed totals.failed
          totals.errors totals.skipped (names_with is_skipped ran) (names_with is_failed ran)).runs
        g₄ in
    let same = through_group blocks g g₁ g₂ g₃ g₄ g₅ same₁ same₂ same₃ same₄ same₅ in
    let kept =
      (fail_if_blocks_allocated_iff (codes "cmocka_group_tests") g g₅ [] ready.distinct
          (same.allocated_blocks ∙ sym (append-nil g.allocated_blocks))).0
        refl in
    let total = ap (λ n. ok (int_of n) g₅) (omega (arith, failed₃, errors₃)) in
    (g₅, rw served (rw e₁ (rw e₂ (rw e₃ (rw e₄ (rw e₅ (rw kept total)))))), same)
