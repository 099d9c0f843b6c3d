-- ===== src/Runner/Verdict.antt =====
-- The status of a test whose function returns.
use cmocka.Prelude.{
  ℕ, ◌≡◌, refl, sym, ◌∙◌, Bool, true, false, Option, none, some, List, [], append-nil, CString,
  if◌then◌else◌, Bool-cases, inl, inr,
}
use cmocka.Prelude.Int.{pos, negsuc}
use cmocka.State.{Global, Stream, SymbolValue, CheckParameterEvent}
use cmocka.State.Run.{ok, jumped}
use cmocka.Report.{abort_requested, exit_test}
use cmocka.Symbols.Queue.{IsWellFormed}
use cmocka.Mocks.{initialize_testing, teardown_testing}
use cmocka.Mocks.Leftover.{has_leftover_values, fail_if_leftover_values}
use cmocka.Mocks.Settled.{IsSettled, without_satisfied, has_leftover_values-ok}
use cmocka.Alloc.{check_point_allocated_blocks}
use cmocka.Alloc.CheckPoints.{IsDistinct, fail_if_blocks_allocated_iff}
use cmocka.Runner.{
  CmUnitTestState, TestFunction, passed, failed, run_test, set_status, run_one_test_or_fixture,
  protected_run, run_function, test_failed, name_of, setjmp_run_test_env,
}
use cmocka.Runner.Single.{started, cleared}

-- At the end of its function a test runs, has not been stopped or skipped, has the blocks that it
-- started with, and keeps well-formed maps; CMOCKA_TEST_ABORT is not set to 1.
pub record EndsInOrder (g g₁ : Global) : Type 0 where
  pub running : g₁.running_test ≡ true
  pub not_stopped : g₁.stop_test ≡ false
  pub not_skipped : g₁.skip_test ≡ false
  pub no_abort : abort_requested g₁.libc.test_abort ≡ false
  pub results : IsWellFormed SymbolValue 1 g₁.function_result_map
  pub parameters : IsWellFormed CheckParameterEvent 2 g₁.function_parameter_map
  pub distinct : IsDistinct g.allocated_blocks
  pub no_leak : g₁.allocated_blocks ≡ g.allocated_blocks

exit_test-jumped :
    (g : Global)
    → g.running_test ≡ true
    → abort_requested g.libc.test_abort ≡ false
    → exit_test true g ≡ jumped g
unfolding exit_test
exit_test-jumped g running no_abort = elim (Bool-cases g.skip_test) [
  | inl e ↦ rw (e, running)
  | inr e ↦ rw (e, no_abort, running)
]

module _ (f : TestFunction) (g g₁ : Global) (order : EndsInOrder g g₁) (name : CString)
    (state : ℕ) where
  function_returns :
      f (started state g) ≡ ok tt g₁
      → run_function name (check_point_allocated_blocks g) (some f) none none (started state g)
        ≡ ok (pos 0) g₁
  unfolding run_function
  function_returns run = rw run (
      rw (
        (fail_if_blocks_allocated_iff name g g₁ [] order.distinct
            (order.no_leak ∙ sym (append-nil g.allocated_blocks))).0
          refl))

  -- The outcome of the test's part under the setjmp and behind it, once it is known what is left over.
  protected_returns :
      (left : Bool) (message : Option CString) (lines : List (Stream × CString))
      → f (started state g) ≡ ok tt g₁
      → has_leftover_values g₁ ≡ ok left (without_satisfied g₁ message lines)
      → setjmp_run_test_env
          (protected_run name (check_point_allocated_blocks g) (some f) none none (started state g))
          test_failed
        ≡ ok
            (if left then negsuc 0 else pos 0)
            (record (without_satisfied g₁ message lines) { running_test = false })
  unfolding protected_run fail_if_leftover_values test_failed
  protected_returns true message lines run left =
      rw (function_returns run, left)
        (rw (exit_test-jumped (without_satisfied g₁ message lines) order.running order.no_abort)
          (rw order.not_stopped))
  protected_returns false message lines run left = rw (function_returns run, left)

module _ (t : CmUnitTestState) (f : TestFunction) (g g₁ : Global) (order : EndsInOrder g g₁) where
  pub run_test-left :
      (left : Bool) (message : Option CString) (lines : List (Stream × CString))
      → t.test.test_func ≡ some f
      → f (started t.state g) ≡ ok tt g₁
      → has_leftover_values g₁ ≡ ok left (without_satisfied g₁ message lines)
      → run_test (pos 0) t g
        ≡ ok
            (pos 0, record t { state = g₁.state_cell; status = if left then failed else passed })
            (cleared (without_satisfied g₁ message lines))
  unfolding run_test run_one_test_or_fixture initialize_testing teardown_testing set_status
  run_test-left true message lines has run left =
      rw (has, protected_returns f g g₁ order (name_of t.test) t.state true message lines run left)
        (rw order.not_skipped)
  run_test-left false message lines has run left =
      rw (has, protected_returns f g g₁ order (name_of t.test) t.state false message lines run left)

-- When a test's function returns from the state that a test starts in, with the test running and
-- neither stopped nor skipped, the environment not asking for an abort, the maps well formed, and
-- the same blocks, at distinct addresses, as before, then the run of the test returns with its
-- state taken over and no test running; the test has passed if nothing is left over, and has failed
-- if something is.
pub run_test-verdict :
    (t : CmUnitTestState) (f : TestFunction) (g g₁ : Global)
    → t.test.test_func ≡ some f
    → f (started t.state g) ≡ ok tt g₁
    → g₁.running_test ≡ true
    → g₁.stop_test ≡ false
    → g₁.skip_test ≡ false
    → abort_requested g₁.libc.test_abort ≡ false
    → IsWellFormed SymbolValue 1 g₁.function_result_map
    → IsWellFormed CheckParameterEvent 2 g₁.function_parameter_map
    → IsDistinct g.allocated_blocks
    → g₁.allocated_blocks ≡ g.allocated_blocks
    → (t' : CmUnitTestState) × (g' : Global) × (run_test (pos 0) t g ≡ ok (pos 0, t') g')
      × (t'.state ≡ g₁.state_cell)
      × (g'.running_test ≡ false)
      × (IsSettled g₁ → t'.status ≡ passed)
      × (¬ IsSettled g₁ → t'.status ≡ failed)
run_test-verdict t f g g₁ has run running stop skip abort results parameters distinct blocks =
    let order : EndsInOrder g g₁ = record {
      running = running;
      not_stopped = stop;
      not_skipped = skip;
      no_abort = abort;
      results = results;
      parameters = parameters;
      distinct = distinct;
      no_leak = blocks;
    } in
    let (left, message, lines, e, (only_if, back)) = has_leftover_values-ok g₁ results parameters in
    (
      record t { state = g₁.state_cell; status = if left then failed else passed },
      cleared (without_satisfied g₁ message lines),
      run_test-left t f g g₁ order left message lines has run e,
      refl,
      refl,
      λ settled. rw (back settled),
      λ unsettled. status_failed left (λ none_left. unsettled (only_if none_left)),
    )
  where
    status_failed : (left : Bool) → ¬ (left ≡ false) → (if left then failed else passed) ≡ failed
    status_failed true _ = refl
    status_failed false ne = absurd (ne refl)
