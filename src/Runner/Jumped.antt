-- ===== src/Runner/Jumped.antt =====
-- The status of a test whose function jumps out: a failed assertion, skip() or stop().
use cmocka.Prelude.{
  ◌↔◌, ◌&&◌, arith, ◌≡◌, ◌∙◌, refl, Bool, true, false, Option, none, some, CString, List,
  if◌then◌else◌, Bool-cases, inl, inr,
}
use cmocka.Prelude.Int.{ℤ, pos, negsuc}
use cmocka.State.{Global, Stream, SymbolValue, CheckParameterEvent}
use cmocka.State.Run.{M, ok, jumped}
use cmocka.Symbols.Queue.{IsWellFormed}
use cmocka.Mocks.{initialize_testing, teardown_testing}
use cmocka.Mocks.Leftover.{has_leftover_values}
use cmocka.Mocks.Settled.{IsSettled, without_satisfied, has_leftover_values-ok}
use cmocka.Alloc.{check_point_allocated_blocks}
use cmocka.Runner.{
  CmUnitTestState, TestFunction, passed, failed, skipped, run_test, set_status,
  run_one_test_or_fixture, protected_run, run_function, test_failed, name_of,
}
use cmocka.Runner.Single.{started, cleared}

module _ (t : CmUnitTestState) (f : TestFunction) (g g₁ : Global) where
  -- Where the function jumps, the runner goes on behind the setjmp.
  function_jumps :
      (name : CString)
      → f (started t.state g) ≡ jumped g₁
      → protected_run name (check_point_allocated_blocks g) (some f) none none (started t.state g)
        ≡ jumped g₁
  unfolding protected_run run_function
  function_jumps name run = rw run

  -- What set_status makes of a test that did not return 0.
  abbrev pub status_after : Bool → CmUnitTestState
  status_after skip = record t { state = g₁.state_cell; status = if skip then skipped else failed }

  -- A jump with the stop flag down.
  pub run_test-failed :
      (skip : Bool)
      → t.test.test_func ≡ some f
      → f (started t.state g) ≡ jumped g₁
      → g₁.stop_test ≡ false
      → g₁.skip_test ≡ skip
      → (g' : Global) × (run_test (pos 0) t g ≡ ok (pos 0, status_after skip) g')
        × (g'.skip_test ≡ false)
        × (g'.stop_test ≡ false)
        × (g'.running_test ≡ false)
        × (g'.libc ≡ g₁.libc)
        × (g'.allocated_blocks ≡ g₁.allocated_blocks)
        × (g'.expecting_assert ≡ g₁.expecting_assert)
  unfolding run_test run_one_test_or_fixture initialize_testing teardown_testing set_status
      test_failed
  run_test-failed true has run stop skip = (
    record (cleared g₁) { skip_test = false },
    rw (has, function_jumps (name_of t.test) run) (rw stop (rw skip)),
    refl,
    stop,
    refl,
    refl,
    refl,
    refl,
  )
  run_test-failed false has run stop skip = (
    cleared g₁,
    rw (has, function_jumps (name_of t.test) run) (rw stop (rw skip)),
    skip,
    stop,
    refl,
    refl,
    refl,
    refl,
  )

  if_stopped :
      (m n : M ℤ) (h : Global) → g₁.stop_test ≡ true → (if g₁.stop_test then m else n) h ≡ m h
  if_stopped m n h stop = rw stop

  test_failed-stopped :
      (left : Bool) (message : Option CString) (lines : List (Stream × CString))
      → g₁.stop_test ≡ true
      → has_leftover_values (record g₁ { running_test = false })
        ≡ ok left (without_satisfied (record g₁ { running_test = false }) message lines)
      → test_failed g₁
        ≡ ok (if left then negsuc 0 else pos 0) (record (without_satisfied g₁ message lines) {
          running_test = false;
          stop_test = false;
        })
  unfolding test_failed
  test_failed-stopped left message lines stop e =
      if_stopped _ _ (record g₁ { running_test = false }) stop ∙ rw e

  -- A jump with the stop flag up, by what is left over.
  run_test-stopped :
      (left : Bool) (message : Option CString) (lines : List (Stream × CString))
      → t.test.test_func ≡ some f
      → f (started t.state g) ≡ jumped g₁
      → g₁.stop_test ≡ true
      → g₁.skip_test ≡ false
      → has_leftover_values (record g₁ { running_test = false })
        ≡ ok left (without_satisfied (record g₁ { running_test = false }) message lines)
      → run_test (pos 0) t g
        ≡ ok
            (pos 0, record t { state = g₁.state_cell; status = if left then failed else passed })
            (record (cleared (without_satisfied g₁ message lines)) { stop_test = false })
  unfolding run_test run_one_test_or_fixture initialize_testing teardown_testing set_status
  run_test-stopped true message lines has run stop skip left =
      rw (has, function_jumps (name_of t.test) run)
        (rw (test_failed-stopped true message lines stop left) (rw skip))
  run_test-stopped false message lines has run stop skip left =
      rw (has, function_jumps (name_of t.test) run)
        (rw (test_failed-stopped false message lines stop left))

  -- The status by the two flags and by what is left over.
  abbrev pub HasStatus : CmUnitTestState → Type 0
  HasStatus t' =
      (g₁.stop_test ≡ false → g₁.skip_test ≡ true → t'.status ≡ skipped)
      × (g₁.stop_test ≡ false → g₁.skip_test ≡ false → t'.status ≡ failed)
      × (g₁.stop_test ≡ true → IsSettled g₁ → t'.status ≡ passed)
      × (g₁.stop_test ≡ true → ¬ IsSettled g₁ → t'.status ≡ failed)

  status_stopped :
      (left : Bool)
      → g₁.stop_test ≡ true
      → (left ≡ false) ↔ IsSettled g₁
      → HasStatus (record t { state = g₁.state_cell; status = if left then failed else passed })
  status_stopped true stop (only_if, back) =
      ((λ e. cc), (λ e. cc), (λ _ settled. cc (back settled)), (λ _ _. refl))
  status_stopped false stop (only_if, back) =
      ((λ e. cc), (λ e. cc), (λ _ _. refl), (λ _ unsettled. absurd (unsettled (only_if refl))))

  status_jumped :
      (skip : Bool) → g₁.stop_test ≡ false → g₁.skip_test ≡ skip → HasStatus (status_after skip)
  status_jumped true stop skip = ((λ _ _. refl), (λ _ e. cc), (λ e. cc), (λ e. cc))
  status_jumped false stop skip = ((λ _ e. cc), (λ _ _. refl), (λ e. cc), (λ e. cc))

-- When a test's function jumps out, with the stop flag and the skip flag not both up and the maps
-- well formed, the run of the test returns with both flags down and no test running; with the skip
-- flag up the test is skipped, with neither it has failed, and with the stop flag up it has passed
-- if nothing is left over and has failed if something is.
pub run_test-jumped :
    (t : CmUnitTestState) (f : TestFunction) (g g₁ : Global)
    → t.test.test_func ≡ some f
    → f (started t.state g) ≡ jumped g₁
    → (g₁.stop_test && g₁.skip_test) ≡ false
    → IsWellFormed SymbolValue 1 g₁.function_result_map
    → IsWellFormed CheckParameterEvent 2 g₁.function_parameter_map
    → (t' : CmUnitTestState) × (g' : Global) × (run_test (pos 0) t g ≡ ok (pos 0, t') g')
      × HasStatus t f g g₁ t'
      × (g'.skip_test ≡ false)
      × (g'.stop_test ≡ false)
      × (g'.running_test ≡ false)
run_test-jumped t f g g₁ has run flags results parameters = elim (Bool-cases g₁.stop_test) [
  | inl stop ↦
      let skip : g₁.skip_test ≡ false = ground arith in
      let (left, message, lines, e, iff) =
        has_leftover_values-ok (record g₁ { running_test = false }) results parameters in
      (
        record t { state = g₁.state_cell; status = if left then failed else passed },
        record (cleared (without_satisfied g₁ message lines)) { stop_test = false },
        run_test-stopped t f g g₁ left message lines has run stop skip e,
        status_stopped t f g g₁ left stop iff,
        skip,
        refl,
        refl,
      )
  | inr stop ↦
      let (g', ran, unskipped, unstopped, done, _, _, _) =
        run_test-failed t f g g₁ g₁.skip_test has run stop refl in
      (
        status_after t f g g₁ g₁.skip_test,
        g',
        ran,
        status_jumped t f g g₁ g₁.skip_test stop refl,
        unskipped,
        unstopped,
        done,
      )
]
