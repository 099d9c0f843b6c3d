-- ===== src/Runner.antt =====
-- The test runner of src/cmocka.c: cmocka_run_one_test_or_fixture, cmocka_run_group_fixture,
-- cmocka_run_one_tests and _cmocka_run_group_tests. Tests and fixtures are programs over the static
-- variables that find `*state` in `state_cell`; a fixture returns its `int`.
pub mod Print
pub mod Single
pub mod Verdict
pub mod Jumped
pub mod Skipping
pub mod Group
pub mod Totals
pub mod Steady
pub mod Plain
pub mod Fixtures
pub mod Regular
pub mod GroupFixtures
pub mod Loop
pub mod Exit
use cmocka.Prelude.{
  ℕ, suc, ◌+◌, Bool, true, false, not, ◌&&◌, ◌||◌, Option, none, some, List, [], ◌∷◌,
}
use cmocka.Prelude.{◌++◌, CString, if◌then◌else◌, ◌==◌, codes, length}
use cmocka.Prelude.Int.{ℤ, pos, negsuc, eq_ℤ}
use cmocka.State.{Global, str}
use cmocka.State.Run.{
  M, Outcome, ok, jumped, assert_jumped, exited, aborted, undefined, pure, ◌>>=◌, ◌>>◌,
}
use cmocka.State.Run.{modify, gets, when}
use cmocka.Report.{cmocka_print_error, print_error, exit_failure}
use cmocka.Mocks.{initialize_testing, teardown_testing}
use cmocka.Mocks.Leftover.{has_leftover_values, fail_if_leftover_values}
use cmocka.Alloc.{CheckPoint, check_point_allocated_blocks, fail_if_blocks_allocated}

abbrev pub TestFunction : Type 0
TestFunction = M (Unit {0})

abbrev pub FixtureFunction : Type 0
FixtureFunction = M ℤ

pub data CmUnitTestStatus : Type 0 where
  not_started passed failed error skipped : CmUnitTestStatus

-- `initial_state` is a pointer, 0 for NULL.
pub record CmUnitTest : Type 0 where
  pub name : Option CString
  pub test_func : Option TestFunction
  pub setup_func : Option FixtureFunction
  pub teardown_func : Option FixtureFunction
  pub initial_state : ℕ

-- The field `runtime` is left out.
pub record CmUnitTestState : Type 0 where
  pub check_point : Option CheckPoint
  pub test : CmUnitTest
  pub state : ℕ
  pub error_message : Option CString
  pub status : CmUnitTestStatus

-- `if (cm_setjmp(global_run_test_env) == 0) { body } else { handler }`
abbrev pub setjmp_run_test_env {ℓ} : {A : Type ℓ} → Outcome A → M A → Outcome A
setjmp_run_test_env (jumped g) handler = handler g
setjmp_run_test_env outcome handler = outcome

-- The first of the three functions that is set.
unfoldable pub run_function :
    CString
    → CheckPoint
    → Option TestFunction
    → Option FixtureFunction
    → Option FixtureFunction
    → M ℤ
unfolding fail_if_blocks_allocated
run_function name check_point (some test_func) setup_func teardown_func =
    test_func >> (fail_if_blocks_allocated check_point name >>= λ _. pure (pos 0))
run_function name check_point none (some setup_func) teardown_func = setup_func
run_function name check_point none none (some teardown_func) =
    teardown_func >>= λ rc. fail_if_blocks_allocated check_point name >>= λ _. pure rc
run_function name check_point none none none = pure (pos 0)

-- What runs under the setjmp.
unfoldable pub protected_run :
    CString
    → CheckPoint
    → Option TestFunction
    → Option FixtureFunction
    → Option FixtureFunction
    → M ℤ
unfolding run_function fail_if_leftover_values
protected_run name check_point test_func setup_func teardown_func =
    run_function name check_point test_func setup_func teardown_func >>= λ rc.
    fail_if_leftover_values >>= λ _.
    modify (λ g. record g { running_test = false }) >>= λ _. pure rc

-- The branch that a `longjmp` comes back to.
unfoldable pub test_failed : M ℤ
unfolding has_leftover_values
test_failed = modify (λ g. record g { running_test = false }) >>= λ _.
    gets (λ g. g.stop_test) >>= λ stopped.
    if stopped
    then (has_leftover_values >>= λ leftover. modify (λ g. record g { stop_test = false }) >>= λ _.
        pure (if leftover then negsuc 0 else pos 0))
    else pure (negsuc 0)

abbrev pub point_or : Option CheckPoint → CheckPoint → CheckPoint
point_or none point = point
point_or (some heap_check_point) point = heap_check_point

-- The answer is `rc` and what `*state` holds in the end. Signals are not modelled.
unfoldable pub run_one_test_or_fixture :
    CString
    → Option TestFunction
    → Option FixtureFunction
    → Option FixtureFunction
    → ℕ
    → Option CheckPoint
    → M (ℤ × ℕ)
unfolding initialize_testing teardown_testing protected_run test_failed
run_one_test_or_fixture function_name test_func setup_func teardown_func state heap_check_point = do
  g ← gets (λ g. g)
  let check_point = point_or heap_check_point (check_point_allocated_blocks g)
  initialize_testing
  modify (λ g. record g { running_test = true; state_cell = state })
  rc ← λ g.
      setjmp_run_test_env
        (protected_run function_name check_point test_func setup_func teardown_func g) test_failed
  teardown_testing
  cell ← gets (λ g. g.state_cell)
  pure (rc, cell)

unfoldable pub run_group_fixture :
    CString → Option FixtureFunction → Option FixtureFunction → ℕ → Option CheckPoint → M (ℤ × ℕ)
unfolding run_one_test_or_fixture
run_group_fixture function_name (some setup_func) teardown_func =
    run_one_test_or_fixture function_name none (some setup_func) none
run_group_fixture function_name none teardown_func =
    run_one_test_or_fixture function_name none none teardown_func

abbrev pub name_of : CmUnitTest → CString
name_of test = elim test.name [ none ↦ [] | some name ↦ name ]

-- The setup of cmocka_run_one_tests, where there is one: its `rc` and the test's state.
unfoldable pub run_setup : Option FixtureFunction → CmUnitTestState → M (ℤ × CmUnitTestState)
unfolding run_one_test_or_fixture cmocka_print_error
run_setup none t = pure (pos 0, t)
run_setup (some setup_func) t = do
  g ← gets (λ g. g)
  let point = check_point_allocated_blocks g
  (rc, state) ←
      run_one_test_or_fixture (name_of t.test) none (some setup_func) none t.state (some point)
  let set_up = record t { check_point = some point; state = state }
  if eq_ℤ rc (pos 0)
      then pure (rc, set_up)
      else do cmocka_print_error "Test setup failed" []; pure (rc, record set_up { status = error })

-- The status that a test gets from its `rc`; a skip is taken back for the next test.
unfoldable pub set_status : ℤ → CmUnitTestState → M CmUnitTestState
set_status rc t =
    if eq_ℤ rc (pos 0)
    then pure (record t { status = passed })
    else (gets (λ g. g.skip_test) >>= λ skip.
        if skip
        then (modify (λ g. record g { skip_test = false }) >>= λ _.
            pure (record t { status = skipped }))
        else pure (record t { status = failed }))

unfoldable pub run_test : ℤ → CmUnitTestState → M (ℤ × CmUnitTestState)
unfolding run_one_test_or_fixture set_status
run_test rc t =
    if eq_ℤ rc (pos 0)
    then (do
      (test_rc, state) ←
          run_one_test_or_fixture (name_of t.test) t.test.test_func none none t.state none
      t' ← set_status test_rc (record t { state = state })
      pure (pos 0, t'))
    else pure (rc, t)

unfoldable pub run_teardown : Option FixtureFunction → ℤ → CmUnitTestState → M (ℤ × CmUnitTestState)
unfolding run_one_test_or_fixture cmocka_print_error
run_teardown none rc t = pure (rc, t)
run_teardown (some teardown_func) rc t = if not (eq_ℤ rc (pos 0)) then pure (rc, t) else (do
  (down, state) ←
      run_one_test_or_fixture (name_of t.test) none none (some teardown_func) t.state t.check_point
  let torn_down = record t { state = state }
  if eq_ℤ down (pos 0) then pure (down, torn_down) else do
    cmocka_print_error "Test teardown failed" []
    pure (down, record torn_down { status = error }))

-- The clock is not modelled.
unfoldable pub run_one_tests : CmUnitTestState → M (ℤ × CmUnitTestState)
unfolding run_setup run_test run_teardown
run_one_tests t₀ = do
  (rc₁, t₁) ← run_setup t₀.test.setup_func t₀
  (rc₂, t₂) ← run_test rc₁ t₁
  (rc₃, t₃) ← run_teardown t₂.test.teardown_func rc₂ t₂
  g ← gets (λ g. g)
  modify (λ g. record g { error_message = none })
  pure (rc₃, record t₃ { error_message = g.error_message })
