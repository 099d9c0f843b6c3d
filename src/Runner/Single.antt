-- ===== src/Runner/Single.antt =====
-- One test: what becomes of a setup that skips.
use cmocka.Prelude.{ℕ, ◌≡◌, refl, true, false, Option, none, some, [], ◌∷◌, CString}
use cmocka.Prelude.{◌∙◌}
use cmocka.Prelude.Int.{pos, negsuc}
use cmocka.State.{Global, str, nat}
use cmocka.State.Run.{ok, jumped, ◌>>=◌, pure}
use cmocka.Report.{exit_test, skip}
use cmocka.Report.Quiet.{after_messages, cmocka_print_error-Prints}
use cmocka.Mocks.{initialize_testing, teardown_testing, no_location}
use cmocka.Alloc.{CheckPoint, check_point_allocated_blocks}
use cmocka.Runner.{CmUnitTestState, error, FixtureFunction}
use cmocka.Runner.{run_one_tests, run_setup, run_test, run_teardown, run_one_test_or_fixture}
use cmocka.Runner.{protected_run, run_function, test_failed, name_of}

-- _skip, while a test runs, jumps with the skip flag up.
pub skip_jumps :
    (file : CString) (line : ℕ) (g : Global)
    → g.running_test ≡ true
    → (g' : Global) × (skip file line g ≡ jumped g')
      × (g'.skip_test ≡ true)
      × (g'.stop_test ≡ g.stop_test)
      × (g'.libc ≡ g.libc)
      × (g'.allocated_blocks ≡ g.allocated_blocks)
unfolding skip exit_test
skip_jumps file line g running =
    let (message, lines, e) =
      cmocka_print_error-Prints "%s:%u: Skipped!\n" (str file ∷ nat line ∷ []) g in
    (
      record (after_messages g message lines) { skip_test = true },
      rw e (rw running),
      refl,
      refl,
      refl,
      refl,
    )

abbrev pub skipping : CString → ℕ → FixtureFunction
skipping file line = skip file line >>= λ _. pure (pos 0)

-- The state in which a test or a fixture starts.
abbrev pub started : ℕ → Global → Global
started state g = record g {
  running_test = true;
  function_result_map = [];
  last_mock_value_location = no_location;
  function_parameter_map = [];
  last_parameter_location = no_location;
  call_ordering = [];
  state_cell = state;
}

-- The state that a test or a fixture leaves.
abbrev pub cleared : Global → Global
cleared g = record g {
  running_test = false;
  function_result_map = [];
  last_mock_value_location = no_location;
  function_parameter_map = [];
  last_parameter_location = no_location;
  call_ordering = [];
  last_call_ordering_location = no_location;
}

-- A fixture that skips answers -1 and leaves the skip flag up.
skipping_fixture :
    (name file : CString) (line state : ℕ) (point : Option CheckPoint) (g : Global)
    → g.stop_test ≡ false
    → (g' : Global) × (cell : ℕ) × (run_one_test_or_fixture name none
          (some (skipping file line))
          none
          state
          point
          g
        ≡ ok (negsuc 0, cell) g')
      × (g'.skip_test ≡ true)
      × (g'.stop_test ≡ false)
      × (g'.libc ≡ g.libc)
unfolding run_one_test_or_fixture protected_run run_function test_failed initialize_testing
    teardown_testing
skipping_fixture name file line state point g no_stop =
    let (g', e, skip_flag, stop_flag, libc, _) = skip_jumps file line (started state g) refl in
    (
      cleared g',
      g'.state_cell,
      rw e (rw (stop_flag ∙ no_stop)),
      skip_flag,
      stop_flag ∙ no_stop,
      libc,
    )

skipped_teardown :
    (teardown : Option FixtureFunction) (t : CmUnitTestState) (g : Global)
    → run_teardown teardown (negsuc 0) t g ≡ ok (negsuc 0, t) g
unfolding run_teardown
skipped_teardown none t g = refl
skipped_teardown (some teardown) t g = refl

-- A test whose setup skips, with the stop flag down: its status, and the flags it leaves.
pub skipping_setup :
    (t : CmUnitTestState) (file : CString) (line : ℕ) (g : Global)
    → g.stop_test ≡ false
    → (g' : Global) × (t' : CmUnitTestState) × (run_one_tests
          (record t { test = record (t.test) { setup_func = some (skipping file line) } })
          g
        ≡ ok (negsuc 0, t') g')
      × (t'.status ≡ error)
      × (g'.skip_test ≡ true)
      × (g'.stop_test ≡ false)
      × (g'.libc ≡ g.libc)
unfolding run_one_tests run_setup run_test
skipping_setup t file line g no_stop =
    let point = check_point_allocated_blocks g in
    let (g₁, cell, e, skip_flag, stop_flag, libc) =
      skipping_fixture (name_of t.test) file line t.state (some point) g no_stop in
    let (message, lines, p) = cmocka_print_error-Prints "Test setup failed" [] g₁ in
    let g₂ = after_messages g₁ message lines in
    (
      record g₂ { error_message = none },
      record t {
        test = record (t.test) { setup_func = some (skipping file line) };
        check_point = some point;
        state = cell;
        status = error;
        error_message = g₂.error_message;
      },
      rw e (rw p (rw skipped_teardown)),
      refl,
      skip_flag,
      stop_flag,
      libc,
    )
