-- ===== src/Tests/Expecting.antt =====
-- Expected assertions, misused memory and clocks at concrete states.
use cmocka.Prelude.{[], ◌∷◌, ℕ, ◌≡◌, refl, ap, ◌↔◌, true, false, none, some, codes, arith}
use cmocka.Prelude.Int.{ℤ, pos, ◌+ℤ◌, ◌-ℤ◌, ◌*ℤ◌, ltb_ℤ, ◌≤ℤ◌, quotient}
use cmocka.State.{Global}
use cmocka.State.Run.{ok, assert_jumped, NeverReturns, ◌>>◌}
use cmocka.Report.{mock_assert, exit_test}
use cmocka.Alloc.{
  find_block, fail_if_blocks_allocated, check_point_allocated_blocks, allocate_size_for,
}
use cmocka.Alloc.CheckPoints.{IsDistinct}
use cmocka.Runner.{CmUnitTestState, TestFunction, run_test, run_one_tests, not_started}
use cmocka.Runner.Single.{started}
use cmocka.Contracts.{expect_assert_failure}
use cmocka.Contracts.Expected.{
  armed, after_assertion, expect_assert_failure_iff, expecting_assert_leaks,
}
use cmocka.Examples.Allocate.{leak_memory, buffer_overflow, buffer_underflow}
use cmocka.Examples.Allocate.Caught.{allocate_module-caught}
use cmocka.Clock.{Timespec, Doubles, cm_tspecdiff, nanoseconds}
use cmocka.Clock.Elapsed.{IsExact, cm_tspecdiff_cases}
use cmocka.Signals.{Handlers, set_handler, install, around_test}
use cmocka.Signals.Restored.{is_caught, signals-restored}
use cmocka.Tests.{start, file}

-- A call that fails an assertion.
abbrev asserting : TestFunction
asserting = mock_assert false (codes "p") file 3

abbrev asserted : Global
asserted = record (armed start) { last_failed_assert = some (codes "p") }

expect_assert_failure_iff_example :
    (expect_assert_failure asserting (codes "f()") file 9 start ≡ ok tt (after_assertion asserted))
    ↔ ((g₁ : Global) × (asserting (armed start) ≡ assert_jumped g₁)
        × (after_assertion asserted ≡ after_assertion g₁))
expect_assert_failure_iff_example =
    expect_assert_failure_iff asserting (codes "f()") file 9 start (after_assertion asserted)

-- A test that is given up while it expects an assertion.
abbrev giving_up : CmUnitTestState
giving_up = record {
  check_point = none;
  test = record {
    name = some (codes "giving_up");
    test_func = some (expect_assert_failure (exit_test true) (codes "f()") file 9);
    setup_func = none;
    teardown_func = none;
    initial_state = 0;
  };
  state = 0;
  error_message = none;
  status = not_started;
}

-- A test that fails an assertion without expecting one.
abbrev stray : CmUnitTestState
stray = record giving_up {
  test = record (giving_up.test) {
    name = some (codes "stray");
    test_func = some (mock_assert false (codes "q") file 20);
  };
}

expecting_assert_leaks_example :
    (t' : CmUnitTestState) × (g' : Global) × (run_test (pos 0) giving_up start ≡ ok (pos 0, t') g')
    × (run_one_tests stray g'
        ≡ assert_jumped (record (started 0 g') { last_failed_assert = some (codes "q") }))
unfolding exit_test
expecting_assert_leaks_example =
    expecting_assert_leaks giving_up stray (exit_test true) (codes "f()") file 9 (codes "q") file 20
      start (armed (started 0 start)) refl refl refl refl refl refl

allocate_module-caught_example :
    NeverReturns (
      (leak_memory 32
          >> fail_if_blocks_allocated (check_point_allocated_blocks start) (codes "test"))
        start)
    × NeverReturns (buffer_overflow 32 start)
    × NeverReturns (buffer_underflow 32 start)
unfolding find_block IsDistinct allocate_size_for
allocate_module-caught_example =
    allocate_module-caught 32 start (codes "test")
      ((λ e. cc), omega arith, omega arith, omega arith) refl tt

abbrev half_past : Timespec
half_past = record { tv_sec = pos 7; tv_nsec = pos 500000000 }

abbrev before : Timespec
before = record { tv_sec = pos 5; tv_nsec = pos 900000000 }

-- Numbers without a fraction in place of the doubles.
abbrev whole : Doubles ℤ
whole = record {
  of_long = λ n. n;
  to_long = λ n. n;
  plus = ◌+ℤ◌;
  times = ◌*ℤ◌;
  over = quotient;
  above = λ a b. ltb_ℤ b a;
  one_e9 = pos 1000000000;
}

whole-IsExact : IsExact whole
unfolding quotient ◌+ℤ◌ ◌*ℤ◌
whole-IsExact = record {
  quotient_below = λ n below. ap pos (omega (arith, below));
  above_below = λ n below. below;
  times_zero = refl;
}

cm_tspecdiff_cases_example :
    (before.tv_sec ≤ℤ half_past.tv_sec
      → nanoseconds (cm_tspecdiff whole half_past before)
        ≡ nanoseconds half_past -ℤ nanoseconds before)
    × (ltb_ℤ half_past.tv_sec before.tv_sec ≡ true
        → nanoseconds (cm_tspecdiff whole half_past before)
          ≡ nanoseconds before
            -ℤ nanoseconds half_past
            +ℤ pos 2 *ℤ (half_past.tv_nsec -ℤ before.tv_nsec))
cm_tspecdiff_cases_example =
    cm_tspecdiff_cases whole half_past before whole-IsExact (500000000, refl, omega arith)
      (900000000, refl, omega arith)

-- A test that sets a handler of its own for signal 11.
abbrev setting : Handlers ℕ → Handlers ℕ
setting = set_handler 11 7

signals-restored_example :
    (is_caught 11 (8 ∷ 4 ∷ 11 ∷ []) ≡ true
      → ((install (8 ∷ 4 ∷ 11 ∷ []) 99 (λ s. s)).1 11 ≡ 99)
        × (around_test (8 ∷ 4 ∷ 11 ∷ []) 99 setting (λ s. s) 11 ≡ 11))
    × (is_caught 11 (8 ∷ 4 ∷ 11 ∷ []) ≡ false
        → ((install (8 ∷ 4 ∷ 11 ∷ []) 99 (λ s. s)).1 11 ≡ 11)
          × (around_test (8 ∷ 4 ∷ 11 ∷ []) 99 setting (λ s. s) 11
              ≡ setting (install (8 ∷ 4 ∷ 11 ∷ []) 99 (λ s. s)).1 11))
signals-restored_example =
    signals-restored 99 (8 ∷ 4 ∷ 11 ∷ []) (λ s. s) setting 11 (refl, (refl, (refl, tt)))
