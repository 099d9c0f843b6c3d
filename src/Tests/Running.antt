-- ===== src/Tests/Running.antt =====
-- The runner at concrete tests.
use cmocka.Prelude.{◌+◌, ◌≡◌, refl, true, false, none, some, [], ◌∷◌, codes, length}
use cmocka.Prelude.Int.{negsuc}
use cmocka.State.{Global}
use cmocka.State.Run.{ok, pure}
use cmocka.Runner.{CmUnitTestState, not_started, error, skipped, run_one_tests}
use cmocka.Runner.Group.{no_totals, run_tests}
use cmocka.Runner.Single.{skipping}
use cmocka.Runner.Skipping.{IsFailing, setup_skip_leaks}
use cmocka.Runner.Totals.{Ensures, IsBalanced, run_tests-IsBalanced}
use cmocka.Prelude.{List, not, ◌&&◌, arith}
use cmocka.Prelude.Int.{pos}
use cmocka.State.{SymbolValue}
use cmocka.Symbols.{Item, add_symbol_value}
use cmocka.Symbols.Add.{add_symbol_value-IsWellFormed}
use cmocka.Alloc.CheckPoints.{IsDistinct}
use cmocka.Mocks.{will_return, set_source_location}
use cmocka.Mocks.Settled.{IsSettled}
use cmocka.Runner.{run_test, passed, failed, TestFunction}
use cmocka.Runner.Single.{started}
use cmocka.Runner.Verdict.{run_test-verdict}
use cmocka.Runner.Jumped.{HasStatus, run_test-jumped}
use cmocka.Report.{stop, exit_test, abort_requested}
use cmocka.Tests.{word, start, file}

abbrev returning : CmUnitTestState
returning = record {
  check_point = none;
  test = record {
    name = some (codes "returning");
    test_func = some (pure tt);
    setup_func = none;
    teardown_func = none;
    initial_state = 0;
  };
  state = 0;
  error_message = none;
  status = not_started;
}

run_tests-IsBalanced_example :
    Ensures
      (λ r.
        IsBalanced r.0
        × (r.0.executed ≡ 0 + length (returning ∷ []))
        × (length r.1 ≡ length (returning ∷ [])))
      (run_tests 0 1 (returning ∷ []) no_totals start)
run_tests-IsBalanced_example = run_tests-IsBalanced 0 1 (returning ∷ []) no_totals start refl

-- A test that is given up.
abbrev given_up : CmUnitTestState
given_up = record returning { test = record (returning.test) { test_func = some (exit_test true) } }

exit_test-IsFailing : IsFailing start (exit_test true)
unfolding exit_test abort_requested
exit_test-IsFailing s running libc =
    let quiet : (not s.skip_test && abort_requested s.libc.test_abort) ≡ false = ground arith in
    (s, rw quiet (rw running refl), refl, refl)

setup_skip_leaks_example :
    ((g₁ : Global) × (next₁ : CmUnitTestState) × (run_one_tests given_up start
        ≡ ok (pos 0, next₁) g₁)
      × (next₁.status ≡ failed))
    × ((g' : Global) × (t' : CmUnitTestState) × (run_one_tests
            (record returning {
              test = record (returning.test) { setup_func = some (skipping file 4) };
            })
            start
          ≡ ok (negsuc 0, t') g')
        × (t'.status ≡ error)
        × ((g₂ : Global) × (next₂ : CmUnitTestState) × (run_one_tests given_up g'
              ≡ ok (pos 0, next₂) g₂)
            × (next₂.status ≡ skipped)))
setup_skip_leaks_example =
    setup_skip_leaks returning given_up (exit_test true) file 4 start refl refl refl
      exit_test-IsFailing refl refl

-- A test that queues a value and does not use it up.
abbrev queueing : TestFunction
queueing = will_return (codes "open") file 4 none (word 3) (pos 1)

abbrev queueing_test : CmUnitTestState
queueing_test = record returning { test = record (returning.test) { test_func = some queueing } }

abbrev queued : List (Item SymbolValue 1)
queued =
    add_symbol_value 1 [] (codes "open", tt)
      (record { name = none; location = set_source_location file 4; value = word 3 }) (pos 1)

abbrev after_queueing : Global
after_queueing = record (started 0 start) { function_result_map = queued }

run_test-verdict_example :
    (t' : CmUnitTestState) × (g' : Global) × (run_test (pos 0) queueing_test start
      ≡ ok (pos 0, t') g')
    × (t'.state ≡ 0)
    × (g'.running_test ≡ false)
    × (IsSettled after_queueing → t'.status ≡ passed)
    × (¬ IsSettled after_queueing → t'.status ≡ failed)
unfolding will_return IsDistinct
run_test-verdict_example =
    run_test-verdict queueing_test queueing start after_queueing refl refl refl refl refl refl
      (add_symbol_value-IsWellFormed {V = SymbolValue}
        (record { name = none; location = set_source_location file 4; value = word 3 }) (pos 1) 1 []
        (codes "open", tt) tt)
      tt tt refl

abbrev stopping_test : CmUnitTestState
stopping_test = record returning { test = record (returning.test) { test_func = some stop } }

abbrev after_stopping : Global
after_stopping = record (started 0 start) { stop_test = true }

run_test-jumped_example :
    (t' : CmUnitTestState) × (g' : Global) × (run_test (pos 0) stopping_test start
      ≡ ok (pos 0, t') g')
    × HasStatus stopping_test stop start after_stopping t'
    × (g'.skip_test ≡ false)
    × (g'.stop_test ≡ false)
    × (g'.running_test ≡ false)
unfolding stop
run_test-jumped_example =
    run_test-jumped stopping_test stop start after_stopping refl refl refl tt tt
