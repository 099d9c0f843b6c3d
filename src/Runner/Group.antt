-- ===== src/Runner/Group.antt =====
-- _cmocka_run_group_tests of src/cmocka.c.
use cmocka.Prelude.{
  ◌%◌, ◌^◌, ◌-◌, ltb, ℕ, ◌+◌, Bool, true, false, not, ◌&&◌, ◌||◌, Option, none, some, List, [], ◌∷◌,
}
use cmocka.Prelude.{CString, if◌then◌else◌, ◌==◌, codes, length, take}
use cmocka.Prelude.Int.{ℤ, pos, negsuc, eq_ℤ}
use cmocka.State.{str}
use cmocka.State.Run.{M, pure, ◌>>=◌, ◌>>◌, modify, gets, when}
use cmocka.Report.{print_error}
use cmocka.Alloc.{CheckPoint, check_point_allocated_blocks, fail_if_blocks_allocated}
use cmocka.Glob.{c_strmatch}
use cmocka.Runner.{CmUnitTest, CmUnitTestState, CmUnitTestStatus, not_started, passed, failed}
use cmocka.Runner.{skipped, FixtureFunction, name_of, run_one_tests, run_group_fixture}
use cmocka.Runner.Print.{cmprintf, test_start, test_success, test_failure, test_error, test_skipped}
use cmocka.Runner.Print.{cmprintf_group_start, cmprintf_group_finish, text_of}

-- The counters of _cmocka_run_group_tests.
pub record Totals : Type 0 where
  pub executed : ℕ
  pub passed : ℕ
  pub failed : ℕ
  pub errors : ℕ
  pub skipped : ℕ

abbrev pub no_totals : Totals
no_totals = record { executed = 0; passed = 0; failed = 0; errors = 0; skipped = 0 }

abbrev is_set : {A : Type 0} → Option A → Bool
is_set none = false
is_set (some a) = true

-- `pattern == NULL`, or the answer of c_strmatch.
abbrev passes_filter : Bool → Option CString → Option CString → Bool
passes_filter unset name none = unset
passes_filter unset name (some pattern) = c_strmatch name (some pattern)

-- The tests that are put into `cm_tests`.
unfoldable pub is_selected : Option CString → Option CString → CmUnitTest → Bool
unfolding c_strmatch
is_selected test_filter skip_filter test =
    is_set test.name
    && (is_set test.test_func || is_set test.setup_func || is_set test.teardown_func)
    && passes_filter true test.name test_filter
    && not (passes_filter false test.name skip_filter)

unfoldable pub select_tests :
    Option CString → Option CString → List CmUnitTest → List CmUnitTestState
unfolding is_selected
select_tests test_filter skip_filter [] = []
select_tests test_filter skip_filter (test ∷ tests) =
    let rest = select_tests test_filter skip_filter tests in
    if is_selected test_filter skip_filter test
    then record {
      check_point = none;
      test = test;
      state = 0;
      error_message = none;
      status = not_started;
    }
      ∷ rest
    else rest

-- What is printed behind a run that ended with that status, and the counter that goes up.
unfoldable pub count_status : CmUnitTestStatus → ℕ → CmUnitTestState → Totals → M Totals
count_status passed number t totals =
    cmprintf test_success number (name_of t.test) t.error_message >>= λ _.
    pure (record totals { passed = totals.passed + 1 })
count_status skipped number t totals =
    cmprintf test_skipped number (name_of t.test) t.error_message >>= λ _.
    pure (record totals { skipped = totals.skipped + 1 })
count_status failed number t totals =
    cmprintf test_failure number (name_of t.test) t.error_message >>= λ _.
    pure (record totals { failed = totals.failed + 1 })
count_status _ number t totals =
    cmprintf test_error number (name_of t.test) (some (codes "Internal cmocka error")) >>= λ _.
    pure (record totals { errors = totals.errors + 1 })

-- A test whose setup or teardown failed. The message is cut to the buffer of 2048 bytes.
unfoldable pub count_error : ℕ → CmUnitTestState → Totals → M Totals
count_error number t totals = do
  g ← gets (λ g. g)
  let text = g.libc.format "Could not run test: %s" (str (text_of t.error_message) ∷ [])
  cmprintf test_error number (name_of t.test) (some (take 2047 text))
  pure (record totals { errors = totals.errors + 1 })

unfoldable pub count_test : ℤ → ℕ → CmUnitTestState → Totals → M Totals
unfolding count_status count_error
count_test rc number t totals =
    let counted = record totals { executed = totals.executed + 1 } in
    if eq_ℤ rc (pos 0) then count_status t.status number t counted else count_error number t counted

abbrev pub state_for : ℕ → CmUnitTestState → ℕ
state_for group_state t =
    if not (group_state == 0)
    then group_state
    else if not (t.test.initial_state == 0)
    then t.test.initial_state
    else t.state

-- The loop over `cm_tests`; `number` is the next test's.
unfoldable pub run_tests : ℕ → ℕ → List CmUnitTestState → Totals → M (Totals × List CmUnitTestState)
unfolding count_test
run_tests group_state number [] totals = pure (totals, [])
run_tests group_state number (t ∷ tests) totals = do
  cmprintf test_start number (name_of t.test) none
  (rc, t') ← run_one_tests (record t { state = state_for group_state t })
  totals' ← count_test rc number t' totals
  (all_totals, rest) ← run_tests group_state (number + 1) tests totals'
  pure (all_totals, t' ∷ rest)

-- The error message so far, printed and dropped.
unfoldable pub flush_message : Option CString → M (Unit {0})
unfolding print_error
flush_message none = pure tt
flush_message (some text) = do
  print_error "[  ERROR   ] --- %s\n" (str text ∷ [])
  modify λ g. record g { error_message = none }

unfoldable pub run_group_setup : Option FixtureFunction → CheckPoint → M (ℤ × ℕ)
run_group_setup none point = pure (pos 0, 0)
run_group_setup (some group_setup) point =
    run_group_fixture (codes "cmocka_group_setup") (some group_setup) none 0 (some point)

-- The tests if the group setup succeeded, and else one error for the group.
unfoldable pub run_tests_if :
    ℤ → CString → ℕ → List CmUnitTestState → M (Totals × List CmUnitTestState)
unfolding run_tests flush_message
run_tests_if rc group_name group_state cm_tests =
    if eq_ℤ rc (pos 0) then run_tests group_state 1 cm_tests no_totals else (do
      g ← gets (λ g. g)
      flush_message g.error_message
      cmprintf test_error 0 group_name (some (codes "[  FAILED  ] GROUP SETUP"))
      pure (record no_totals { errors = 1 }, cm_tests))

unfoldable pub run_group_teardown : Option FixtureFunction → CString → ℕ → CheckPoint → M (Unit {0})
unfolding flush_message
run_group_teardown none group_name group_state point = pure tt
run_group_teardown (some group_teardown) group_name group_state point = do
  (rc, state) ←
      run_group_fixture (codes "cmocka_group_teardown") none (some group_teardown) group_state
        (some point)
  when (not (eq_ℤ rc (pos 0))) (do
    g ← gets (λ g. g)
    flush_message g.error_message
    cmprintf test_error 0 group_name (some (codes "[  FAILED  ] GROUP TEARDOWN")))

-- The names of the tests of one status, as the report lists them.
unfoldable pub names_with : (CmUnitTestStatus → Bool) → List CmUnitTestState → List CString
names_with test [] = []
names_with test (t ∷ tests) =
    let rest = names_with test tests in if test t.status then name_of t.test ∷ rest else rest

abbrev pub is_skipped : CmUnitTestStatus → Bool
is_skipped skipped = true
is_skipped _ = false

abbrev pub is_failed : CmUnitTestStatus → Bool
is_failed failed = true
is_failed _ = false

-- `(int)` of a `size_t`: its lower 32 bits, read as a signed number.
unfoldable pub int_of : ℕ → ℤ
int_of n = let low = n % 2 ^ 32 in if ltb low (2 ^ 31) then pos low else negsuc (2 ^ 32 - 1 - low)

-- `tests_size` is `sizeof(struct CmUnitTestState) * num_tests`.
unfoldable pub run_group_tests :
    CString → List CmUnitTest → ℕ → Option FixtureFunction → Option FixtureFunction → M ℤ
unfolding select_tests run_group_setup run_tests_if run_group_teardown names_with int_of
run_group_tests group_name tests tests_size group_setup group_teardown = do
  g ← gets (λ g. g)
  let group_check_point = check_point_allocated_blocks g
  if not (g.libc.alloc_ok tests_size) then pure (negsuc 0) else do
    let cm_tests = select_tests g.test_filter_pattern g.skip_filter_pattern tests
    cmprintf_group_start group_name (length cm_tests)
    (rc, group_state) ← run_group_setup group_setup group_check_point
    (totals, ran) ← run_tests_if rc group_name group_state cm_tests
    run_group_teardown group_teardown group_name group_state group_check_point
    cmprintf_group_finish group_name totals.executed totals.passed totals.failed totals.errors
        totals.skipped (names_with is_skipped ran) (names_with is_failed ran)
    fail_if_blocks_allocated group_check_point (codes "cmocka_group_tests")
    pure (int_of (totals.failed + totals.errors))
