-- ===== src/Runner/Skipping.antt =====
-- A setup that skips, and the test that runs behind it.
use cmocka.Prelude.{ℕ, ◌≡◌, refl, ◌∙◌, Bool, if◌then◌else◌, true, false, none, some, CString}
use cmocka.Prelude.Int.{pos, negsuc}
use cmocka.State.{Global}
use cmocka.State.Run.{ok, jumped}
use cmocka.Runner.{
  CmUnitTestState, TestFunction, error, failed, skipped, run_one_tests, run_setup, run_teardown,
}
use cmocka.Runner.Single.{started, skipping, skipping_setup}
use cmocka.Runner.Jumped.{run_test-failed, status_after}

no_setup_runs :
    (t : CmUnitTestState) (g : Global)
    → t.test.setup_func ≡ none
    → run_setup t.test.setup_func t g ≡ ok (pos 0, t) g
unfolding run_setup
no_setup_runs t g unset = rw unset refl

no_teardown_runs :
    (t : CmUnitTestState) (g : Global)
    → t.test.teardown_func ≡ none
    → run_teardown t.test.teardown_func (pos 0) t g ≡ ok (pos 0, t) g
unfolding run_teardown
no_teardown_runs t g unset = rw unset refl

-- A function that fails: while a test runs it jumps and leaves both flags as they are.
abbrev pub IsFailing : Global → TestFunction → Type 0
IsFailing g f =
    (s : Global)
    → s.running_test ≡ true
    → s.libc ≡ g.libc
    → (h : Global) × (f s ≡ jumped h) × (h.skip_test ≡ s.skip_test) × (h.stop_test ≡ s.stop_test)

-- A test without fixtures whose function fails, by the skip flag that it finds.
failing_test :
    (next : CmUnitTestState) (f : TestFunction) (skip : Bool) (g k : Global)
    → next.test.setup_func ≡ none
    → next.test.teardown_func ≡ none
    → next.test.test_func ≡ some f
    → IsFailing k f
    → g.libc ≡ k.libc
    → g.stop_test ≡ false
    → g.skip_test ≡ skip
    → (g' : Global) × (next' : CmUnitTestState) × (run_one_tests next g ≡ ok (pos 0, next') g')
      × (next'.status ≡ (if skip then skipped else failed))
unfolding run_one_tests
failing_test next f skip g k no_setup no_teardown has fails libc no_stop found =
    let (h, jumps, kept, stop) = fails (started next.state g) refl libc in
    let (g', ran, _, _, _, _, _, _) =
      run_test-failed next f g h skip has jumps (stop ∙ no_stop) (kept ∙ found) in
    (
      record g' { error_message = none },
      record (status_after next f g h skip) { error_message = g'.error_message },
      rw
          (
            no_setup_runs next g no_setup,
            ran,
            no_teardown_runs (status_after next f g h skip) g' no_teardown,
          )
          refl,
      refl,
    )

-- For a test without fixtures whose function fails (while a test runs it jumps out and leaves the
-- skip flag and the stop flag as they are), from a state with both flags down: its run gives it the
-- status of a failed test; but behind the run of a test whose setup skips, which is given the
-- status of an error, its run gives it the status of a skipped test.
pub setup_skip_leaks :
    (t next : CmUnitTestState) (f : TestFunction) (file : CString) (line : ℕ) (g : Global)
    → next.test.setup_func ≡ none
    → next.test.teardown_func ≡ none
    → next.test.test_func ≡ some f
    → IsFailing g f
    → g.skip_test ≡ false
    → g.stop_test ≡ false
    → ((g₁ : Global) × (next₁ : CmUnitTestState) × (run_one_tests next g ≡ ok (pos 0, next₁) g₁)
        × (next₁.status ≡ failed))
      × ((g' : Global) × (t' : CmUnitTestState) × (run_one_tests
              (record t { test = record (t.test) { setup_func = some (skipping file line) } })
              g
            ≡ ok (negsuc 0, t') g')
          × (t'.status ≡ error)
          × ((g₂ : Global) × (next₂ : CmUnitTestState) × (run_one_tests next g'
                ≡ ok (pos 0, next₂) g₂)
              × (next₂.status ≡ skipped)))
setup_skip_leaks t next f file line g no_setup no_teardown has fails unskipped no_stop =
    let (g', t', ran, status, up, down, libc) = skipping_setup t file line g no_stop in
    (
      failing_test next f false g g no_setup no_teardown has fails refl no_stop unskipped,
      (
        g',
        t',
        ran,
        status,
        failing_test next f true g' g no_setup no_teardown has fails libc down up,
      ),
    )
