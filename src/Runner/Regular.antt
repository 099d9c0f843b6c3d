-- ===== src/Runner/Regular.antt =====
-- One test, with or without fixtures, in cmocka_run_one_tests.
use cmocka.Prelude.{ℕ, ◌≡◌, ◌⊎◌, inl, inr, refl, ◌∙◌, Option, none, some}
use cmocka.Prelude.Int.{pos}
use cmocka.State.{Global}
use cmocka.State.Run.{ok}
use cmocka.Report.Steady.{Same}
use cmocka.Alloc.{check_point_allocated_blocks}
use cmocka.Runner.{
  FixtureFunction, CmUnitTest, CmUnitTestState, CmUnitTestStatus, TestFunction, run_one_tests,
  run_setup, run_teardown, run_one_test_or_fixture, name_of,
}
use cmocka.Runner.Plain.{IsReady, IsReady-Same, Ends, earned-EndsAs}
use cmocka.Runner.Fixtures.{IsPaired, IsReady-with_blocks, setup_completes, teardown_completes}

-- No fixture, or a setup with its teardown.
abbrev pub HasFixtures : CmUnitTest → Type 0
HasFixtures test =
    ((test.setup_func ≡ none) × (test.teardown_func ≡ none))
    ⊎ ((setup : FixtureFunction) × (teardown : FixtureFunction) × (test.setup_func ≡ some setup)
        × (test.teardown_func ≡ some teardown)
        × IsPaired setup teardown (pos 0))

-- A test whose function earns that status.
pub record IsRegular (status : CmUnitTestStatus) (test : CmUnitTest) : Type 0 where
  pub fixtures : HasFixtures test
  pub function : TestFunction
  pub runs : test.test_func ≡ some function
  pub ends : Ends status function

setup_none :
    (setup : Option FixtureFunction) (t : CmUnitTestState) (g : Global)
    → setup ≡ none
    → run_setup setup t g ≡ ok (pos 0, t) g
unfolding run_setup
setup_none setup t g e = rw e

teardown_none :
    (teardown : Option FixtureFunction) (t : CmUnitTestState) (g : Global)
    → teardown ≡ none
    → run_teardown teardown (pos 0) t g ≡ ok (pos 0, t) g
unfolding run_teardown
teardown_none teardown t g e = rw e

setup_some :
    (function : Option FixtureFunction) (setup : FixtureFunction) (t : CmUnitTestState) (cell : ℕ)
    (g g' : Global)
    → function ≡ some setup
    → run_one_test_or_fixture
        (name_of t.test)
        none
        (some setup)
        none
        t.state
        (some (check_point_allocated_blocks g))
        g
      ≡ ok (pos 0, cell) g'
    → run_setup function t g
      ≡ ok
          (pos 0, record t { check_point = some (check_point_allocated_blocks g); state = cell })
          g'
unfolding run_setup
setup_some function setup t cell g g' has e = rw has (rw e)

teardown_some :
    (function : Option FixtureFunction) (teardown : FixtureFunction) (t : CmUnitTestState)
    (cell : ℕ) (g g' : Global)
    → function ≡ some teardown
    → run_one_test_or_fixture (name_of t.test) none none (some teardown) t.state t.check_point g
      ≡ ok (pos 0, cell) g'
    → run_teardown function (pos 0) t g ≡ ok (pos 0, record t { state = cell }) g'
unfolding run_teardown
teardown_some function teardown t cell g g' has e = rw has (rw e)

module _ (status : CmUnitTestStatus) (t : CmUnitTestState) (function : TestFunction) (g : Global)
    (runs : t.test.test_func ≡ some function) (ends : Ends status function)
    (ready : IsReady g) where
  abbrev Finishes : Type 0
  Finishes =
      (t' : CmUnitTestState) × (g' : Global) × (run_one_tests t g ≡ ok (pos 0, t') g')
      × (t'.status ≡ status)
      × Same g g'

  plain-Finishes : t.test.setup_func ≡ none → t.test.teardown_func ≡ none → Finishes
  unfolding run_one_tests
  plain-Finishes no_setup no_teardown =
      let (g₁, earned, libc, blocks, stop) = ends t.state g ready in
      let (state, g₂, e, same) =
        earned-EndsAs t function g g₁ runs ready libc blocks stop status earned in
      (
        record t { state = state; status = status; error_message = g₂.error_message },
        record g₂ { error_message = none },
        rw (setup_none t.test.setup_func t g no_setup)
            (rw e (rw (teardown_none t.test.teardown_func _ g₂ no_teardown))),
        refl,
        record {
          libc = same.libc;
          skip_test = same.skip_test;
          stop_test = same.stop_test;
          allocated_blocks = same.allocated_blocks;
        },
      )

  paired-Finishes :
      (setup teardown : FixtureFunction)
      → t.test.setup_func ≡ some setup
      → t.test.teardown_func ≡ some teardown
      → IsPaired setup teardown (pos 0)
      → Finishes
  unfolding run_one_tests
  paired-Finishes setup teardown has_setup has_teardown paired =
      let (blocks, distinct, up, back) = paired t.state g ready in
      let point = check_point_allocated_blocks g in
      let (cell, g₁, e₁, same₁) =
        setup_completes setup (name_of t.test) (pos 0) t.state g blocks ready up (some point) in
      let t₁ = record t { check_point = some point; state = cell } in
      let ready₁ = IsReady-with_blocks blocks g g₁ ready distinct same₁ in
      let (g₁', earned, libc, kept, stop) = ends cell g₁ ready₁ in
      let (state, g₂, e₂, same₂) =
        earned-EndsAs t₁ function g₁ g₁' runs ready₁ libc kept stop status earned in
      let ready₂ = IsReady-Same g₁ g₂ ready₁ same₂ in
      let down = back state g₂ ready₂ (same₂.allocated_blocks ∙ same₁.allocated_blocks) in
      let (last, g₃, e₃, same₃) =
        teardown_completes teardown (name_of t.test) (pos 0) state g₂ g.allocated_blocks ready₂ down
          g ready.distinct refl in
      let t₂ = record t₁ { state = state; status = status } in
      (
        record t₂ { state = last; error_message = g₃.error_message },
        record g₃ { error_message = none },
        rw (setup_some t.test.setup_func setup t cell g g₁ has_setup e₁) (
            rw e₂ (rw (teardown_some t.test.teardown_func teardown t₂ last g₂ g₃ has_teardown e₃))),
        refl,
        record {
          libc = same₃.libc ∙ same₂.libc ∙ same₁.libc;
          skip_test = same₃.skip_test ∙ same₂.skip_test ∙ same₁.skip_test;
          stop_test = same₃.stop_test ∙ same₂.stop_test ∙ same₁.stop_test;
          allocated_blocks = same₃.allocated_blocks;
        },
      )

pub run_one_tests-IsRegular :
    (status : CmUnitTestStatus) (t : CmUnitTestState) (g : Global) (r : IsRegular status t.test)
    → (ready : IsReady g) → Finishes status t r.function g r.runs r.ends ready
run_one_tests-IsRegular status t g r ready = elim r.fixtures [
  | inl (no_setup, no_teardown) ↦
      plain-Finishes status t r.function g r.runs r.ends ready no_setup no_teardown
  | inr (setup, teardown, has_setup, has_teardown, paired) ↦
      paired-Finishes status t r.function g r.runs r.ends ready setup teardown has_setup
        has_teardown paired
]
