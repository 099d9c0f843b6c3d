-- ===== src/Tests/Groups.antt =====
-- The run of a group with a test that passes, one that fails and one that is skipped.
use cmocka.Prelude.{
  ℕ, ◌≡◌, ◌≢◌, str_eq, refl, ◌∙◌, inr, none, some, List, [], ◌∷◌, codes, if◌then◌else◌, ◌==◌,
}
use cmocka.Prelude.Int.{pos, negsuc}
use cmocka.State.{Global, SymbolValue}
use cmocka.State.Run.{ok, pure}
use cmocka.Symbols.{add_symbol_value, find_child, is_satisfied}
use cmocka.Symbols.Add.{add_symbol_value-IsWellFormed}
use cmocka.Mocks.{will_return, set_source_location}
use cmocka.Report.{skip, abort_requested}
use cmocka.Report.Steady.{Same}
use cmocka.Alloc.CheckPoints.{IsDistinct}
use cmocka.Runner.{CmUnitTest, CmUnitTestStatus, TestFunction, passed, failed, skipped}
use cmocka.Runner.Single.{started, skip_jumps}
use cmocka.Runner.Plain.{IsReady, Ends}
use cmocka.Runner.Regular.{IsRegular}
use cmocka.Runner.Fixtures.{Completes, IsPaired}
use cmocka.Prelude.{subst, inl}
use cmocka.Prelude.Int.{ℤ}
use cmocka.Runner.Exit.{run_group_tests-failures}
use cmocka.Runner.Group.{int_of, run_group_tests, select_tests}
use cmocka.Runner.Loop.{failures}
use cmocka.Tests.{word, start, file}

abbrev named : ℕ → TestFunction → CmUnitTest
named number function = record {
  name = some (codes "test");
  test_func = some function;
  setup_func = none;
  teardown_func = none;
  initial_state = number;
}

abbrev queueing : TestFunction
queueing = will_return (codes "open") file 4 none (word 3) (pos 1)

abbrev tests : List CmUnitTest
tests = named 0 (pure tt) ∷ named 1 queueing ∷ named 2 (skip file 5) ∷ []

abbrev status_of : CmUnitTest → CmUnitTestStatus
status_of test =
    if test.initial_state == 0 then passed else if test.initial_state == 1 then failed else skipped

returning-Ends : Ends passed (pure tt)
unfolding find_child
returning-Ends state g ready = (
  started state g,
  (
    record {
      returns = refl;
      running = refl;
      not_skipped = ready.not_skipped;
      results = tt;
      parameters = tt;
    },
    ((λ function. refl), (λ function parameter. refl), tt),
  ),
  refl,
  refl,
  ready.not_stopped,
)

skipping-Ends : Ends skipped (skip file 5)
skipping-Ends state g ready =
    let (g', e, up, stop, libc, blocks) = skip_jumps file 5 (started state g) refl in
    (g', (e, up), libc, blocks, stop ∙ ready.not_stopped)

cons≢nil : {A : Type 0} {x : A} {l : List A} → x ∷ l ≢ []
cons≢nil e = cc

queueing-Ends : Ends failed queueing
unfolding will_return find_child str_eq is_satisfied
queueing-Ends state g ready =
    let value : SymbolValue = record {
      name = none;
      location = set_source_location file 4;
      value = word 3;
    } in
    (
      record (started state g) {
        function_result_map = add_symbol_value 1 [] (codes "open", tt) value (pos 1);
      },
      inr (
        record {
          returns = refl;
          running = refl;
          not_skipped = ready.not_skipped;
          results =
              add_symbol_value-IsWellFormed {V = SymbolValue} value (pos 1) 1 [] (codes "open", tt)
                tt;
          parameters = tt;
        },
        λ (results, _, _). cons≢nil (results (codes "open")),
      ),
      refl,
      refl,
      ready.not_stopped,
    )

-- A fixture that does no more than answer.
answering :
    (rc : ℤ) (state : ℕ) (g : Global)
    → IsReady g
    → Completes (pure rc) rc state g g.allocated_blocks
unfolding find_child
answering rc state g ready = record {
  end = started state g;
  returns_in = record {
    returns = refl;
    running = refl;
    not_skipped = ready.not_skipped;
    results = tt;
    parameters = tt;
  };
  settled = ((λ function. refl), (λ function parameter. refl), tt);
  libc = refl;
  not_stopped = ready.not_stopped;
  allocated = refl;
}

answering-IsPaired : (rc : ℤ) → IsPaired (pure (pos 0)) (pure rc) rc
answering-IsPaired rc state g ready = (
  g.allocated_blocks,
  ready.distinct,
  answering (pos 0) state g ready,
  λ later h ready_h same.
      subst (Completes (pure rc) rc later h) same (answering rc later h ready_h),
)

plain :
    (status : CmUnitTestStatus) (number : ℕ) (function : TestFunction)
    → Ends status function
    → IsRegular status (named number function)
plain status number function ends = record {
  fixtures = inl (refl, refl);
  function = function;
  runs = refl;
  ends = ends;
}

-- A test with fixtures.
abbrev with_fixtures : CmUnitTest
with_fixtures = record (named 0 (pure tt)) {
  setup_func = some (pure (pos 0));
  teardown_func = some (pure (pos 0));
}

fixtures-IsRegular : IsRegular passed with_fixtures
fixtures-IsRegular = record {
  fixtures = inr (pure (pos 0), pure (pos 0), refl, refl, answering-IsPaired (pos 0));
  function = pure tt;
  runs = refl;
  ends = returning-Ends;
}

abbrev group : List CmUnitTest
group = with_fixtures ∷ tests

-- The teardown of the group reports an error.
run_group_tests-failures_example :
    (g' : Global) × (run_group_tests
        (codes "group")
        group
        128
        (some (pure (pos 0)))
        (some (pure (negsuc 0)))
        start
      ≡ ok (pos 1) g')
    × Same start g'
unfolding select_tests failures abort_requested IsDistinct int_of
run_group_tests-failures_example =
    run_group_tests-failures status_of (codes "group") group 128 (some (pure (pos 0)))
      (some (pure (negsuc 0))) start refl
      (record { not_skipped = refl; not_stopped = refl; no_abort = refl; distinct = tt })
      (λ state g ready.
        let (blocks, distinct, up, down) = answering-IsPaired (negsuc 0) state g ready in
        (blocks, distinct, up, λ later h ready_h same. (negsuc 0, down later h ready_h same)))
      (
        fixtures-IsRegular,
        (
          plain passed 0 (pure tt) returning-Ends,
          (
            plain failed 1 queueing queueing-Ends,
            (plain skipped 2 (skip file 5) skipping-Ends, tt),
          ),
        ),
      )
