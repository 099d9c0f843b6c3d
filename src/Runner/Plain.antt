-- ===== src/Runner/Plain.antt =====
-- The function of one test, by what it does.
use cmocka.Prelude.{
  ℕ, ◌≡◌, ◌⊎◌, inl, inr, refl, sym, ◌∙◌, subst, true, false, some, Bool, if◌then◌else◌, ◌↔◌,
}
use cmocka.Prelude.Int.{pos}
use cmocka.State.{Global, SymbolValue, CheckParameterEvent}
use cmocka.State.Run.{Outcome, ok, jumped}
use cmocka.Report.{abort_requested}
use cmocka.Report.Steady.{Same}
use cmocka.Symbols.Queue.{IsWellFormed}
use cmocka.Mocks.Settled.{IsSettled, has_leftover_values-ok, without_satisfied}
use cmocka.Alloc.CheckPoints.{IsDistinct}
use cmocka.Runner.{
  CmUnitTestState, CmUnitTestStatus, TestFunction, not_started, error, passed, failed, skipped,
  run_test,
}
use cmocka.Runner.Single.{started, cleared}
use cmocka.Runner.Verdict.{EndsInOrder, run_test-left}
use cmocka.Runner.Jumped.{run_test-failed}

-- Between tests: no flag is up, CMOCKA_TEST_ABORT is not set to 1, and no two blocks have one address.
pub record IsReady (g : Global) : Type 0 where
  pub not_skipped : g.skip_test ≡ false
  pub not_stopped : g.stop_test ≡ false
  pub no_abort : abort_requested g.libc.test_abort ≡ false
  pub distinct : IsDistinct g.allocated_blocks

pub IsReady-Same : (g g' : Global) → IsReady g → Same g g' → IsReady g'
IsReady-Same g g' r s = record {
  not_skipped = s.skip_test ∙ r.not_skipped;
  not_stopped = s.stop_test ∙ r.not_stopped;
  no_abort = rw s.libc r.no_abort;
  distinct = subst IsDistinct (sym s.allocated_blocks) r.distinct;
}

-- The function returns in `g₁`, with the test running and well-formed maps.
pub record ReturnsIn {A : Type 0} (o : Outcome A) (a : A) (g₁ : Global) : Type 0 where
  pub returns : o ≡ ok a g₁
  pub running : g₁.running_test ≡ true
  pub not_skipped : g₁.skip_test ≡ false
  pub results : IsWellFormed SymbolValue 1 g₁.function_result_map
  pub parameters : IsWellFormed CheckParameterEvent 2 g₁.function_parameter_map

-- What earns a test its status: it passes by returning with nothing left over, it fails by a jump or by
-- returning with something left over, and it is skipped by a jump with the skip flag up.
abbrev pub Earns : CmUnitTestStatus → Outcome (Unit {0}) → Global → Type 0
Earns passed o g₁ = ReturnsIn o tt g₁ × IsSettled g₁
Earns failed o g₁ =
    ((o ≡ jumped g₁) × (g₁.skip_test ≡ false)) ⊎ (ReturnsIn o tt g₁ × (¬ IsSettled g₁))
Earns skipped o g₁ = (o ≡ jumped g₁) × (g₁.skip_test ≡ true)
Earns _ o g₁ = ⊥

-- From every state between tests the function earns that status; it keeps the blocks and does not raise
-- the stop flag.
abbrev pub Ends : CmUnitTestStatus → TestFunction → Type 0
Ends status f =
    (state : ℕ) (g : Global)
    → IsReady g
    → (g₁ : Global) × Earns status (f (started state g)) g₁
      × (g₁.libc ≡ g.libc)
      × (g₁.allocated_blocks ≡ g.allocated_blocks)
      × (g₁.stop_test ≡ false)

module _ (t : CmUnitTestState) (f : TestFunction) (g g₁ : Global) (has : t.test.test_func ≡ some f)
    (ready : IsReady g) (libc : g₁.libc ≡ g.libc)
    (blocks : g₁.allocated_blocks ≡ g.allocated_blocks) (stop : g₁.stop_test ≡ false) where
  by_verdict :
      (left : Bool) (status : CmUnitTestStatus)
      → (left ≡ false) ↔ IsSettled g₁
      → ((status ≡ passed) × IsSettled g₁) ⊎ ((status ≡ failed) × (¬ IsSettled g₁))
      → (if left then failed else passed) ≡ status
  by_verdict true status iff (inl (e, settled)) = cc (iff.1 settled)
  by_verdict false status iff (inl (e, settled)) = sym e
  by_verdict true status iff (inr (e, unsettled)) = sym e
  by_verdict false status iff (inr (e, unsettled)) = absurd (unsettled (iff.0 refl))

  -- The test returns with that status.
  abbrev pub EndsAs : CmUnitTestStatus → Type 0
  EndsAs status =
      (state : ℕ) × (g' : Global) × (run_test (pos 0) t g
        ≡ ok (pos 0, record t { state = state; status = status }) g')
      × Same g g'

  returned-EndsAs :
      (status : CmUnitTestStatus)
      → ReturnsIn (f (started t.state g)) tt g₁
      → ((status ≡ passed) × IsSettled g₁) ⊎ ((status ≡ failed) × (¬ IsSettled g₁))
      → EndsAs status
  returned-EndsAs status r verdict =
      let order : EndsInOrder g g₁ = record {
        running = r.running;
        not_stopped = stop;
        not_skipped = r.not_skipped;
        no_abort = rw libc ready.no_abort;
        results = r.results;
        parameters = r.parameters;
        distinct = ready.distinct;
        no_leak = blocks;
      } in
      let (left, message, lines, e, iff) = has_leftover_values-ok g₁ r.results r.parameters in
      subst EndsAs (by_verdict left status iff verdict) (
        g₁.state_cell,
        cleared (without_satisfied g₁ message lines),
        run_test-left t f g g₁ order left message lines has r.returns e,
        record {
          libc = libc;
          skip_test = r.not_skipped ∙ sym ready.not_skipped;
          stop_test = stop ∙ sym ready.not_stopped;
          allocated_blocks = blocks;
        },
      )

  jumped-EndsAs :
      (skip : Bool)
      → f (started t.state g) ≡ jumped g₁
      → g₁.skip_test ≡ skip
      → EndsAs (if skip then skipped else failed)
  jumped-EndsAs skip run e =
      let (g', ran, unskipped, unstopped, _, same_libc, same_blocks, _) =
        run_test-failed t f g g₁ skip has run stop e in
      (
        g₁.state_cell,
        g',
        ran,
        record {
          libc = same_libc ∙ libc;
          skip_test = unskipped ∙ sym ready.not_skipped;
          stop_test = unstopped ∙ sym ready.not_stopped;
          allocated_blocks = same_blocks ∙ blocks;
        },
      )

  pub earned-EndsAs :
      (status : CmUnitTestStatus) → Earns status (f (started t.state g)) g₁ → EndsAs status
  earned-EndsAs passed (r, settled) = returned-EndsAs passed r (inl (refl, settled))
  earned-EndsAs failed (inl (run, skip)) = jumped-EndsAs false run skip
  earned-EndsAs failed (inr (r, unsettled)) = returned-EndsAs failed r (inr (refl, unsettled))
  earned-EndsAs not_started impossible = absurd impossible
  earned-EndsAs error impossible = absurd impossible
  earned-EndsAs skipped (run, skip) = jumped-EndsAs true run skip
