-- ===== src/Contracts/Expected.antt =====
-- When expect_assert_failure returns, and what it leaves behind where it does not.
use cmocka.Prelude.{
  ℕ, ◌≡◌, ◌≢◌, refl, ap, ◌∙◌, true, false, none, some, sym, subst, ◌↔◌, [], ◌∷◌, ◌++◌, CString,
  arith,
}
use cmocka.Prelude.Int.{pos}
use cmocka.State.{Global, stdout, str}
use cmocka.State.Run.{
  M, Outcome, ok, jumped, assert_jumped, exited, aborted, undefined, NeverReturns, ◌>>◌, continue,
}
use cmocka.Report.{
  print_message, print_error, print_failure, fail, mock_assert, exit_test, exit_failure,
}
use cmocka.Report.Quiet.{
  IsQuiet, >>-IsQuiet, when-IsQuiet, cmocka_print_error-IsQuiet, after_messages,
}
use cmocka.Report.Steady.{get_output-Answers, print_error-IsSteady}
use cmocka.Runner.Print.{text_of}
use cmocka.Mocks.{initialize_testing}
use cmocka.Runner.{
  CmUnitTestState, run_test, run_setup, run_one_tests, run_one_test_or_fixture, protected_run,
  run_function,
}
use cmocka.Runner.Single.{started}
use cmocka.Runner.Jumped.{run_test-failed, status_after}
use cmocka.Contracts.{
  setjmp_expect_assert_env, set_expecting_assert, when_returned, when_asserted,
  expect_assert_failure,
}

ok-inj : {g h : Global} → ◌≡◌ {A = Outcome (Unit {0})} (ok tt g) (ok tt h) → g ≡ h
ok-inj e = cc

-- The state in which the call is made.
abbrev pub armed : Global → Global
armed g = set_expecting_assert true g

-- The end of a test: a jump to the runner, or the end of the process.
abbrev IsEnd : Outcome (Unit {0}) → Type 0
IsEnd (jumped g) = Unit
IsEnd (exited g) = Unit
IsEnd (aborted g) = Unit
IsEnd _ = ⊥

exit-IsEnd : (g : Global) → IsEnd ((exit_test true >> exit_failure) g)
unfolding exit_test
exit-IsEnd g = ground arith

print_failure-IsQuiet :
    (output : ℕ) (file : CString) (line : ℕ) → IsQuiet (print_failure output file line)
unfolding print_failure
print_failure-IsQuiet output file line =
    >>-IsQuiet _ _ (when-IsQuiet _ _ (cmocka_print_error-IsQuiet _ _))
      (when-IsQuiet _ _ (cmocka_print_error-IsQuiet _ _))

fail-IsEnd : (file : CString) (line : ℕ) (g : Global) → IsEnd (fail file line g)
unfolding fail
fail-IsEnd file line g =
    let (output, g₁, e, _) = get_output-Answers g in
    let (message, lines, e₂) = (print_failure-IsQuiet output file line).prints g₁ in
    rw e (rw e₂ (exit-IsEnd (after_messages g₁ message lines)))

print_fail-IsEnd :
    (text file : CString) (line : ℕ) (g : Global)
    → IsEnd ((print_error "Expected assert in %s\n" (str text ∷ []) >> fail file line) g)
print_fail-IsEnd text file line g =
    let (g', e, _) = (print_error-IsSteady "Expected assert in %s\n" (str text ∷ [])).runs g in
    rw e (fail-IsEnd file line g')

returned-IsEnd :
    (text file : CString) (line : ℕ) (g : Global) → IsEnd (when_returned text file line g)
unfolding when_returned
returned-IsEnd text file line g = print_fail-IsEnd text file line (set_expecting_assert false g)

end-NeverReturns :
    (o : Outcome (Unit {0})) (handler : M (Unit {0}))
    → IsEnd o
    → NeverReturns (setjmp_expect_assert_env o handler)
end-NeverReturns (ok a g) handler h = h
end-NeverReturns (jumped g) handler h = tt
end-NeverReturns (assert_jumped g) handler h = absurd h
end-NeverReturns (exited g) handler h = tt
end-NeverReturns (aborted g) handler h = tt
end-NeverReturns undefined handler h = tt

-- Behind an expected assertion: the flag is down, and a line was printed that names it.
abbrev pub after_assertion : Global → Global
after_assertion g₁ = record g₁ {
  expecting_assert = false;
  printed =
      g₁.printed
      ++ (
        stdout,
        g₁.libc.format "Expected assertion %s occurred\n"
            (str (text_of g₁.last_failed_assert) ∷ []),
      )
        ∷ [];
}

when_asserted-ok : (g₁ : Global) → when_asserted g₁ ≡ ok tt (after_assertion g₁)
unfolding when_asserted print_message
when_asserted-ok g₁ = refl

module _ (function_call : M (Unit {0})) (text file : CString) (line : ℕ) (g : Global) where
  -- The call fails an assertion, and `g'` is left behind it.
  abbrev pub IsAsserted : Global → Type 0
  IsAsserted g' =
      (g₁ : Global) × (function_call (armed g) ≡ assert_jumped g₁) × (g' ≡ after_assertion g₁)

  by_outcome :
      (o : Outcome (Unit {0}))
      → function_call (armed g) ≡ o
      → expect_assert_failure function_call text file line g
        ≡ setjmp_expect_assert_env (continue o (λ _. when_returned text file line)) when_asserted
  unfolding expect_assert_failure
  by_outcome o e = rw e refl

  never_iff :
      (o : Outcome (Unit {0})) (g' : Global)
      → function_call (armed g) ≡ o
      → NeverReturns
          (setjmp_expect_assert_env (continue o (λ _. when_returned text file line)) when_asserted)
      → ((g₁ : Global) → o ≢ assert_jumped g₁)
      → (expect_assert_failure function_call text file line g ≡ ok tt g') ↔ IsAsserted g'
  never_iff o g' e never other = (
    λ run. absurd (subst NeverReturns (sym (by_outcome o e) ∙ run) never),
    λ (g₂, failed, _). absurd (other g₂ (sym e ∙ failed)),
  )

  pub returned_call :
      (g₁ : Global)
      → function_call (armed g) ≡ ok tt g₁
      → NeverReturns (expect_assert_failure function_call text file line g)
  returned_call g₁ e = subst NeverReturns (sym (by_outcome _ e)) (
      end-NeverReturns (when_returned text file line g₁) when_asserted
        (returned-IsEnd text file line g₁))

  jump_iff :
      (g₁ g' : Global)
      → function_call (armed g) ≡ assert_jumped g₁
      → (expect_assert_failure function_call text file line g ≡ ok tt g') ↔ IsAsserted g'
  jump_iff g₁ g' e = (
    λ run. (g₁, e, sym (ok-inj (sym (by_outcome _ e ∙ when_asserted-ok g₁) ∙ run))),
    λ (g₂, failed, same). by_outcome _ failed ∙ when_asserted-ok g₂ ∙ ap (λ h. ok tt h) (sym same),
  )

  outcome_iff :
      (o : Outcome (Unit {0})) (g' : Global)
      → function_call (armed g) ≡ o
      → (expect_assert_failure function_call text file line g ≡ ok tt g') ↔ IsAsserted g'
  outcome_iff (ok tt g₁) g' e =
      never_iff (ok tt g₁) g' e
        (end-NeverReturns (when_returned text file line g₁) when_asserted
          (returned-IsEnd text file line g₁))
        (λ g₂ k. cc)
  outcome_iff (jumped g₁) g' e = never_iff (jumped g₁) g' e tt (λ g₂ k. cc)
  outcome_iff (assert_jumped g₁) g' e = jump_iff g₁ g' e
  outcome_iff (exited g₁) g' e = never_iff (exited g₁) g' e tt (λ g₂ k. cc)
  outcome_iff (aborted g₁) g' e = never_iff (aborted g₁) g' e tt (λ g₂ k. cc)
  outcome_iff undefined g' e = never_iff undefined g' e tt (λ g₂ k. cc)

  -- expect_assert_failure returns in a state exactly where its call, made with the flag up, fails
  -- an expected assertion and that state is the one at the jump with the flag taken down and one
  -- line printed behind the others, which names the assertion; so it does not return where its call
  -- returns or ends in any other way.
  pub expect_assert_failure_iff :
      (g' : Global)
      → (expect_assert_failure function_call text file line g ≡ ok tt g') ↔ IsAsserted g'
  expect_assert_failure_iff g' = outcome_iff (function_call (armed g)) g' refl

  -- A call that ends the test passes its jump on.
  call_jumps :
      (g₁ : Global)
      → function_call (armed g) ≡ jumped g₁
      → expect_assert_failure function_call text file line g ≡ jumped g₁
  unfolding expect_assert_failure
  call_jumps g₁ e = rw e refl

-- A test without a setup whose function fails an assertion outside of expect_assert_failure, run where
-- the flag is up: the jump leaves the runner.
stray_assertion :
    (next : CmUnitTestState) (expression at_file : CString) (at_line : ℕ) (g : Global)
    → next.test.setup_func ≡ none
    → next.test.test_func ≡ some (mock_assert false expression at_file at_line)
    → g.expecting_assert ≡ true
    → run_one_tests next g
      ≡ assert_jumped (record (started next.state g) { last_failed_assert = some expression })
unfolding run_one_tests run_setup run_test run_one_test_or_fixture initialize_testing protected_run
    run_function mock_assert
stray_assertion next expression at_file at_line g unset has up = rw (unset, has, up) refl

-- When the call inside an expect_assert_failure jumps out of the test, with the flag up that an
-- assertion is expected and without stop(), the run of the test returns; the run of a next test
-- without a setup, whose function fails an assertion outside of every expect_assert_failure, then
-- does not return but ends in the jump to the buffer of the earlier expect_assert_failure.
pub expecting_assert_leaks :
    (t next : CmUnitTestState) (function_call : M (Unit {0})) (text file : CString) (line : ℕ)
    (expression at_file : CString) (at_line : ℕ) (g g₁ : Global)
    → t.test.test_func ≡ some (expect_assert_failure function_call text file line)
    → function_call (armed (started t.state g)) ≡ jumped g₁
    → g₁.expecting_assert ≡ true
    → g₁.stop_test ≡ false
    → next.test.setup_func ≡ none
    → next.test.test_func ≡ some (mock_assert false expression at_file at_line)
    → (t' : CmUnitTestState) × (g' : Global) × (run_test (pos 0) t g ≡ ok (pos 0, t') g')
      × (run_one_tests next g'
          ≡ assert_jumped (record (started next.state g') { last_failed_assert = some expression }))
expecting_assert_leaks t next function_call text file line expression at_file at_line g g₁ has run
      up stop unset next_has =
    let call = expect_assert_failure function_call text file line in
    let jumps = call_jumps function_call text file line (started t.state g) g₁ run in
    let (g', ran, _, _, _, _, _, same) =
      run_test-failed t call g g₁ g₁.skip_test has jumps stop refl in
    (
      status_after t call g g₁ g₁.skip_test,
      g',
      ran,
      stray_assertion next expression at_file at_line g' unset next_has (same ∙ up),
    )
