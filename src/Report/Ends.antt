-- ===== src/Report/Ends.antt =====
-- How a test ends: the functions that do not return, and where they go while a test runs.
use cmocka.Prelude.{ℕ, ◌≡◌, refl, Bool, true, false, some, CString, String}
use cmocka.Prelude.{List, [], ◌∷◌, arith}
use cmocka.State.{Global, Arg, str}
use cmocka.State.Run.{M, Outcome, ok, assert_jumped, continue, NeverReturns}
use cmocka.State.Run.{◌>>◌}
use cmocka.Report.{exit_test, fail, skip, stop, mock_assert, cmocka_print_error}
use cmocka.Report.{print_failure, exit_failure}
use cmocka.Report.Output.{cm_get_output}

pub exit_test-NeverReturns : (g : Global) → NeverReturns (exit_test true g)
unfolding exit_test
exit_test-NeverReturns g = ground arith

pub continue-NeverReturns {ℓ κ} :
    {A : Type ℓ} {B : Type κ} (o : Outcome A) (f : A → M B)
    → ((a : A) (g : Global) → NeverReturns (f a g))
    → NeverReturns (continue o f)
continue-NeverReturns (ok a g) f h = h a g
continue-NeverReturns _ f h = tt

pub ended-NeverReturns {ℓ κ} :
    {A : Type ℓ} {B : Type κ} (o : Outcome A) (f : A → M B)
    → NeverReturns o
    → NeverReturns (continue o f)
ended-NeverReturns (ok a g) f h = absurd h
ended-NeverReturns _ f h = tt

-- `exit_test(true)` and what stands behind it.
exit-NeverReturns : (g : Global) → NeverReturns ((exit_test true >> exit_failure) g)
exit-NeverReturns g = ended-NeverReturns (exit_test true g) _ (exit_test-NeverReturns g)

-- _fail does not return to its caller, in any state.
pub fail-NeverReturns : (file : CString) (line : ℕ) (g : Global) → NeverReturns (fail file line g)
unfolding fail
fail-NeverReturns file line g = continue-NeverReturns (cm_get_output g) _ λ output g₁.
    continue-NeverReturns (print_failure output file line g₁) (λ _. exit_test true >> exit_failure)
      λ _ g₂. exit-NeverReturns g₂

pub skip-NeverReturns : (file : CString) (line : ℕ) (g : Global) → NeverReturns (skip file line g)
unfolding skip
skip-NeverReturns file line g =
    continue-NeverReturns (cmocka_print_error _ _ g) _
      λ _ g₁. exit-NeverReturns (record g₁ { skip_test = true })

pub stop-NeverReturns : (g : Global) → NeverReturns (stop g)
unfolding stop
stop-NeverReturns g = exit-NeverReturns (record g { stop_test = true })

-- Printing and then failing.
pub print_fail-NeverReturns :
    (format : String) (args : List Arg) (file : CString) (line : ℕ) (g : Global)
    → NeverReturns ((cmocka_print_error format args >> fail file line) g)
print_fail-NeverReturns format args file line g =
    continue-NeverReturns (cmocka_print_error format args g) _
      λ _ g'. fail-NeverReturns file line g'

-- mock_assert returns and changes nothing if its result holds; if not, it records the expression
-- and jumps where an assertion failure is expected, and otherwise does not return.
pub mock_assert_cases :
    (result : Bool) (expression file : CString) (line : ℕ) (g : Global)
    → (result ≡ true → mock_assert result expression file line g ≡ ok tt g)
      × (result ≡ false
          → g.expecting_assert ≡ true
          → mock_assert result expression file line g
            ≡ assert_jumped (record g { last_failed_assert = some expression }))
      × (result ≡ false
          → g.expecting_assert ≡ false
          → NeverReturns (mock_assert result expression file line g))
unfolding mock_assert
mock_assert_cases true expression file line g = (λ _. refl, λ e. cc, λ e. cc)
mock_assert_cases false expression file line g = (
  λ e. cc,
  λ _ e. ground arith,
  λ _ e. ground (arith, print_fail-NeverReturns "ASSERT: %s\n" (str expression ∷ []) file line g),
)
