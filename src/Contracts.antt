-- ===== src/Contracts.antt =====
-- Assertions that a test expects to fail: expect_assert_failure of include/cmocka.h around mock_assert of
-- src/cmocka.c.
pub mod Expected
use cmocka.Prelude.{ℕ, Bool, true, false, Option, none, some, List, [], ◌∷◌, CString}
use cmocka.State.{Global, str}
use cmocka.State.Run.{
  M, Outcome, ok, jumped, assert_jumped, exited, aborted, undefined, pure, ◌>>=◌, ◌>>◌, modify,
  gets,
}
use cmocka.Report.{print_message, print_error, fail}
use cmocka.Runner.Print.{text_of}

-- `if (setjmp(global_expect_assert_env) != 0) { handler } else { body }`
abbrev pub setjmp_expect_assert_env {ℓ} : {A : Type ℓ} → Outcome A → M A → Outcome A
setjmp_expect_assert_env (assert_jumped g) handler = handler g
setjmp_expect_assert_env outcome handler = outcome

abbrev pub set_expecting_assert : Bool → Global → Global
set_expecting_assert expecting g = record g { expecting_assert = expecting }

-- The branch behind a call that returned, and the one that the `longjmp` of mock_assert comes back to;
-- `text` is the call as it is written.
unfoldable pub when_returned : CString → CString → ℕ → M (Unit {0})
unfolding print_error fail
when_returned text file line = do
  modify (set_expecting_assert false)
  print_error "Expected assert in %s\n" (str text ∷ [])
  fail file line

unfoldable pub when_asserted : M (Unit {0})
unfolding print_message
when_asserted = do
  g ← gets (λ g. g)
  print_message "Expected assertion %s occurred\n" (str (text_of g.last_failed_assert) ∷ [])
  modify (set_expecting_assert false)

unfoldable pub expect_assert_failure : M (Unit {0}) → CString → CString → ℕ → M (Unit {0})
unfolding when_returned when_asserted
expect_assert_failure function_call text file line = do
  modify (set_expecting_assert true)
  λ g. setjmp_expect_assert_env ((function_call >> when_returned text file line) g) when_asserted
