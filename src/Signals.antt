-- ===== src/Signals.antt =====
-- The signals that cmocka_run_one_test_or_fixture of src/cmocka.c catches while a test runs: the loops
-- over exception_signals, before and behind the test. What the system keeps for each signal is a function
-- from signals to handlers, and `signal` puts a handler there and answers the one before.
pub mod Restored
pub mod Windows
use cmocka.Prelude.{ℕ, Bool, true, false, List, [], ◌∷◌, if◌then◌else◌, ◌==◌, ◌||◌}

abbrev pub Handlers : Type 0 → Type 0
Handlers H = ℕ → H

module _ {H : Type 0} where
  abbrev pub set_handler : ℕ → H → Handlers H → Handlers H
  set_handler sig handler handlers s = if s == sig then handler else handlers s

  -- default_signal_functions, and the handlers behind the loop.
  unfoldable pub install : List ℕ → H → Handlers H → List H × Handlers H
  install [] exception_handler handlers = ([], handlers)
  install (sig ∷ signals) exception_handler handlers =
      let (defaults, installed) =
        install signals exception_handler (set_handler sig exception_handler handlers) in
      (handlers sig ∷ defaults, installed)

  unfoldable pub restore : List ℕ → List H → Handlers H → Handlers H
  restore [] defaults handlers = handlers
  restore (sig ∷ signals) [] handlers = handlers
  restore (sig ∷ signals) (default ∷ defaults) handlers =
      restore signals defaults (set_handler sig default handlers)

  -- A test, which may set handlers of its own, between the two loops.
  unfoldable pub around_test : List ℕ → H → (Handlers H → Handlers H) → Handlers H → Handlers H
  unfolding install restore
  around_test signals exception_handler test handlers =
      let (defaults, installed) = install signals exception_handler handlers in
      restore signals defaults (test installed)
