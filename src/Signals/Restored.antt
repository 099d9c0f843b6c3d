-- ===== src/Signals/Restored.antt =====
-- The handlers behind a test are those from before it.
use cmocka.Prelude.{
  ℕ, ◌≡◌, refl, Bool, true, false, List, [], ◌∷◌, ◌==◌, ◌||◌, arith, ap, Bool-cases, inl, inr,
}
use cmocka.Signals.{Handlers, set_handler, install, restore, around_test}

abbrev pub is_caught : ℕ → List ℕ → Bool
is_caught s [] = false
is_caught s (sig ∷ signals) = s == sig || is_caught s signals

-- No signal stands in the list twice.
abbrev pub IsDistinct : List ℕ → Type 0
IsDistinct [] = Unit
IsDistinct (sig ∷ signals) = (is_caught sig signals ≡ false) × IsDistinct signals

module _ {H : Type 0} (exception_handler : H) where
  installed_cases :
      (signals : List ℕ) (handlers : Handlers H) (s : ℕ)
      → (is_caught s signals ≡ true
          → (install signals exception_handler handlers).1 s ≡ exception_handler)
        × (is_caught s signals ≡ false
            → (install signals exception_handler handlers).1 s ≡ handlers s)
  unfolding install
  installed_cases [] handlers s = ((λ e. cc), (λ e. refl))
  installed_cases (sig ∷ signals) handlers s =
      let (caught, others) =
        installed_cases signals (set_handler sig exception_handler handlers) s in
      elim (Bool-cases (is_caught s signals)) [
        | inl e ↦ ((λ _. caught e), (λ clear. ground arith))
        | inr e ↦ ((λ hit. ground (arith, others e)), (λ clear. ground (arith, others e)))
      ]

  -- With other handlers from a test in place of those that were installed.
  restored_cases :
      (signals : List ℕ) (handlers after : Handlers H) (s : ℕ)
      → IsDistinct signals
      → (is_caught s signals ≡ true
          → restore signals (install signals exception_handler handlers).0 after s ≡ handlers s)
        × (is_caught s signals ≡ false
            → restore signals (install signals exception_handler handlers).0 after s ≡ after s)
  unfolding install restore
  restored_cases [] handlers after s distinct = ((λ e. cc), (λ e. refl))
  restored_cases (sig ∷ signals) handlers after s (fresh, distinct) =
      let (caught, others) =
        restored_cases signals (set_handler sig exception_handler handlers)
          (set_handler sig (handlers sig) after) s distinct in
      elim (Bool-cases (s == sig)) [
        | inl same ↦
            let here : s ≡ sig = ground arith in
            let clear : is_caught s signals ≡ false = rw here fresh in
            ((λ hit. ground (arith, others clear, ap handlers here)), (λ none_hit. ground arith))
        | inr other ↦ ((λ hit. ground (arith, caught)), (λ none_hit. ground (arith, others)))
      ]

-- For a list of distinct signals, while a test runs each of them has the exception handler and
-- every other signal the handler from before; behind the test, whatever handlers it has set, each
-- of them has the handler from before the test again, and every other signal what the test has
-- left.
pub signals-restored :
    {H : Type 0} (exception_handler : H) (signals : List ℕ) (handlers : Handlers H)
    (test : Handlers H → Handlers H) (s : ℕ)
    → IsDistinct signals
    → (is_caught s signals ≡ true
        → ((install signals exception_handler handlers).1 s ≡ exception_handler)
          × (around_test signals exception_handler test handlers s ≡ handlers s))
      × (is_caught s signals ≡ false
          → ((install signals exception_handler handlers).1 s ≡ handlers s)
            × (around_test signals exception_handler test handlers s
                ≡ test (install signals exception_handler handlers).1 s))
unfolding around_test
signals-restored exception_handler signals handlers test s distinct =
    let (caught, others) = installed_cases exception_handler signals handlers s in
    let (back, kept) =
      restored_cases exception_handler signals handlers
        (test (install signals exception_handler handlers).1) s distinct in
    ((λ e. (caught e, back e)), (λ e. (others e, kept e)))
