-- ===== src/Mocks/Values.antt =====
-- The values of _will_return and _mock.
use cmocka.Prelude.{ℕ, ◌≡◌, refl, ◌≢◌, true, false, Option, List, []}
use cmocka.Prelude.{◌∷◌, CString, str_eq, str_eq_refl, arith, map}
use cmocka.Prelude.{◌∙◌, Bool-cases, inl, inr}
use cmocka.Prelude.Int.{ℤ, pos, eq_ℤ}
use cmocka.State.{Global, ListNode, SymbolValue, CMockaValueData}
use cmocka.State.Run.{Outcome, ok, NeverReturns}
use cmocka.Report.{cmocka_print_error, exit_test}
use cmocka.Report.Ends.{exit_test-NeverReturns, continue-NeverReturns, ended-NeverReturns}
use cmocka.Symbols.{Item, Got, found, missing, no_value}
use cmocka.Symbols.Queue.{queue, IsWellFormed, after_one}
use cmocka.Symbols.Get.{Answers, get_symbol_value-Answers}
use cmocka.Mocks.{mock, mock_got, mock_value, no_mock_value, is_mismatch}
use cmocka.Mocks.{report_no_value, report_mismatch, note_last_value}
use cmocka.Mocks.{print_last_location, report_missing}

-- The values that _mock will return for a function, in order.
abbrev pub returns : Global → CString → List (ListNode SymbolValue)
returns g function = queue 1 g.function_result_map (function, tt)

abbrev pub IsReady : Global → Type 0
IsReady g = IsWellFormed SymbolValue 1 g.function_result_map

module _ (function file : CString) (line : ℕ) (name : Option CString) where
  report_no_value-NeverReturns : (g : Global) → NeverReturns (report_no_value function file line g)
  unfolding report_no_value
  report_no_value-NeverReturns g = continue-NeverReturns (cmocka_print_error _ _ g) _ λ _ g₁.
      continue-NeverReturns
        (print_last_location g₁.last_mock_value_location
          "%s:%u: note: Previously returned mock value was declared here\n"
          "There were no previously returned mock values for this test.\n" g₁)
        (λ _. exit_test true) λ _ g₂. exit_test-NeverReturns g₂

  no_mock_value-NeverReturns : (g : Global) → NeverReturns (no_mock_value function file line g)
  unfolding no_mock_value
  no_mock_value-NeverReturns g =
      ended-NeverReturns (report_no_value function file line g) _ (report_no_value-NeverReturns g)

  report_mismatch-NeverReturns :
      (symbol : SymbolValue) (g : Global)
      → NeverReturns (report_mismatch function file line name symbol g)
  unfolding report_mismatch
  report_mismatch-NeverReturns symbol g = continue-NeverReturns (cmocka_print_error _ _ g) _ λ _ g₁.
      continue-NeverReturns (note_last_value g₁) (λ _. exit_test true)
        λ _ g₂. exit_test-NeverReturns g₂

  mock_value_mismatch :
      (symbol : SymbolValue) (g : Global)
      → is_mismatch name symbol.name ≡ true
      → NeverReturns (mock_value function file line name symbol g)
  unfolding mock_value
  mock_value_mismatch symbol g m = rw m (
      ended-NeverReturns (report_mismatch function file line name symbol g) _
        (report_mismatch-NeverReturns symbol g))

  mock_value_match :
      (symbol : SymbolValue) (g : Global)
      → is_mismatch name symbol.name ≡ false
      → mock_value function file line name symbol g
        ≡ ok symbol.value (record g { last_mock_value_location = symbol.location })
  unfolding mock_value
  mock_value_match symbol g m = rw m

  -- What _mock does, given the queue of its function and how the lookup went.
  abbrev pub Serves : List (ListNode SymbolValue) → Global → Outcome CMockaValueData → Type 0
  Serves [] g o = NeverReturns o
  Serves (node ∷ rest) g o =
      (node.refcount ≢ pos 0
        → is_mismatch name node.value.name ≡ false
        → (g' : Global) × (o ≡ ok node.value.value g')
          × (returns g' function ≡ after_one node.value node.refcount rest)
          × ((other : CString) → str_eq function other ≡ false → returns g' other ≡ returns g other)
          × IsReady g'
          × (g'.last_mock_value_location ≡ node.value.location))
      × (is_mismatch name node.value.name ≡ true → NeverReturns o)

  eq_zero_ne : (rc : ℤ) → rc ≢ pos 0 → eq_ℤ rc (pos 0) ≡ false
  eq_zero_ne rc ne = ground arith

  mock_got-Serves :
      (g : Global) (got : Got SymbolValue (List (Item SymbolValue 1)))
      → Answers 1 g.function_result_map (function, tt) got
      → Serves (returns g function) g (mock_got function file line name got g)
  unfolding mock_got
  mock_got-Serves g (found rc symbol map) (rest, q, others, h) = rw q (
    λ ne m. (
      record g { function_result_map = map; last_mock_value_location = symbol.location },
      rw (eq_zero_ne rc ne) (mock_value_match symbol (record g { function_result_map = map }) m),
      others (function, tt) ∙ rw str_eq_refl,
      λ other different. others (other, tt) ∙ rw different,
      h,
      refl,
    ),
    λ m. elim (Bool-cases (eq_ℤ rc (pos 0))) [
      | inl e ↦ rw e (no_mock_value-NeverReturns (record g { function_result_map = map }))
      | inr e ↦ rw e (mock_value_mismatch symbol (record g { function_result_map = map }) m)
    ],
  )
  mock_got-Serves g (missing symbol map) (q, same) = rw q (
      continue-NeverReturns (report_missing symbol (record g { function_result_map = map }))
        (λ _. no_mock_value function file line) λ _ g'. no_mock_value-NeverReturns g')
  mock_got-Serves g no_value a = absurd a

  -- On a well-formed map of results, _mock returns the value at the head of its function's queue,
  -- takes one use off it, notes its location and leaves the queues of other functions alone, when
  -- the count is not 0 and the names agree; it does not return if the queue is empty or the names
  -- do not agree.
  pub mock-Serves :
      (g : Global) → IsReady g → Serves (returns g function) g (mock function file line name g)
  unfolding mock
  mock-Serves g h =
      mock_got-Serves g _
        (get_symbol_value-Answers SymbolValue 0 g.function_result_map (function, tt) h)
