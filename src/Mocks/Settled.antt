-- ===== src/Mocks/Settled.antt =====
-- What has_leftover_values answers at the end of a test.
use cmocka.Prelude.{
  ℕ, suc, Option, Bool, true, false, not, ◌||◌, ◌==◌, List, [], ◌∷◌, ◌≡◌, refl, ◌↔◌, CString,
  String, length,
}
use cmocka.Prelude.{arith, Bool-cases, inl, inr, All, sym, ◌∙◌}
use cmocka.Prelude.Int.{negsuc, ◌≤ℤ◌}
use cmocka.State.{
  Global, Stream, SourceLocation, ListNode, SymbolValue, CheckParameterEvent, FuncOrderingValue,
}
use cmocka.State.Run.{ok}
use cmocka.Report.Quiet.{
  after_messages, IsQuiet, pure-IsQuiet, cmocka_print_error-IsQuiet, when-IsQuiet, >>-IsQuiet,
}
use cmocka.Symbols.{
  Item, Names, is_satisfied, remove_always_return_values, remove_always_return_values_from_list,
}
use cmocka.Symbols.{check_for_leftover_values}
use cmocka.Symbols.Queue.{queue, IsWellFormed}
use cmocka.Symbols.Cleanup.{
  settled, check_for_leftover_values_iff, queue-remove_always_return_values,
}
use cmocka.Symbols.Cleanup.{remove_always_return_values-IsWellFormed}
use cmocka.Mocks.Leftover.{
  report_items, report_values, report_parameters, report_calls, leftover_results,
  leftover_parameters, leftover_calls, has_leftover_values, symbol_location, event_location,
}

module _ {V : Type 0} (location : V → SourceLocation) where
  report_items-IsQuiet : (l : List (ListNode V)) → IsQuiet (report_items location l)
  unfolding report_items
  report_items-IsQuiet [] = pure-IsQuiet
  report_items-IsQuiet (node ∷ rest) =
      >>-IsQuiet _ _ (cmocka_print_error-IsQuiet _ _) (report_items-IsQuiet rest)

  report_values-IsQuiet :
      (format : String) (map : List (Item V 1)) → IsQuiet (report_values location format map)
  unfolding report_values
  report_values-IsQuiet format [] = pure-IsQuiet
  report_values-IsQuiet format (m ∷ map) =
      >>-IsQuiet _ _
        (when-IsQuiet _ _
          (>>-IsQuiet _ _ (cmocka_print_error-IsQuiet _ _) (report_items-IsQuiet _)))
        (report_values-IsQuiet format map)

  report_parameters-IsQuiet :
      (format : String) (map : List (Item V 2)) → IsQuiet (report_parameters location format map)
  unfolding report_parameters
  report_parameters-IsQuiet format [] = pure-IsQuiet
  report_parameters-IsQuiet format (m ∷ map) =
      >>-IsQuiet _ _
        (when-IsQuiet _ _ (
          >>-IsQuiet _ _ (cmocka_print_error-IsQuiet _ _)
            (report_values-IsQuiet format m.symbol_values_list_head)))
        (report_parameters-IsQuiet format map)

report_calls-IsQuiet : (l : List (ListNode FuncOrderingValue)) → IsQuiet (report_calls l)
unfolding report_calls
report_calls-IsQuiet [] = pure-IsQuiet
report_calls-IsQuiet (node ∷ rest) =
    >>-IsQuiet _ _ (cmocka_print_error-IsQuiet _ _)
      (>>-IsQuiet _ _ (cmocka_print_error-IsQuiet _ _) (report_calls-IsQuiet rest))

-- Every call that is still expected may be left out.
pub no_calls_left :
    (l : List (ListNode FuncOrderingValue))
    → ((length (remove_always_return_values_from_list l) == 0) ≡ true)
      ↔ All (λ node. node.refcount ≤ℤ negsuc 1) l
unfolding remove_always_return_values_from_list is_satisfied
no_calls_left [] = (λ e. tt, λ a. refl)
no_calls_left (node ∷ rest) =
    let ih = no_calls_left rest in
    elim (Bool-cases (is_satisfied node.refcount)) [
      | inl e ↦ ((λ l. ground (arith, ih)), (λ a. ground (arith, ih)))
      | inr e ↦ ((λ l. ground arith), (λ a. ground arith))
    ]

abbrev settled_results : Global → List (Item SymbolValue 1)
settled_results g = remove_always_return_values SymbolValue 1 g.function_result_map

abbrev settled_parameters : Global → List (Item CheckParameterEvent 2)
settled_parameters g = remove_always_return_values CheckParameterEvent 2 g.function_parameter_map

-- Nothing that a test has set up is left over.
abbrev pub IsSettled : Global → Type 0
IsSettled g =
    ((function : CString) → settled (queue 1 g.function_result_map (function, tt)) ≡ [])
    × ((function parameter : CString)
        → settled (queue 2 g.function_parameter_map (function, (parameter, tt))) ≡ [])
    × All (λ node. node.refcount ≤ℤ negsuc 1) g.call_ordering

nothing_left :
    (V : Type 0) (n : ℕ) (map : List (Item V (suc n)))
    → IsWellFormed V (suc n) map
    → ((check_for_leftover_values (remove_always_return_values V (suc n) map) == 0) ≡ true)
      ↔ ((names : Names (suc n)) → settled (queue (suc n) map names) ≡ [])
nothing_left V n map h =
    let (only_if, back) =
      check_for_leftover_values_iff V n (remove_always_return_values V (suc n) map)
        (remove_always_return_values-IsWellFormed V (suc n) map h) in
    let queues =
      λ (names : Names (suc n)). queue-remove_always_return_values V (suc n) map names h in
    ((λ e names. sym (queues names) ∙ only_if e names), (λ q. back λ names. queues names ∙ q names))

all_three :
    {P Q R : Type 0} (a b c : Bool)
    → (a ≡ true) ↔ P
    → (b ≡ true) ↔ Q
    → (c ≡ true) ↔ R
    → ((not a || not b || not c) ≡ false) ↔ (P × Q × R)
all_three true true true (p, _) (q, _) (r, _) = ((λ e. (p refl, q refl, r refl)), (λ _. refl))
all_three false b c (_, p) _ _ = ((λ e. cc), (λ (x, _, _). cc (p x)))
all_three true false c _ (_, q) _ = ((λ e. cc), (λ (_, x, _). cc (q x)))
all_three true true false _ _ (_, r) = ((λ e. cc), (λ (_, _, x). cc (r x)))

-- One part of has_leftover_values, from a state whose other maps are those of `g`.
leftover_results_lem :
    (g : Global)
    → (message : Option CString) × (lines : List (Stream × CString)) × (leftover_results g
        ≡ ok
            (not (check_for_leftover_values (settled_results g) == 0))
            (after_messages (record g { function_result_map = settled_results g }) message lines))
unfolding leftover_results
leftover_results_lem g =
    let (m, p, e) =
      (report_values-IsQuiet (symbol_location g.libc) "Has remaining non-returned values: %s\n"
          (settled_results g)).prints
        (record g { function_result_map = settled_results g }) in
    (m, p, rw e)

leftover_parameters_lem :
    (g : Global)
    → (message : Option CString) × (lines : List (Stream × CString)) × (leftover_parameters g
        ≡ ok (not (check_for_leftover_values (settled_parameters g) == 0)) (
            after_messages
              (record g { function_parameter_map = settled_parameters g })
              message
              lines))
unfolding leftover_parameters
leftover_parameters_lem g =
    let (m, p, e) =
      (report_parameters-IsQuiet event_location
          "Parameter still has values that haven't been checked: %s\n"
          (settled_parameters g)).prints
        (record g { function_parameter_map = settled_parameters g }) in
    (m, p, rw e)

leftover_calls_lem :
    (g : Global)
    → (message : Option CString) × (lines : List (Stream × CString)) × (leftover_calls g
        ≡ ok (not (length (remove_always_return_values_from_list g.call_ordering) == 0)) (
            after_messages
              (record g { call_ordering = remove_always_return_values_from_list g.call_ordering })
              message
              lines))
unfolding leftover_calls
leftover_calls_lem g =
    let (m, p, e) =
      (report_calls-IsQuiet (remove_always_return_values_from_list g.call_ordering)).prints
        (record g { call_ordering = remove_always_return_values_from_list g.call_ordering }) in
    (m, p, rw e)

-- What has_leftover_values leaves of a state, with the messages that it has printed.
abbrev pub without_satisfied : Global → Option CString → List (Stream × CString) → Global
without_satisfied g message lines = record g {
  function_result_map = settled_results g;
  function_parameter_map = settled_parameters g;
  call_ordering = remove_always_return_values_from_list g.call_ordering;
  error_message = message;
  printed = lines;
}

pub has_leftover_values-ok :
    (g : Global)
    → IsWellFormed SymbolValue 1 g.function_result_map
    → IsWellFormed CheckParameterEvent 2 g.function_parameter_map
    → (left : Bool) × (message : Option CString) × (lines : List (Stream × CString))
      × (has_leftover_values g ≡ ok left (without_satisfied g message lines))
      × ((left ≡ false) ↔ IsSettled g)
unfolding has_leftover_values
has_leftover_values-ok g h k =
    let (m₁, p₁, e₁) = leftover_results_lem g in
    let g₁ = after_messages (record g { function_result_map = settled_results g }) m₁ p₁ in
    let (m₂, p₂, e₂) = leftover_parameters_lem g₁ in
    let g₂ = after_messages (record g₁ { function_parameter_map = settled_parameters g }) m₂ p₂ in
    let (m₃, p₃, e₃) = leftover_calls_lem g₂ in
    let (down₁, up₁) = nothing_left SymbolValue 0 g.function_result_map h in
    let (down₂, up₂) = nothing_left CheckParameterEvent 1 g.function_parameter_map k in
    (
      not (check_for_leftover_values (settled_results g) == 0)
          || not (check_for_leftover_values (settled_parameters g) == 0)
          || not (length (remove_always_return_values_from_list g.call_ordering) == 0),
      m₃,
      p₃,
      rw (e₁, e₂, e₃),
      all_three _ _ _ ((λ e function. down₁ e (function, tt)), (λ q. up₁ λ names. q names.0))
          (
            (λ e function parameter. down₂ e (function, (parameter, tt))),
            (λ q. up₂ λ names. q names.0 names.1.0),
          )
          (no_calls_left g.call_ordering),
    )

-- On well-formed maps has_leftover_values returns, and it answers false exactly if nothing is left
-- over: the queues of every function's results and of every parameter's expectations are empty once
-- the satisfied entries at their heads are taken off, and every call that is still expected may be
-- left out.
pub has_leftover_values_iff :
    (g : Global)
    → IsWellFormed SymbolValue 1 g.function_result_map
    → IsWellFormed CheckParameterEvent 2 g.function_parameter_map
    → (left : Bool) × (g' : Global) × (has_leftover_values g ≡ ok left g')
      × ((left ≡ false) ↔ IsSettled g)
has_leftover_values_iff g h k =
    let (left, message, lines, e, iff) = has_leftover_values-ok g h k in
    (left, without_satisfied g message lines, e, iff)
