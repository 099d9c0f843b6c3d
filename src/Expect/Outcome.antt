-- ===== src/Expect/Outcome.antt =====
-- What _check_expected makes of the expectations that are queued for a parameter.
use cmocka.Prelude.{ℕ, ◌≡◌, ◌≢◌, ap, ◌∙◌, true, false, List, [], ◌∷◌}
use cmocka.Prelude.{CString, str_eq_refl, arith, subst, ◌==◌, ==_iff}
use cmocka.Prelude.Int.{pos, eq_ℤ}
use cmocka.State.{Global, ListNode, CheckParameterEvent, CMockaValueData, check_value}
use cmocka.State.Run.{Outcome, ok, NeverReturns, ◌>>◌}
use cmocka.Report.{cmocka_print_error, exit_test}
use cmocka.Report.Ends.{exit_test-NeverReturns, continue-NeverReturns, print_fail-NeverReturns}
use cmocka.Symbols.{Item, Got, found, missing, no_value, add_symbol_value}
use cmocka.Symbols.Queue.{queue, IsWellFormed, after_one}
use cmocka.Symbols.Get.{Answers, get_symbol_value-Answers}
use cmocka.Symbols.Add.{add_symbol_value-IsWellFormed, queue-add_symbol_value}
use cmocka.Mocks.{print_last_location, report_missing, set_source_location}
use cmocka.Compare.{uint_values_equal_display_error}
use cmocka.Compare.Verdicts
use cmocka.Compare.Verdicts.{verdict-Answers}
use cmocka.Expect.{check_expected, check_got, run_event, run_check, report_no_parameter}
use cmocka.Expect.{report_failed_check, expect_value}

-- The expectations for a parameter of a function, in order.
abbrev pub expectations : Global → CString → CString → List (ListNode CheckParameterEvent)
expectations g function parameter = queue 2 g.function_parameter_map (function, (parameter, tt))

abbrev pub IsReady : Global → Type 0
IsReady g = IsWellFormed CheckParameterEvent 2 g.function_parameter_map

module _ (function parameter file : CString) (line : ℕ) where
  report_no_parameter-NeverReturns :
      (g : Global) → NeverReturns (report_no_parameter function parameter file line g)
  unfolding report_no_parameter
  report_no_parameter-NeverReturns g = continue-NeverReturns (cmocka_print_error _ _ g) _ λ _ g₁.
      continue-NeverReturns
        (print_last_location g₁.last_parameter_location
          "%s:%u: note: Previously declared parameter value was declared here\n"
          "There were no previously declared parameter values for this test.\n" g₁)
        (λ _. exit_test true) λ _ g₂. exit_test-NeverReturns g₂

  -- The state in which the callback runs: the expectation is taken, and its location noted.
  abbrev taken : Global → List (Item CheckParameterEvent 2) → CheckParameterEvent → Global
  taken g map event = record g {
    function_parameter_map = map;
    last_parameter_location = event.location;
  }

  -- What _check_expected does, given the queue of its parameter.
  abbrev pub Checks :
      CMockaValueData → List (ListNode CheckParameterEvent) → Global → Outcome (Unit {0}) → Type 0
  Checks value [] g o = NeverReturns o
  Checks value (node ∷ rest) g o =
      node.refcount ≢ pos 0
      → (map : List (Item CheckParameterEvent 2)) × (queue 2 map (function, (parameter, tt))
          ≡ after_one node.value node.refcount rest)
        × IsWellFormed CheckParameterEvent 2 map
        × ((g' : Global)
            → run_check node.value.check value (taken g map node.value) ≡ ok true g'
            → o ≡ ok tt g')
        × ((g' : Global)
            → run_check node.value.check value (taken g map node.value) ≡ ok false g'
            → NeverReturns o)

  check_got-Checks :
      (value : CMockaValueData) (g : Global)
      (got : Got CheckParameterEvent (List (Item CheckParameterEvent 2)))
      → Answers 2 g.function_parameter_map (function, (parameter, tt)) got
      → Checks value
          (expectations g function parameter)
          g
          (check_got function parameter file line value got g)
  unfolding check_got run_event report_failed_check
  check_got-Checks value g (found rc event map) (rest, q, others, h) = rw q (λ ne.
      let nonzero : eq_ℤ rc (pos 0) ≡ false = ground arith in
      (
        map,
        others (function, (parameter, tt)) ∙ rw (str_eq_refl, str_eq_refl),
        h,
        λ g' e. rw nonzero (rw e),
        λ g' e. rw nonzero (rw e (print_fail-NeverReturns _ _ file line g')),
      ))
  check_got-Checks value g (missing symbol map) (q, same) = rw q (
      continue-NeverReturns (report_missing symbol (record g { function_parameter_map = map }))
        (λ _. report_no_parameter function parameter file line)
        λ _ g'. report_no_parameter-NeverReturns g')
  check_got-Checks value g no_value a = absurd a

  -- On a well-formed map of expectations, _check_expected takes one use off the head of its
  -- parameter's queue, where its count is not 0, and returns if the check on the value answers
  -- true; it does not return if the check answers false or if nothing is expected.
  pub check_expected-Checks :
      (value : CMockaValueData) (g : Global)
      → IsReady g
      → Checks value
          (expectations g function parameter)
          g
          (check_expected function parameter file line value g)
  unfolding check_expected
  check_expected-Checks value g h = check_got-Checks value g _ (
      get_symbol_value-Answers CheckParameterEvent 1 g.function_parameter_map
        (function, (parameter, tt)) h)

  abbrev event_for : ℕ → CheckParameterEvent
  event_for word = record {
    location = set_source_location file line;
    parameter_name = parameter;
    check = check_value (record { word = word; pointee = [] });
  }

  -- The state behind _expect_value, once.
  abbrev with_value : Global → ℕ → Global
  with_value g word = record g {
    function_parameter_map =
        add_symbol_value 2 g.function_parameter_map (function, (parameter, tt)) (event_for word)
          (pos 1);
  }

  check_value-Answers :
      (word : ℕ) (value : CMockaValueData) (g : Global)
      → Verdicts.Answers
          (value.word == word)
          (run_check (check_value (record { word = word; pointee = [] })) value g)
  unfolding run_check uint_values_equal_display_error
  check_value-Answers word value g = verdict-Answers (value.word == word) _ _ g

  -- On a well-formed map of expectations where nothing else is expected of a parameter, after a
  -- value is expected of it once, _check_expected returns if the parameter has that value and does
  -- not return if it has another.
  pub check_expected-expect_value :
      (word : ℕ) (value : CMockaValueData) (g : Global)
      → IsReady g
      → expectations g function parameter ≡ []
      → (value.word ≡ word
          → Verdicts.Answers tt (
              (expect_value function parameter file line word (pos 1)
                  >> check_expected function parameter file line value)
                g))
        × (value.word ≢ word
            → NeverReturns (
                (expect_value function parameter file line word (pos 1)
                    >> check_expected function parameter file line value)
                  g))
  unfolding expect_value
  check_expected-expect_value word value g h empty =
      let g₁ = with_value g word in
      let q : expectations g₁ function parameter
          ≡ record { value = event_for word; refcount = pos 1 } ∷ [] =
        queue-add_symbol_value (event_for word) (pos 1) 2 g.function_parameter_map
          (function, (parameter, tt)) (function, (parameter, tt))
        ∙ rw (str_eq_refl function, str_eq_refl parameter, empty) in
      let ready : IsReady g₁ =
        add_symbol_value-IsWellFormed (event_for word) (pos 1) 2 g.function_parameter_map
          (function, (parameter, tt)) h in
      let (map, _, _, pass, stop) =
        subst (λ l. Checks value l g₁ (check_expected function parameter file line value g₁)) q
          (check_expected-Checks value g₁ ready) (λ e. cc) in
      let (g₂, e) = check_value-Answers word value (taken g₁ map (event_for word)) in
      (
        λ same. (g₂, pass g₂ (e ∙ ap (λ b. ok b g₂) ((==_iff value.word word).1 same))),
        λ differs.
            let unequal : (value.word == word) ≡ false = ground arith in
            stop g₂ (e ∙ ap (λ b. ok b g₂) unequal),
      )
