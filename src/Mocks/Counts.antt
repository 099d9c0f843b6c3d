-- ===== src/Mocks/Counts.antt =====
-- How often a value of _will_return is returned.
use cmocka.Prelude.{ℕ, zero, suc, ◌≡◌, refl, false, Option, none, List, [], ◌∷◌, ◌++◌}
use cmocka.Prelude.{CString, str_eq_refl, arith, subst, ◌∙◌, replicate, ◌≢◌}
use cmocka.Prelude.Int.{ℤ, pos, negsuc, eq_ℤ}
use cmocka.State.{Global, ListNode, SymbolValue, CMockaValueData}
use cmocka.State.Run.{M, ok, NeverReturns, ◌>>=◌, ◌>>◌, pure}
use cmocka.Symbols.{add_symbol_value}
use cmocka.Symbols.Queue.{after_one}
use cmocka.Symbols.Add.{add_symbol_value-IsWellFormed, queue-add_symbol_value}
use cmocka.Mocks.{will_return, mock, set_source_location}
use cmocka.Mocks.Values.{returns, IsReady, Serves, mock-Serves}

-- `n` calls of a mock function that asks for no name.
abbrev pub mock_times : CString → CString → ℕ → ℕ → M (List CMockaValueData)
mock_times function file line zero = pure []
mock_times function file line (suc n) = mock function file line none >>= λ value.
    mock_times function file line n >>= λ values. pure (value ∷ values)

abbrev stored : SymbolValue → ℤ → ListNode SymbolValue
stored symbol count = record { value = symbol; refcount = count }

module _ (function file : CString) (line : ℕ) (symbol : SymbolValue) where
  one_mock :
      (g : Global) (count : ℤ) (rest : List (ListNode SymbolValue))
      → IsReady g
      → returns g function ≡ stored symbol count ∷ rest
      → count ≢ pos 0
      → (g' : Global) × (mock function file line none g ≡ ok symbol.value g')
        × (returns g' function ≡ after_one symbol count rest)
        × IsReady g'
  one_mock g count rest h q ne =
      let served =
        subst (λ l. Serves function file line none l g (mock function file line none g)) q
          (mock-Serves function file line none g h) in
      let (g', e, q', others, h', location) = served.0 ne refl in (g', e, q', h')

  one_more :
      (n : ℕ) (g g₁ g₂ : Global) (values : List CMockaValueData)
      → mock function file line none g ≡ ok symbol.value g₁
      → mock_times function file line n g₁ ≡ ok values g₂
      → mock_times function file line (suc n) g ≡ ok (symbol.value ∷ values) g₂
  one_more n g g₁ g₂ values e f = rw (e, f)

  -- A value with a count of n is returned n times, and then it is gone.
  counted :
      (n : ℕ) (g : Global) (rest : List (ListNode SymbolValue))
      → IsReady g
      → returns g function ≡ stored symbol (pos (suc n)) ∷ rest
      → (g' : Global) × (mock_times function file line (suc n) g
          ≡ ok (replicate (suc n) symbol.value) g')
        × (returns g' function ≡ rest)
        × IsReady g'
  counted zero g rest h q =
      let (g₁, e, q₁, h₁) = one_mock g (pos 1) rest h q (λ z. cc) in
      (g₁, one_more 0 g g₁ g₁ [] e refl, q₁, h₁)
  counted (suc n) g rest h q =
      let (g₁, e, q₁, h₁) = one_mock g (pos (suc (suc n))) rest h q (λ z. cc) in
      let (g₂, f, q₂, h₂) = counted n g₁ rest h₁ q₁ in (g₂, one_more (suc n) g g₁ g₂ _ e f, q₂, h₂)

  -- A value whose count is negative is returned as often as it is asked for.
  endless :
      (n k : ℕ) (g : Global) (rest : List (ListNode SymbolValue))
      → IsReady g
      → returns g function ≡ stored symbol (negsuc k) ∷ rest
      → (g' : Global) × (mock_times function file line n g ≡ ok (replicate n symbol.value) g')
        × IsReady g'
  endless zero k g rest h q = (g, refl, h)
  endless (suc n) zero g rest h q =
      let (g₁, e, q₁, h₁) = one_mock g (negsuc 0) rest h q (λ z. cc) in
      let (g₂, f, h₂) = endless n 1 g₁ rest h₁ q₁ in (g₂, one_more n g g₁ g₂ _ e f, h₂)
  endless (suc n) (suc k) g rest h q =
      let (g₁, e, q₁, h₁) = one_mock g (negsuc (suc k)) rest h q (λ z. cc) in
      let (g₂, f, h₂) = endless n (suc k) g₁ rest h₁ q₁ in (g₂, one_more n g g₁ g₂ _ e f, h₂)

module _ (function file : CString) (line : ℕ) (name : Option CString)
    (value : CMockaValueData) where
  abbrev symbol_for : SymbolValue
  symbol_for = record { name = name; location = set_source_location file line; value = value }

  -- _will_return puts its value at the end of the queue.
  will_return_lem :
      (g : Global) (count : ℤ)
      → IsReady g
      → count ≢ pos 0
      → (g' : Global) × (will_return function file line name value count g ≡ ok tt g')
        × (returns g' function ≡ returns g function ++ stored symbol_for count ∷ [])
        × IsReady g'
  unfolding will_return
  will_return_lem g count h ne = (
    record g {
      function_result_map =
          add_symbol_value 1 g.function_result_map (function, tt) symbol_for count;
    },
    (let different : eq_ℤ count (pos 0) ≡ false = ground arith in rw different),
    queue-add_symbol_value symbol_for count 1 g.function_result_map (function, tt) (function, tt)
        ∙ rw str_eq_refl,
    add_symbol_value-IsWellFormed symbol_for count 1 g.function_result_map (function, tt) h,
  )

  -- On a well-formed map of results where nothing else is queued for the function, a value queued n
  -- + 1 times is returned by n + 1 calls of the mock, and one call more does not return.
  pub mock_times-will_return :
      (g : Global) (n : ℕ)
      → IsReady g
      → returns g function ≡ []
      → (g' : Global) × ((will_return function file line name value (pos (suc n))
              >> mock_times function file line (suc n))
            g
          ≡ ok (replicate (suc n) value) g')
        × NeverReturns (mock function file line none g')
  mock_times-will_return g n h empty =
      let (g₁, e, q, h₁) = will_return_lem g (pos (suc n)) h (λ z. cc) in
      let (g₂, f, q₂, h₂) = counted function file line symbol_for n g₁ [] h₁ (q ∙ rw empty) in
      (
        g₂,
        rw (e, f),
        subst (λ l. Serves function file line none l g₂ (mock function file line none g₂)) q₂
            (mock-Serves function file line none g₂ h₂),
      )

  -- On a well-formed map of results where nothing else is queued for the function, a value queued
  -- with a negative count is returned by any number of calls of the mock.
  pub mock_times-will_return_always :
      (g : Global) (k n : ℕ)
      → IsReady g
      → returns g function ≡ []
      → (g' : Global) × ((will_return function file line name value (negsuc k)
              >> mock_times function file line n)
            g
          ≡ ok (replicate n value) g')
  mock_times-will_return_always g k n h empty =
      let (g₁, e, q, h₁) = will_return_lem g (negsuc k) h (λ z. cc) in
      let (g₂, f, h₂) = endless function file line symbol_for n k g₁ [] h₁ (q ∙ rw empty) in
      (g₂, rw (e, f))
