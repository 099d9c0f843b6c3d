-- ===== src/Mocks/Ordering.antt =====
-- Calls in the expected order.
use cmocka.Mocks.Calls.{
  function_called, expect_function_call, search_call, behind, after_search, Search, at_end, called,
  expected_other, use_node,
}
use cmocka.Prelude.{ℕ, subst, ◌≡◌, refl, ap, ◌⊎◌, String, true, false, List, []}
use cmocka.Prelude.{◌∷◌, ◌++◌, CString, str_eq, str_eq_refl, str_eq_sound, arith, map}
use cmocka.Prelude.{◌∙◌, append-nil, append_assoc, Bool-cases, inl, inr}
use cmocka.Prelude.Int.{ltb_ℤ, eq_ℤ, pred_ℤ, ◌≤ℤ◌, pos, negsuc}
use cmocka.State.{Global, Arg, ListNode, FuncOrderingValue}
use cmocka.State.Run.{M, Outcome, ok, NeverReturns, ◌>>◌, pure}
use cmocka.Report.{cmocka_print_error, exit_test}
use cmocka.Report.Ends.{exit_test-NeverReturns, continue-NeverReturns}
use cmocka.Mocks.{set_source_location}
use cmocka.Symbols.{list_empty}

-- Expectations for the calls `names`, each once, in that order.
abbrev pub expect_calls : CString → ℕ → List CString → M (Unit {0})
expect_calls file line [] = pure tt
expect_calls file line (name ∷ names) =
    expect_function_call name file line (pos 1) >> expect_calls file line names

abbrev pub make_calls : CString → ℕ → List CString → M (Unit {0})
make_calls file line [] = pure tt
make_calls file line (name ∷ names) = function_called name file line >> make_calls file line names

abbrev once : CString → ℕ → CString → ListNode FuncOrderingValue
once file line name = record {
  value = record { location = set_source_location file line; function = name };
  refcount = pos 1;
}

abbrev with_calls : Global → List (ListNode FuncOrderingValue) → Global
with_calls g l = record g { call_ordering = l }

expect_calls_lem :
    (file : CString) (line : ℕ) (names : List CString) (g : Global)
    (before : List (ListNode FuncOrderingValue))
    → expect_calls file line names (with_calls g before)
      ≡ ok tt (with_calls g (before ++ map (once file line) names))
unfolding expect_function_call
expect_calls_lem file line [] g before = rw append-nil
expect_calls_lem file line (name ∷ names) g before =
    expect_calls_lem file line names g (before ++ once file line name ∷ []) ∙ rw append_assoc

make_calls_lem :
    (file : CString) (line : ℕ) (names : List CString) (g : Global)
    → make_calls file line names (with_calls g (map (once file line) names))
      ≡ ok tt (with_calls g [])
unfolding function_called
make_calls_lem file line [] g = refl
make_calls_lem file line (name ∷ names) g = rw (str_eq_refl name) (make_calls_lem file line names g)

-- From an empty ordering, functions that are expected once each and then called in that order all
-- return, and no expectation is left.
pub expected_calls_in_order :
    (file : CString) (line : ℕ) (names : List CString) (g : Global)
    → g.call_ordering ≡ []
    → (expect_calls file line names >> make_calls file line names) g ≡ ok tt g
expected_calls_in_order file line names g e =
    let same : with_calls g [] ≡ g = ground arith in
    subst (λ s. (expect_calls file line names >> make_calls file line names) s ≡ ok tt s) same
      (rw (expect_calls_lem file line names g []) (make_calls_lem file line names g))

-- A call is permitted now: it is expected, and what is expected before it may be left out.
pub data Permits (function : CString) : List (ListNode FuncOrderingValue) → Type 0 where
  next :
      {node : ListNode FuncOrderingValue} {rest : List (ListNode FuncOrderingValue)}
      → node.value.function ≡ function
      → Permits function (node ∷ rest)
  later :
      {node : ListNode FuncOrderingValue} {rest : List (ListNode FuncOrderingValue)}
      → node.refcount ≤ℤ negsuc 1
      → Permits function rest
      → Permits function (node ∷ rest)

-- What a permitted call makes of the ordering: a count of 1 is used up, a higher one goes down by one,
-- "at least once" (-1) becomes "may be left out" (-2), and from -2 on the expectation stays as it is;
-- everything before it and behind it is kept.
pub data Uses (function : CString)
    : List (ListNode FuncOrderingValue) → List (ListNode FuncOrderingValue) → Type 0 where
  last :
      {node : ListNode FuncOrderingValue} {rest : List (ListNode FuncOrderingValue)}
      → node.value.function ≡ function
      → node.refcount ≡ pos 1
      → Uses function (node ∷ rest) rest
  counted :
      {node : ListNode FuncOrderingValue} {rest : List (ListNode FuncOrderingValue)}
      → node.value.function ≡ function
      → ltb_ℤ (negsuc 1) node.refcount ≡ true
      → ¬ (node.refcount ≡ pos 1)
      → Uses function (node ∷ rest) (record node { refcount = pred_ℤ node.refcount } ∷ rest)
  kept :
      {node : ListNode FuncOrderingValue} {rest : List (ListNode FuncOrderingValue)}
      → node.value.function ≡ function
      → node.refcount ≤ℤ negsuc 1
      → Uses function (node ∷ rest) (node ∷ rest)
  behind_optional :
      {node : ListNode FuncOrderingValue} {rest rest' : List (ListNode FuncOrderingValue)}
      → node.refcount ≤ℤ negsuc 1
      → ¬ (node.value.function ≡ function)
      → Uses function rest rest'
      → Uses function (node ∷ rest) (node ∷ rest')

Uses-Permits :
    {function : CString} {l l' : List (ListNode FuncOrderingValue)}
    → Uses function l l'
    → Permits function l
Uses-Permits (last e h) = next e
Uses-Permits (counted e h k) = next e
Uses-Permits (kept e h) = next e
Uses-Permits (behind_optional h k u) = later h (Uses-Permits u)

use_node-Uses :
    (function : CString) (node : ListNode FuncOrderingValue)
    (rest : List (ListNode FuncOrderingValue))
    → node.value.function ≡ function
    → Uses function (node ∷ rest) (use_node node rest)
unfolding use_node
use_node-Uses function node rest e = elim (Bool-cases (ltb_ℤ (negsuc 1) node.refcount)) [
  | inl required ↦ elim (Bool-cases (eq_ℤ (pred_ℤ node.refcount) (pos 0))) [
    | inl one ↦ rw (required, one) (last e (ground arith))
    | inr more ↦ rw (required, more) (counted e required (ground arith))
  ]
  | inr optional ↦ rw optional (kept e (ground arith))
]

-- The search finds the call exactly where it is permitted, and uses it.
abbrev Finds : CString → List (ListNode FuncOrderingValue) → Search → Type 0
Finds function l (called rest) = Uses function l rest
Finds function l _ = ¬ Permits function l

Permits-inv :
    {function : CString} {node : ListNode FuncOrderingValue}
    {rest : List (ListNode FuncOrderingValue)}
    → Permits function (node ∷ rest)
    → (node.value.function ≡ function) ⊎ ((node.refcount ≤ℤ negsuc 1) × Permits function rest)
Permits-inv (next e) = inl e
Permits-inv (later h p) = inr (h, p)

module _ (function : CString) (node : ListNode FuncOrderingValue)
    (rest : List (ListNode FuncOrderingValue)) where
  not_permitted :
      str_eq node.value.function function ≡ false
      → ((node.refcount ≤ℤ negsuc 1) → ¬ Permits function rest)
      → ¬ Permits function (node ∷ rest)
  not_permitted other none_behind p = elim (Permits-inv p) [
    | inl e ↦ cc (str_eq_refl function, other, ap (λ s. str_eq s function) e)
    | inr (h, q) ↦ none_behind h q
  ]

  behind-Finds :
      (s : Search)
      → node.refcount ≤ℤ negsuc 1
      → str_eq node.value.function function ≡ false
      → Finds function rest s
      → Finds function (node ∷ rest) (behind node s)
  behind-Finds at_end h other f = not_permitted other (λ _. f)
  behind-Finds (called l) h other f =
      behind_optional h (λ e. cc (str_eq_refl function, other, ap (λ s. str_eq s function) e)) f
  behind-Finds (expected_other name) h other f = not_permitted other (λ _. f)

search_call-Finds :
    (function : CString) (l : List (ListNode FuncOrderingValue))
    → Finds function l (search_call function l)
unfolding search_call
search_call-Finds function [] = λ p. elim p [ ]
search_call-Finds function (node ∷ rest) = elim (Bool-cases (str_eq node.value.function function)) [
  | inl same ↦
      rw same (use_node-Uses function node rest (str_eq_sound node.value.function function same))
  | inr other ↦ elim (Bool-cases (ltb_ℤ (negsuc 1) node.refcount)) [
    | inl required ↦
        rw (other, required) (not_permitted function node rest other (λ h. absurd (ground arith)))
    | inr optional ↦
        rw (other, optional)
          (behind-Finds function node rest _ (ground arith) other (search_call-Finds function rest))
  ]
]

Permits-full :
    {function : CString} (l : List (ListNode FuncOrderingValue))
    → list_empty l ≡ true
    → ¬ Permits function l
Permits-full [] e p = elim p [ ]
Permits-full (node ∷ rest) e p = cc

module _ (function file : CString) (line : ℕ) (g : Global) where
  -- What the call does, given how its search ends.
  abbrev pub Obeys : List (ListNode FuncOrderingValue) → Outcome (Unit {0}) → Type 0
  Obeys l o =
      (Permits function l
        → (l' : List (ListNode FuncOrderingValue)) × Uses function l l'
          × (o ≡ ok tt (with_calls g l')))
      × (¬ Permits function l → NeverReturns o)

  print_exit-NeverReturns :
      (format : String) (args : List Arg)
      → NeverReturns ((cmocka_print_error format args >> exit_test true) g)
  print_exit-NeverReturns format args =
      continue-NeverReturns (cmocka_print_error format args g) (λ _. exit_test true)
        λ _ g'. exit_test-NeverReturns g'

  after_search-Obeys :
      (l : List (ListNode FuncOrderingValue)) (s : Search)
      → Finds function l s
      → Obeys l (after_search function file line s g)
  unfolding after_search
  after_search-Obeys l at_end f = (λ p. absurd (f p), λ _. print_exit-NeverReturns _ _)
  after_search-Obeys l (called l') f =
      (λ _. (l', f, refl), λ no_call. absurd (no_call (Uses-Permits f)))
  after_search-Obeys l (expected_other name) f =
      (λ p. absurd (f p), λ _. print_exit-NeverReturns _ _)

  -- _function_called returns if the function is expected and everything expected before it may be
  -- left out, and then only the call ordering has changed: the first such expectation of the
  -- function is removed where its count was 1, is kept as it is where its count was -2 or less, and
  -- has its count lowered by one otherwise; everything before and behind it is kept. If not,
  -- _function_called does not return.
  pub function_called_iff : Obeys g.call_ordering (function_called function file line g)
  unfolding function_called
  function_called_iff = elim (Bool-cases (list_empty g.call_ordering)) [
    | inl e ↦
        rw e (λ p. absurd (Permits-full g.call_ordering e p), λ _. print_exit-NeverReturns _ _)
    | inr e ↦
        rw e (after_search-Obeys g.call_ordering _ (search_call-Finds function g.call_ordering))
  ]
