-- ===== src/Symbols.antt =====
-- The symbol maps of src/cmocka.c: add_symbol_value, get_symbol_value, remove_always_return_values and
-- check_for_leftover_values. A map over `n` names is a list of symbols, each with a map over `n - 1`
-- names; over no names it is the list of the values themselves.
pub mod Queue
pub mod Add
pub mod Get
pub mod Cleanup
use cmocka.Prelude.{
  ℕ, zero, suc, ◌+◌, Bool, true, false, not, Option, none, some, List, [], ◌∷◌, ◌++◌,
}
use cmocka.Prelude.{CString, str_eq, if◌then◌else◌}
use cmocka.Prelude.Int.{ℤ, pos, negsuc, pred_ℤ, ltb_ℤ, eq_ℤ}
use cmocka.State.{ListNode, SymbolMapValue}

-- WILL_RETURN_ALWAYS and WILL_RETURN_ONCE
abbrev pub will_return_always : ℤ
will_return_always = negsuc 0

abbrev pub will_return_once : ℤ
will_return_once = negsuc 1

abbrev pub Item {ℓ} : Type ℓ → ℕ → Type ℓ
Item V zero = ListNode V
Item V (suc n) = SymbolMapValue (List (Item V n))

-- The array `symbol_names`
abbrev pub Names : ℕ → Type 0
Names zero = Unit
Names (suc n) = CString × Names n

abbrev pub list_empty {ℓ} : {X : Type ℓ} → List X → Bool
list_empty [] = true
list_empty (x ∷ l) = false

module _ {ℓ} {X : Type ℓ} where
  -- list_find with symbol_names_match
  unfoldable pub find_child : CString → List (SymbolMapValue (List X)) → Option (List X)
  find_child name [] = none
  find_child name (m ∷ map) =
      if str_eq m.symbol_name name then some m.symbol_values_list_head else find_child name map

  -- The step into the symbol of that name, which is made at the end of the list where it is missing.
  unfoldable pub update_child :
      CString → (List X → List X) → List (SymbolMapValue (List X)) → List (SymbolMapValue (List X))
  update_child name f [] = record { symbol_name = name; symbol_values_list_head = f [] } ∷ []
  update_child name f (m ∷ map) =
      if str_eq m.symbol_name name
      then record m { symbol_values_list_head = f m.symbol_values_list_head } ∷ map
      else m ∷ update_child name f map

  -- What becomes of the symbol when its child list has changed to `child`: an empty one is removed.
  unfoldable pub put_back :
      CString → List X → List (SymbolMapValue (List X)) → List (SymbolMapValue (List X))
  put_back name child [] = []
  put_back name child (m ∷ map) =
      if str_eq m.symbol_name name
      then (if list_empty child then map else record m { symbol_values_list_head = child } ∷ map)
      else m ∷ put_back name child map

unfoldable pub add_symbol_value {ℓ} :
    {V : Type ℓ} (n : ℕ) → List (Item V n) → Names n → V → ℤ → List (Item V n)
unfolding update_child
add_symbol_value zero values names value refcount =
    values ++ record { value = value; refcount = refcount } ∷ []
add_symbol_value (suc n) map (name, names) value refcount =
    update_child name (λ child. add_symbol_value n child names value refcount) map

-- `missing` has printed the name; `no_value` is the failed `assert_true(return_value)`.
pub data Got {ℓ} (V C : Type ℓ) : Type ℓ where
  found : ℤ → V → C → Got V C
  missing : CString → C → Got V C
  no_value : Got V C

-- The node behind the first value, after it has been handed out.
pub hand_out {ℓ} : {V : Type ℓ} → ListNode V → List (ListNode V) → List (ListNode V)
hand_out node rest =
    if eq_ℤ (pred_ℤ node.refcount) (pos 0)
    then rest
    else if ltb_ℤ will_return_once node.refcount
    then record node { refcount = pred_ℤ node.refcount } ∷ rest
    else node ∷ rest

first_value {ℓ} : {V : Type ℓ} → List (ListNode V) → Got V (List (ListNode V))
unfolding hand_out
first_value [] = no_value
first_value (node ∷ rest) = found node.refcount node.value (hand_out node rest)

module _ {ℓ} {V X : Type ℓ} where
  leave_child :
      CString
      → List (SymbolMapValue (List X))
      → Got V (List X)
      → Got V (List (SymbolMapValue (List X)))
  leave_child name map (found rc value child) = found rc value (put_back name child map)
  leave_child name map (missing symbol child) = missing symbol (put_back name child map)
  leave_child name map no_value = no_value

  enter_child :
      CString
      → (List X → Got V (List X))
      → List (SymbolMapValue (List X))
      → Option (List X)
      → Got V (List (SymbolMapValue (List X)))
  unfolding leave_child
  enter_child name get map none = missing name map
  enter_child name get map (some child) = leave_child name map (get child)

unfoldable pub get_symbol_value {ℓ} :
    {V : Type ℓ} (n : ℕ) → List (Item V n) → Names n → Got V (List (Item V n))
unfolding find_child put_back first_value enter_child leave_child hand_out
get_symbol_value zero values names = first_value values
get_symbol_value (suc n) map (name, names) =
    enter_child name (λ child. get_symbol_value n child names) map (find_child name map)

-- `refcount < -1`: to be returned always, and returned at least once.
unfoldable pub is_satisfied : ℤ → Bool
is_satisfied refcount = ltb_ℤ refcount will_return_always

-- remove_always_return_values_from_list: every node that is satisfied goes.
unfoldable pub remove_always_return_values_from_list {ℓ} :
    {V : Type ℓ} → List (ListNode V) → List (ListNode V)
unfolding is_satisfied
remove_always_return_values_from_list [] = []
remove_always_return_values_from_list (node ∷ rest) =
    let kept = remove_always_return_values_from_list rest in
    if is_satisfied node.refcount then kept else node ∷ kept

-- The child list at the last name: only its first node can go.
unfoldable remove_first_satisfied {ℓ} : {V : Type ℓ} → List (ListNode V) → List (ListNode V)
unfolding is_satisfied
remove_first_satisfied [] = []
remove_first_satisfied (node ∷ rest) = if is_satisfied node.refcount then rest else node ∷ rest

-- The loop over the symbols; `clean` is what is done to a child list that is not empty.
unfoldable clean_children {ℓ} :
    {X : Type ℓ}
    → (List X → List X)
    → List (SymbolMapValue (List X))
    → List (SymbolMapValue (List X))
clean_children clean [] = []
clean_children clean (m ∷ map) =
    let children = m.symbol_values_list_head in
    let cleaned = if list_empty children then children else clean children in
    let rest = clean_children clean map in
    if list_empty cleaned then rest else record m { symbol_values_list_head = cleaned } ∷ rest

unfoldable pub remove_always_return_values {ℓ} :
    (V : Type ℓ) (n : ℕ) → List (Item V n) → List (Item V n)
unfolding clean_children remove_first_satisfied
remove_always_return_values V zero values = remove_first_satisfied values
remove_always_return_values V (suc n) map = clean_children (remove_always_return_values V n) map

-- check_for_leftover_values: the symbols of this level with something below them. The numbers that the
-- nested calls return are not read.
unfoldable pub check_for_leftover_values {ℓ} : {X : Type ℓ} → List (SymbolMapValue (List X)) → ℕ
check_for_leftover_values [] = 0
check_for_leftover_values (m ∷ map) =
    let rest = check_for_leftover_values map in
    if list_empty m.symbol_values_list_head then rest else rest + 1
