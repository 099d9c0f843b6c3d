-- ===== src/Symbols/Add.antt =====
-- add_symbol_value puts a value at the end of one queue.
use cmocka.Prelude.{ℕ, zero, suc, ◌≡◌, refl, false, List, []}
use cmocka.Prelude.{◌∷◌, ◌++◌, CString, str_eq, str_eq_sound, str_eq_refl, if◌then◌else◌, arith}
use cmocka.Prelude.{Bool-cases, inl, inr}
use cmocka.Prelude.Int.{ℤ}
use cmocka.State.{SymbolMapValue}
use cmocka.Symbols.{Item, Names, list_empty, update_child, add_symbol_value}
use cmocka.Symbols.Queue.{IsWellFormed-nil, queue, same_names, IsWellFormed, children}
use cmocka.Symbols.Queue.{children-update_child, update_child-IsMap}

list_empty-snoc {ℓ} : {X : Type ℓ} (l : List X) (x : X) → list_empty (l ++ x ∷ []) ≡ false
list_empty-snoc [] x = refl
list_empty-snoc (y ∷ l) x = refl

list_empty-update_child {ℓ} :
    {X : Type ℓ} (name : CString) (f : List X → List X) (map : List (SymbolMapValue (List X)))
    → list_empty (update_child name f map) ≡ false
unfolding update_child
list_empty-update_child name f [] = refl
list_empty-update_child name f (m ∷ map) = ground arith

module _ {ℓ} {V : Type ℓ} (value : V) (refcount : ℤ) where
  list_empty-add :
      (n : ℕ) (map : List (Item V n)) (names : Names n)
      → list_empty (add_symbol_value n map names value refcount) ≡ false
  unfolding add_symbol_value
  list_empty-add zero values names = list_empty-snoc values _
  list_empty-add (suc n) map (name, names) =
      list_empty-update_child name (λ child. add_symbol_value n child names value refcount) map

  -- add_symbol_value keeps a symbol map well formed: the names of each level distinct and no child
  -- list empty.
  pub add_symbol_value-IsWellFormed :
      (n : ℕ) (map : List (Item V n)) (names : Names n)
      → IsWellFormed V n map
      → IsWellFormed V n (add_symbol_value n map names value refcount)
  unfolding add_symbol_value
  add_symbol_value-IsWellFormed zero values names h = tt
  add_symbol_value-IsWellFormed (suc n) map (name, names) h =
      update_child-IsMap (IsWellFormed V n) name
        (λ child. add_symbol_value n child names value refcount)
        (λ l p. (list_empty-add n l names, add_symbol_value-IsWellFormed n l names p))
        (IsWellFormed-nil V n) map h

  -- add_symbol_value puts the value with its count at the end of the queue of its names, and leaves
  -- the queue of every other path of names as it was.
  pub queue-add_symbol_value :
      (n : ℕ) (map : List (Item V n)) (names others : Names n)
      → queue n (add_symbol_value n map names value refcount) others ≡ (
          if same_names n names others
          then queue n map others ++ record { value = value; refcount = refcount } ∷ []
          else queue n map others)
  unfolding add_symbol_value
  queue-add_symbol_value zero values names others = refl
  queue-add_symbol_value (suc n) map (name, names) (j, others) = elim (Bool-cases (str_eq name j)) [
    | inl e ↦ rw (← str_eq_sound name j e) (
        rw (children-update_child name name add map, str_eq_refl name)
          (queue-add_symbol_value n (children name map) names others))
    | inr e ↦ rw (children-update_child j name add map, e)
  ]
    where
      add : List (Item V n) → List (Item V n)
      add child = add_symbol_value n child names value refcount
