-- ===== src/Symbols/Queue.antt =====
-- What a symbol map stands for: a queue of values for each path of names.
use cmocka.Prelude.{ℕ, zero, suc, ◌≡◌, refl, Bool, true, false, ◌&&◌, Option, none, some, List, []}
use cmocka.Prelude.{
  ◌∷◌, CString, str_eq, str_eq_sound, str_eq_refl, str_eq_comm, ◌∙◌, if◌then◌else◌, arith,
}
use cmocka.Prelude.{Bool-cases, inl, inr}
use cmocka.Prelude.Int.{ℤ, pos, negsuc}
use cmocka.State.{ListNode, SymbolMapValue}
use cmocka.Symbols.{Item, Names, list_empty, find_child, update_child, put_back}

module _ {ℓ} {X : Type ℓ} where
  abbrev child_or_nil : Option (List X) → List X
  child_or_nil none = []
  child_or_nil (some child) = child

  -- The values under a name, none where the name is missing.
  abbrev pub children : CString → List (SymbolMapValue (List X)) → List X
  children name map = child_or_nil (find_child name map)

  -- No symbol of the list has that name.
  abbrev pub IsFresh : CString → List (SymbolMapValue (List X)) → Type 0
  IsFresh name [] = Unit
  IsFresh name (m ∷ map) = (str_eq m.symbol_name name ≡ false) × IsFresh name map

  -- Names are distinct, no child list is empty, and `P` holds of each.
  abbrev pub IsMap : (List X → Type 0) → List (SymbolMapValue (List X)) → Type 0
  IsMap P [] = Unit
  IsMap P (m ∷ map) =
      IsFresh m.symbol_name map
      × (list_empty m.symbol_values_list_head ≡ false)
      × P m.symbol_values_list_head
      × IsMap P map

abbrev pub queue {ℓ} : {V : Type ℓ} (n : ℕ) → List (Item V n) → Names n → List (ListNode V)
queue zero values names = values
queue (suc n) map (name, names) = queue n (children name map) names

abbrev pub same_names : (n : ℕ) → Names n → Names n → Bool
same_names zero a b = true
same_names (suc n) (a, rest) (b, others) = str_eq a b && same_names n rest others

-- The invariant of a map over `n` names.
abbrev pub IsWellFormed {ℓ} : (V : Type ℓ) (n : ℕ) → List (Item V n) → Type 0
IsWellFormed V zero values = Unit
IsWellFormed V (suc n) map = IsMap (IsWellFormed V n) map

pub IsWellFormed-nil {ℓ} : (V : Type ℓ) (n : ℕ) → IsWellFormed V n []
IsWellFormed-nil V zero = tt
IsWellFormed-nil V (suc n) = tt

-- A queue once its first value has been handed out: a count of one is used up, a greater count goes
-- down, WILL_RETURN_ALWAYS becomes -2, and what is below that stays.
abbrev pub after_one {ℓ} : {V : Type ℓ} → V → ℤ → List (ListNode V) → List (ListNode V)
after_one value (pos zero) rest = record { value = value; refcount = negsuc 0 } ∷ rest
after_one value (pos (suc zero)) rest = rest
after_one value (pos (suc (suc k))) rest = record { value = value; refcount = pos (suc k) } ∷ rest
after_one value (negsuc zero) rest = record { value = value; refcount = negsuc 1 } ∷ rest
after_one value (negsuc (suc k)) rest = record { value = value; refcount = negsuc (suc k) } ∷ rest

-- An empty map stands for empty queues.
pub queue-nil {ℓ} : (V : Type ℓ) (n : ℕ) (names : Names n) → queue {V = V} n [] names ≡ []
unfolding find_child
queue-nil V zero names = refl
queue-nil V (suc n) (name, names) = queue-nil V n names

module _ {ℓ} {X : Type ℓ} where
  IsFresh-update_child :
      (j name : CString) (f : List X → List X) (map : List (SymbolMapValue (List X)))
      → IsFresh j map
      → str_eq name j ≡ false
      → IsFresh j (update_child name f map)
  unfolding update_child
  IsFresh-update_child j name f [] h ne = (ne, tt)
  IsFresh-update_child j name f (m ∷ map) h ne = ground (arith, IsFresh-update_child j name f map)

  pub IsFresh-put_back :
      (j name : CString) (child : List X) (map : List (SymbolMapValue (List X)))
      → IsFresh j map
      → IsFresh j (put_back name child map)
  unfolding put_back
  IsFresh-put_back j name child [] h = tt
  IsFresh-put_back j name child (m ∷ map) h = ground (arith, IsFresh-put_back j name child map)

  pub children-IsFresh :
      (name : CString) (map : List (SymbolMapValue (List X)))
      → IsFresh name map
      → find_child name map ≡ none
  unfolding find_child
  children-IsFresh name [] h = refl
  children-IsFresh name (m ∷ map) h = ground (arith, children-IsFresh name map)

  pub children-update_child :
      (j name : CString) (f : List X → List X) (map : List (SymbolMapValue (List X)))
      → children j (update_child name f map)
        ≡ (if str_eq name j then f (children name map) else children j map)
  unfolding update_child find_child
  children-update_child j name f [] = ground arith
  children-update_child j name f (m ∷ map) = ground (
    arith,
    children-update_child j name f map,
    str_eq_sound m.symbol_name name,
    str_eq_sound name j,
    str_eq_sound m.symbol_name j,
    str_eq_refl name,
    str_eq_refl j,
  )

  pub update_child-IsMap :
      (P : List X → Type 0) (name : CString) (f : List X → List X)
      → ((l : List X) → P l → (list_empty (f l) ≡ false) × P (f l))
      → P []
      → (map : List (SymbolMapValue (List X))) → IsMap P map
      → IsMap P (update_child name f map)
  unfolding update_child
  update_child-IsMap P name f keep base [] h = (tt, (keep [] base).0, (keep [] base).1, tt)
  update_child-IsMap P name f keep base (m ∷ map) (fresh, full, good, h) =
      elim (Bool-cases (str_eq m.symbol_name name)) [
        | inl e ↦ let kept = keep m.symbol_values_list_head good in rw e (fresh, kept.0, kept.1, h)
        | inr e ↦ rw e (
          IsFresh-update_child m.symbol_name name f map fresh (str_eq_comm name m.symbol_name ∙ e),
          full,
          good,
          update_child-IsMap P name f keep base map h,
        )
      ]
