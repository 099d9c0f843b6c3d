-- ===== src/Symbols/Cleanup.antt =====
-- What remove_always_return_values and check_for_leftover_values make of the queues of a map.
use cmocka.Prelude.{ℕ, zero, suc, ◌≡◌, refl, true, false, Option, none, some, List, [], ◌∷◌, ◌↔◌}
use cmocka.Prelude.{
  CString, str_eq_sound, str_eq_refl, if◌then◌else◌, arith, Bool-cases, inl, inr, ◌==◌, ◌∙◌, ap,
}
use cmocka.State.{ListNode, SymbolMapValue}
use cmocka.Symbols.{Item, Names, list_empty, find_child, is_satisfied, clean_children}
use cmocka.Symbols.{remove_always_return_values, check_for_leftover_values}
use cmocka.Symbols.Get.{find_child-IsMap, empty_nil}
use cmocka.Symbols.Queue.{
  IsWellFormed-nil, queue, IsFresh, IsMap, IsWellFormed, children, queue-nil, children-IsFresh,
}

-- A queue at the end of a test: its first value goes if it was to be returned always and has been.
abbrev pub settled {ℓ} : {V : Type ℓ} → List (ListNode V) → List (ListNode V)
settled [] = []
settled (node ∷ rest) = if is_satisfied node.refcount then rest else node ∷ rest

module _ {X : Type 0} (clean : List X → List X) where
  IsFresh-clean_children :
      (name : CString) (map : List (SymbolMapValue (List X)))
      → IsFresh name map
      → IsFresh name (clean_children clean map)
  unfolding clean_children
  IsFresh-clean_children name [] h = tt
  IsFresh-clean_children name (m ∷ map) h = ground (arith, IsFresh-clean_children name map)

  children-clean_children :
      (P : List X → Type 0) (name : CString) (map : List (SymbolMapValue (List X)))
      → IsMap P map
      → children name (clean_children clean map)
        ≡ (if list_empty (children name map) then [] else clean (children name map))
  unfolding clean_children find_child
  children-clean_children P name [] h = refl
  children-clean_children P name (m ∷ map) (fresh, full, good, h) = ground (
    arith,
    children-clean_children P name map h,
    children-IsFresh name map,
    empty_nil (clean m.symbol_values_list_head),
    str_eq_sound m.symbol_name name,
    children-IsFresh name (clean_children clean map),
    IsFresh-clean_children name map,
  )

  clean_children-IsMap :
      (P : List X → Type 0) (map : List (SymbolMapValue (List X)))
      → ((l : List X) → P l → P (clean l))
      → IsMap P map
      → IsMap P (clean_children clean map)
  unfolding clean_children
  clean_children-IsMap P [] keep h = tt
  clean_children-IsMap P (m ∷ map) keep (fresh, full, good, h) =
      elim (Bool-cases (list_empty (clean m.symbol_values_list_head))) [
        | inl gone ↦ rw (full, gone) (clean_children-IsMap P map keep h)
        | inr left ↦
            rw (full, left)
              (
                IsFresh-clean_children m.symbol_name map fresh,
                left,
                keep m.symbol_values_list_head good,
                clean_children-IsMap P map keep h,
              )
      ]

module _ (V : Type 0) where
  settled-if_empty :
      (n : ℕ) (l : List (Item V n)) (names : Names n)
      → queue n (if list_empty l then [] else remove_always_return_values V n l) names
        ≡ queue n (remove_always_return_values V n l) names
  unfolding remove_always_return_values
  settled-if_empty zero [] names = refl
  settled-if_empty (suc n) [] names = refl
  settled-if_empty zero (x ∷ l) names = refl
  settled-if_empty (suc n) (x ∷ l) names = refl

  pub children-IsWellFormed :
      (n : ℕ) (name : CString) (map : List (Item V (suc n)))
      → IsWellFormed V (suc n) map
      → (found : Option (List (Item V n))) → find_child name map ≡ found
      → IsWellFormed V n (children name map)
  children-IsWellFormed n name map h none e = rw e (IsWellFormed-nil V n)
  children-IsWellFormed n name map h (some child) e =
      rw e (find_child-IsMap (IsWellFormed V n) name child map h e).1

  -- On a well-formed symbol map remove_always_return_values takes the satisfied entry off the queue
  -- of every path of names, and does nothing else to the queues.
  pub queue-remove_always_return_values :
      (n : ℕ) (map : List (Item V n)) (names : Names n)
      → IsWellFormed V n map
      → queue n (remove_always_return_values V n map) names ≡ settled (queue n map names)
  unfolding remove_always_return_values
  queue-remove_always_return_values zero [] names h = refl
  queue-remove_always_return_values zero (node ∷ rest) names h = refl
  queue-remove_always_return_values (suc n) map (name, names) h =
      ap (λ l. queue n l names)
        (children-clean_children (remove_always_return_values V n) (IsWellFormed V n) name map h)
      ∙ settled-if_empty n (children name map) names
      ∙ queue-remove_always_return_values n (children name map) names
          (children-IsWellFormed n name map h _ refl)

  pub remove_always_return_values-IsWellFormed :
      (n : ℕ) (map : List (Item V n))
      → IsWellFormed V n map
      → IsWellFormed V n (remove_always_return_values V n map)
  unfolding remove_always_return_values
  remove_always_return_values-IsWellFormed zero values h = tt
  remove_always_return_values-IsWellFormed (suc n) map h =
      clean_children-IsMap (remove_always_return_values V n) (IsWellFormed V n) map
        (remove_always_return_values-IsWellFormed n) h

  -- A map that is not empty has a queue that is not empty.
  some_queue :
      (n : ℕ) (map : List (Item V n))
      → IsWellFormed V n map
      → list_empty map ≡ false
      → (names : Names n) × (list_empty (queue n map names) ≡ false)
  unfolding find_child
  some_queue n [] h full = cc
  some_queue zero (node ∷ rest) h full = (tt, refl)
  some_queue (suc n) (m ∷ map) (fresh, child_full, good, h) full =
      let (names, e) = some_queue n m.symbol_values_list_head good child_full in
      ((m.symbol_name, names), rw (str_eq_refl m.symbol_name) e)

  -- check_for_leftover_values counts nothing exactly if every queue is empty.
  pub check_for_leftover_values_iff :
      (n : ℕ) (map : List (Item V (suc n)))
      → IsWellFormed V (suc n) map
      → ((check_for_leftover_values map == 0) ≡ true)
        ↔ ((names : Names (suc n)) → queue (suc n) map names ≡ [])
  unfolding check_for_leftover_values
  check_for_leftover_values_iff n [] h = (λ e names. queue-nil V (suc n) names, λ q. refl)
  check_for_leftover_values_iff n (m ∷ map) (fresh, full, good, h) = (
    λ e. ground arith,
    λ q. let (names, e) = some_queue (suc n) (m ∷ map) (fresh, full, good, h) refl in cc (q names),
  )
