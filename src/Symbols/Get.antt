-- ===== src/Symbols/Get.antt =====
-- get_symbol_value hands out the value at the head of one queue.
use cmocka.Prelude.{subst, ℕ, zero, suc, ◌≡◌, refl, true, false, Option, none, some}
use cmocka.Prelude.{List, [], ◌∷◌, CString, str_eq, str_eq_sound, str_eq_refl}
use cmocka.Prelude.{Bool-cases, inl, inr, if◌then◌else◌, arith}
use cmocka.Prelude.Int.{ℤ, pos, negsuc}
use cmocka.State.{ListNode, SymbolMapValue}
use cmocka.Symbols.{Item, Names, list_empty, find_child, put_back, get_symbol_value, hand_out}
use cmocka.Symbols.{Got, found, missing, no_value, enter_child, leave_child, first_value}
use cmocka.Symbols.Queue.{queue, after_one, same_names, IsWellFormed, IsMap, queue-nil, children}
use cmocka.Symbols.Queue.{IsFresh-put_back, children-IsFresh}

module _ {ℓ} {X : Type ℓ} where
  pub empty_nil : (l : List X) → list_empty l ≡ true → l ≡ []
  empty_nil [] h = refl
  empty_nil (x ∷ l) h = cc

  children-put_back :
      (P : List X → Type 0) (j name : CString) (child old : List X)
      (map : List (SymbolMapValue (List X)))
      → IsMap P map
      → find_child name map ≡ some old
      → children j (put_back name child map) ≡ (if str_eq name j then child else children j map)
  unfolding put_back find_child
  children-put_back P j name child old [] h e = cc
  children-put_back P j name child old (m ∷ map) (fresh, full, good, h) e = ground (
    arith,
    children-put_back P j name child old map h,
    children-IsFresh j map,
    empty_nil child,
    str_eq_sound m.symbol_name name,
    str_eq_sound name j,
    str_eq_sound m.symbol_name j,
    str_eq_refl name,
    str_eq_refl j,
  )

  put_back_same :
      (name : CString) (child : List X) (map : List (SymbolMapValue (List X)))
      → list_empty child ≡ false
      → find_child name map ≡ some child
      → put_back name child map ≡ map
  unfolding put_back find_child
  put_back_same name child [] full e = cc
  put_back_same name child (m ∷ map) full e = ground (arith, put_back_same name child map full)

  put_back-IsMap :
      (P : List X → Type 0) (name : CString) (child : List X) (map : List (SymbolMapValue (List X)))
      → P child
      → IsMap P map
      → IsMap P (put_back name child map)
  unfolding put_back
  put_back-IsMap P name child [] p h = tt
  put_back-IsMap P name child (m ∷ map) p (fresh, full, good, h) =
      elim (Bool-cases (str_eq m.symbol_name name)) [
        | inl e ↦ elim (Bool-cases (list_empty child)) [
          | inl none_left ↦ rw (e, none_left) h
          | inr left ↦ rw (e, left) (fresh, left, p, h)
        ]
        | inr e ↦ rw e (
          IsFresh-put_back m.symbol_name name child map fresh,
          full,
          good,
          put_back-IsMap P name child map p h,
        )
      ]

  pub find_child-IsMap :
      (P : List X → Type 0) (name : CString) (child : List X) (map : List (SymbolMapValue (List X)))
      → IsMap P map
      → find_child name map ≡ some child
      → (list_empty child ≡ false) × P child
  unfolding find_child
  find_child-IsMap P name child [] h e = cc
  find_child-IsMap P name child (m ∷ map) (fresh, full, good, h) e =
      elim (Bool-cases (str_eq m.symbol_name name)) [
        | inl same ↦
            let at_head : m.symbol_values_list_head ≡ child = ground arith in
            subst (λ l. (list_empty l ≡ false) × P l) at_head (full, good)
        | inr other ↦ find_child-IsMap P name child map h (rw other at e)
      ]

module _ {V : Type 0} where
  hand_out-eq-after_one :
      (value : V) (refcount : ℤ) (rest : List (ListNode V))
      → hand_out (record { value = value; refcount = refcount }) rest
        ≡ after_one value refcount rest
  unfolding hand_out
  hand_out-eq-after_one value (pos zero) rest = refl
  hand_out-eq-after_one value (pos (suc zero)) rest = refl
  hand_out-eq-after_one value (pos (suc (suc k))) rest = ground arith
  hand_out-eq-after_one value (negsuc zero) rest = refl
  hand_out-eq-after_one value (negsuc (suc k)) rest = ground arith

  -- What get_symbol_value answers for a map and a path of names: the head of that queue, or that the
  -- queue is empty; never the failed assertion.
  abbrev pub Answers : (n : ℕ) → List (Item V n) → Names n → Got V (List (Item V n)) → Type 0
  Answers n map names (found rc value map') =
      (rest : List (ListNode V)) × (queue n map names
        ≡ record { value = value; refcount = rc } ∷ rest)
      × ((others : Names n)
          → queue n map' others
            ≡ (if same_names n names others then after_one value rc rest else queue n map others))
      × IsWellFormed V n map'
  Answers n map names (missing name map') = (queue n map names ≡ []) × (map' ≡ map)
  Answers n map names no_value = ⊥

  -- The values themselves, where there is one.
  first_value-Answers :
      (values : List (ListNode V))
      → list_empty values ≡ false
      → Answers 0 values tt (first_value values)
  unfolding first_value
  first_value-Answers [] h = cc
  first_value-Answers (node ∷ rest) h =
      (rest, refl, λ _. hand_out-eq-after_one node.value node.refcount rest, tt)

  leave_child-Answers :
      (n : ℕ) (name : CString) (names : Names n) (child : List (Item V n))
      (map : List (Item V (suc n)))
      → IsWellFormed V (suc n) map
      → list_empty child ≡ false
      → find_child name map ≡ some child
      → (got : Got V (List (Item V n))) → Answers n child names got
      → Answers (suc n) map (name, names) (leave_child name map got)
  unfolding leave_child
  leave_child-Answers n name names child map h full e (found rc value child')
        (rest, q, others, h') =
      (rest, rw e q, queue_left, put_back-IsMap (IsWellFormed V n) name child' map h' h)
    where
      queue_left :
          (others' : Names (suc n))
          → queue (suc n) (put_back name child' map) others' ≡ (
              if same_names (suc n) (name, names) others'
              then after_one value rc rest
              else queue (suc n) map others')
      queue_left (j, js) = elim (Bool-cases (str_eq name j)) [
        | inl eq ↦
            rw (children-put_back (IsWellFormed V n) j name child' child map h e, eq)
              (rw (← str_eq_sound name j eq) (rw e (others js)))
        | inr ne ↦ rw (children-put_back (IsWellFormed V n) j name child' child map h e, ne)
      ]
  leave_child-Answers n name names child map h full e (missing symbol child') (q, same) =
      (rw e q, rw same (put_back_same name child map full e))
  leave_child-Answers n name names child map h full e no_value a = a

module _ (V : Type 0) where
  enter_child-Answers :
      (n : ℕ) (name : CString) (names : Names n) (map : List (Item V (suc n)))
      → IsWellFormed V (suc n) map
      → ((child : List (Item V n))
          → list_empty child ≡ false
          → IsWellFormed V n child
          → Answers n child names (get_symbol_value n child names))
      → (target : Option (List (Item V n))) → find_child name map ≡ target
      → Answers
          (suc n)
          map
          (name, names)
          (enter_child name (λ child. get_symbol_value n child names) map target)
  unfolding enter_child
  enter_child-Answers n name names map h ih none e = (rw e (queue-nil V n names), refl)
  enter_child-Answers n name names map h ih (some child) e =
      let (full, good) = find_child-IsMap (IsWellFormed V n) name child map h e in
      leave_child-Answers n name names child map h full e _ (ih child full good)

  -- At a list that is not empty, or at a map.
  below-Answers :
      (n : ℕ) (map : List (Item V n)) (names : Names n)
      → list_empty map ≡ false
      → IsWellFormed V n map
      → Answers n map names (get_symbol_value n map names)
  unfolding get_symbol_value
  below-Answers zero values names full h = first_value-Answers values full
  below-Answers (suc n) map (name, names) full h =
      enter_child-Answers n name names map h (λ child. below-Answers n child names)
        (find_child name map) refl

  -- On a well-formed symbol map get_symbol_value hands out the head of the queue of its names with
  -- its count, takes one use off that queue and leaves every other queue alone; if the queue is
  -- empty it answers so and changes nothing; the internal assertion never fails, and the map stays
  -- well formed.
  pub get_symbol_value-Answers :
      (n : ℕ) (map : List (Item V (suc n))) (names : Names (suc n))
      → IsWellFormed V (suc n) map
      → Answers (suc n) map names (get_symbol_value (suc n) map names)
  unfolding get_symbol_value
  get_symbol_value-Answers n map (name, names) h =
      enter_child-Answers n name names map h (λ child. below-Answers n child names)
        (find_child name map) refl
