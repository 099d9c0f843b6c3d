-- ===== src/Lists.antt =====
-- The doubly linked lists of src/cmocka.c: nodes at addresses, and the list_* functions over them. The
-- head of a list is a node of its own, from which the links lead round and back. `none` is a fault: a read
-- or a write of a node that is not there, a failed assert_non_null, or fuel that has run out.
pub mod Ring
pub mod Edit
pub mod Remove
pub mod Walk
pub mod Values
use cmocka.Prelude.{
  ℕ, zero, suc, Bool, true, false, Option, none, some, List, [], ◌∷◌, ◌++◌, ◌||◌, if◌then◌else◌,
  ◌==◌,
}
use cmocka.Prelude.Int.{ℤ, pos}

-- The fields of the nodes by address, the addresses that hold a node, and the values that the cleanup
-- callback has been called with.
pub record Nodes : Type 0 where
  pub live : ℕ → Bool
  pub value : ℕ → ℕ
  pub refcount : ℕ → ℤ
  pub next : ℕ → ℕ
  pub prev : ℕ → ℕ
  pub cleaned : List ℕ

abbrev pub Cmd : Type 0 → Type 0
Cmd A = Nodes → Option (A × Nodes)

abbrev pub give : {A : Type 0} → A → Cmd A
give a h = some (a, h)

abbrev pub and_then : {A B : Type 0} → Option (A × Nodes) → (A → Cmd B) → Option (B × Nodes)
and_then none f = none
and_then (some (a, h)) f = f a h

infixl 5 ◌>>=◌ ◌>>◌
abbrev pub ◌>>=◌ : {A B : Type 0} → Cmd A → (A → Cmd B) → Cmd B
◌>>=◌ m f h = and_then (m h) f

abbrev pub ◌>>◌ : {B : Type 0} → Cmd (Unit {0}) → Cmd B → Cmd B
m >> k = m >>= λ _. k

abbrev pub update {ℓ} : {A : Type ℓ} → (ℕ → A) → ℕ → A → ℕ → A
update f p v q = if q == p then v else f q

-- A command that needs the node at `p`.
abbrev pub at_node : {A : Type 0} → ℕ → Cmd A → Cmd A
at_node p m h = if h.live p then m h else none

unfoldable pub get_next : ℕ → Cmd ℕ
get_next p = at_node p λ h. some (h.next p, h)

unfoldable pub get_prev : ℕ → Cmd ℕ
get_prev p = at_node p λ h. some (h.prev p, h)

unfoldable pub get_value : ℕ → Cmd ℕ
get_value p = at_node p λ h. some (h.value p, h)

unfoldable pub set_next : ℕ → ℕ → Cmd (Unit {0})
set_next p q = at_node p λ h. some (tt, record h { next = update h.next p q })

unfoldable pub set_prev : ℕ → ℕ → Cmd (Unit {0})
set_prev p q = at_node p λ h. some (tt, record h { prev = update h.prev p q })

unfoldable pub set_value : ℕ → ℕ → ℤ → Cmd (Unit {0})
set_value p v rc =
    at_node p
      λ h. some (tt, record h { value = update h.value p v; refcount = update h.refcount p rc })

-- `free(p)`
unfoldable pub free : ℕ → Cmd (Unit {0})
free p = at_node p λ h. some (tt, record h { live = update h.live p false })

unfoldable pub list_initialize : ℕ → Cmd ℕ
list_initialize node = do
  set_value node 0 (pos 1)
  set_next node node
  set_prev node node
  give node

unfoldable pub list_add : ℕ → ℕ → Cmd ℕ
list_add head new_node = do
  set_next new_node head
  last ← get_prev head
  set_prev new_node last
  before ← get_prev head
  set_next before new_node
  set_prev head new_node
  give new_node

-- `new_node` is what malloc returned.
unfoldable pub list_add_value : ℕ → ℕ → ℤ → ℕ → Cmd ℕ
unfolding list_add
list_add_value head value refcount new_node =
    if value == 0 || new_node == 0 then (λ h. none) else do
      λ h. some (tt, record h { live = update h.live new_node true })
      set_value new_node value refcount
      list_add head new_node

-- `if (cleanup_value) { cleanup_value(value); }`
abbrev pub clean_up : Bool → ℕ → Cmd (Unit {0})
clean_up cleanup_value value h =
    some (tt, record h { cleaned = if cleanup_value then h.cleaned ++ value ∷ [] else h.cleaned })

unfoldable pub list_remove : ℕ → Bool → Cmd ℕ
list_remove node cleanup_value = do
  after ← get_next node
  before ← get_prev node
  set_next before after
  before_it ← get_prev node
  after_it ← get_next node
  set_prev after_it before_it
  value ← get_value node
  clean_up cleanup_value value
  give node

unfoldable pub list_remove_free : ℕ → Bool → Cmd (Unit {0})
unfolding list_remove
list_remove_free node cleanup_value = do removed ← list_remove node cleanup_value; free removed

unfoldable pub list_empty : ℕ → Cmd Bool
list_empty head = do first ← get_next head; give (first == head)

-- The loop of list_free, on fuel.
unfoldable pub list_free : ℕ → ℕ → Bool → Cmd (Unit {0})
unfolding list_empty list_remove_free
list_free zero head cleanup_value = λ h. none
list_free (suc fuel) head cleanup_value = do
  empty ← list_empty head
  elim empty [
    | true ↦ give tt
    | false ↦ (do
      first ← get_next head
      list_remove_free first cleanup_value
      list_free fuel head cleanup_value)
  ]

-- The loop of list_find, on fuel, from `current` on.
unfoldable pub find_from : (ℕ → Bool) → ℕ → ℕ → ℕ → Cmd (Option ℕ)
find_from equal_func zero head current = λ h. none
find_from equal_func (suc fuel) head current = elim (current == head) [
  | true ↦ give none
  | false ↦ (do
    value ← get_value current
    elim (equal_func value) [
      | true ↦ give (some current)
      | false ↦ (do onward ← get_next current; find_from equal_func fuel head onward)
    ])
]

-- `*output` where the answer is true, and none where it is false.
unfoldable pub list_find : (ℕ → Bool) → ℕ → ℕ → Cmd (Option ℕ)
unfolding find_from
list_find equal_func fuel head = do first ← get_next head; find_from equal_func fuel head first

unfoldable pub list_first : ℕ → Cmd (Option ℕ)
unfolding list_empty
list_first head = do
  empty ← list_empty head
  if empty then give none else (do first ← get_next head; give (some first))
