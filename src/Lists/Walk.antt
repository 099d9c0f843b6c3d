-- ===== src/Lists/Walk.antt =====
-- list_initialize and list_first, and the loops over a list: list_find and list_free.
use cmocka.Prelude.{
  ℕ, zero, suc, ◌<◌, Bool, true, false, ◌==◌, List, [], ◌∷◌, ◌++◌, ◌≡◌, refl, ap, arith, All, map,
  if◌then◌else◌, Option, some, none,
}
use cmocka.Prelude.{Bool-cases, inl, inr, length, append-nil, append_assoc}
use cmocka.Prelude.Int.{pos}
use cmocka.Lists.{
  Nodes, update, list_empty, list_first, list_free, list_find, find_from, list_initialize,
}
use cmocka.Lists.Ring.{
  has, Links, IsList, get_next-ok, get_value-ok, set_value-ok, set_next-ok, set_prev-ok,
}
use cmocka.Lists.Remove.{list_remove_free-IsList}

-- list_initialize makes a node the head of an empty list.
pub list_initialize-IsList :
    (h : Nodes) (node : ℕ)
    → h.live node ≡ true
    → (h' : Nodes) × (list_initialize node h ≡ some (node, h')) × IsList h' node []
unfolding list_initialize
list_initialize-IsList h node alive =
    let h₁ = record h {
      value = update h.value node 0;
      refcount = update h.refcount node (pos 1);
    } in
    let h₂ = record h₁ { next = update h.next node node } in
    (
      record h₂ { prev = update h.prev node node },
      rw (
        set_value-ok h node alive 0 (pos 1),
        set_next-ok h₁ node alive node,
        set_prev-ok h₂ node alive node,
      ),
      record { linked = (ground arith, ground arith); distinct = (refl, tt); alive = (alive, tt) },
    )

-- The first node, where there is one.
abbrev pub first_of : List ℕ → Option ℕ
first_of [] = none
first_of (a ∷ nodes) = some a

is_nil : List ℕ → Bool
is_nil [] = true
is_nil (a ∷ nodes) = false

list_empty_lem :
    (h : Nodes) (head : ℕ) (nodes : List ℕ)
    → IsList h head nodes
    → list_empty head h ≡ some (is_nil nodes, h)
unfolding list_empty is_nil
list_empty_lem h head [] list =
    let round : (h.next head == head) ≡ true = ground (arith, list.linked) in
    rw (get_next-ok h head list.alive.0, round)
list_empty_lem h head (a ∷ nodes) list =
    let round : (h.next head == head) ≡ false = ground (arith, list.linked, list.distinct) in
    rw (get_next-ok h head list.alive.0, round)

pub list_first_lem :
    (h : Nodes) (head : ℕ) (nodes : List ℕ)
    → IsList h head nodes
    → list_first head h ≡ some (first_of nodes, h)
unfolding list_first is_nil
list_first_lem h head [] list = rw (list_empty_lem h head [] list)
list_first_lem h head (a ∷ nodes) list =
    rw (list_empty_lem h head (a ∷ nodes) list)
      (rw (get_next-ok h head list.alive.0, list.linked.0))

-- The first node whose value passes the test.
abbrev pub first_with : (ℕ → ℕ) → (ℕ → Bool) → List ℕ → Option ℕ
first_with value test [] = none
first_with value test (a ∷ nodes) = if test (value a) then some a else first_with value test nodes

find_from_lem :
    (h : Nodes) (equal_func : ℕ → Bool) (fuel head p : ℕ) (nodes : List ℕ)
    → Links h.next h.prev head p nodes
    → has head nodes ≡ false
    → All (λ a. h.live a ≡ true) nodes
    → length nodes < fuel
    → find_from equal_func fuel head (h.next p) h ≡ some (first_with h.value equal_func nodes, h)
unfolding find_from
find_from_lem h equal_func zero head p nodes l o alive enough = absurd (omega arith)
find_from_lem h equal_func (suc fuel) head p [] l o alive enough =
    let round : (h.next p == head) ≡ true = ground arith in rw (round, find_from)
find_from_lem h equal_func (suc fuel) head p (a ∷ nodes) l o alive enough =
    let round : (a == head) ≡ false = ground arith in
    let ih =
      find_from_lem h equal_func fuel head a nodes l.2 (ground arith) alive.1 (omega arith) in
    rw l.0 (
      rw (round, find_from)
        (rw (get_value-ok h a alive.0) (elim (Bool-cases (equal_func (h.value a))) [
          | inl e ↦ rw e
          | inr e ↦ rw e (rw (get_next-ok h a alive.0) ih)
        ])))

-- On a doubly linked list of fewer nodes than the fuel, list_find ends with the first node whose
-- value passes the test, or with none where no value does, and changes nothing.
pub list_find-first_with :
    (h : Nodes) (equal_func : ℕ → Bool) (fuel head : ℕ) (nodes : List ℕ)
    → IsList h head nodes
    → length nodes < fuel
    → list_find equal_func fuel head h ≡ some (first_with h.value equal_func nodes, h)
unfolding list_find
list_find-first_with h equal_func fuel head nodes list enough =
    rw (get_next-ok h head list.alive.0) (
      find_from_lem h equal_func fuel head head nodes list.linked list.distinct.0 list.alive.1
        enough)

-- On a doubly linked list of fewer nodes than the fuel, list_free ends with the list empty, every
-- node of it freed and no other, and the values given to the cleanup function in order where there
-- is one.
pub list_free_lem :
    (fuel : ℕ) (h : Nodes) (head : ℕ) (nodes : List ℕ) (cleanup_value : Bool)
    → IsList h head nodes
    → length nodes < fuel
    → (h' : Nodes) × (list_free fuel head cleanup_value h ≡ some (tt, h'))
      × IsList h' head []
      × ((a : ℕ) → h'.live a ≡ (if has a nodes then false else h.live a))
      × (h'.cleaned ≡ (if cleanup_value then h.cleaned ++ map h.value nodes else h.cleaned))
unfolding list_free is_nil
list_free_lem zero h head nodes cleanup_value list enough = absurd (omega arith)
list_free_lem (suc fuel) h head [] cleanup_value list enough =
    (h, rw (list_empty_lem h head [] list), list, (λ a. refl), ground (arith, append-nil h.cleaned))
list_free_lem (suc fuel) h head (a ∷ nodes) cleanup_value list enough =
    let (h₁, e₁, list₁, live₁, value₁, _, cleaned₁) =
      list_remove_free-IsList h head [] a nodes cleanup_value list in
    let (h₂, e₂, list₂, live₂, cleaned₂) =
      list_free_lem fuel h₁ head nodes cleanup_value list₁ (omega arith) in
    (
      h₂,
      rw (list_empty_lem h head (a ∷ nodes) list)
          (rw (get_next-ok h head list.alive.0, list.linked.0) (rw (e₁, e₂))),
      list₂,
      (λ b. ground (arith, live₂ b, ap (λ (f : ℕ → Bool). f b) live₁)),
      ground (
        arith,
        append_assoc h.cleaned (h.value a ∷ []) (map h.value nodes),
        ap (λ (f : ℕ → ℕ). map f nodes) value₁,
      ),
    )
