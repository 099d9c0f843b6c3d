-- ===== src/Lists/Values.antt =====
-- The values of a list, and list_add_value.
use cmocka.Prelude.{
  ℕ, Bool, true, false, ◌||◌, ◌==◌, List, [], ◌∷◌, ◌++◌, ◌≡◌, ◌≢◌, ap₂, ◌∙◌, arith, All, map, some,
}
use cmocka.Prelude.Int.{ℤ}
use cmocka.Lists.{Nodes, update, list_add_value}
use cmocka.Lists.Ring.{has, IsList, contents, set_value-ok}
use cmocka.Lists.Edit.{list_add-append}

alive-update :
    (live : ℕ → Bool) (new : ℕ) (nodes : List ℕ)
    → All (λ a. live a ≡ true) nodes
    → All (λ a. update live new true a ≡ true) nodes
alive-update live new [] alive = tt
alive-update live new (a ∷ nodes) alive = (ground arith, alive-update live new nodes alive.1)

-- The values of the nodes, the new one with `v` and `rc` at their end.
contents-append_one :
    (value : ℕ → ℕ) (refcount : ℕ → ℤ) (new v : ℕ) (rc : ℤ) (nodes : List ℕ)
    → has new nodes ≡ false
    → map {B = ℕ × ℤ} (λ a. (update value new v a, update refcount new rc a)) (nodes ++ new ∷ [])
      ≡ map {B = ℕ × ℤ} (λ a. (value a, refcount a)) nodes ++ (v, rc) ∷ []
contents-append_one value refcount new v rc [] fresh =
    let same : (new == new) ≡ true = ground arith in rw same
contents-append_one value refcount new v rc (a ∷ nodes) fresh =
    let other : (a == new) ≡ false = ground arith in
    rw (other, contents-append_one value refcount new v rc nodes (ground arith))

-- When the value and the node from malloc are not NULL and the node is not on the list,
-- list_add_value puts the node at the end of a doubly linked list: the links lead round through all
-- its nodes and back, and the values are those from before with the new value and its count behind
-- them.
pub list_add_value-contents :
    (h : Nodes) (head value : ℕ) (refcount : ℤ) (new_node : ℕ) (nodes : List ℕ)
    → IsList h head nodes
    → value ≢ 0
    → new_node ≢ 0
    → has new_node (head ∷ nodes) ≡ false
    → (h' : Nodes) × (list_add_value head value refcount new_node h ≡ some (new_node, h'))
      × IsList h' head (nodes ++ new_node ∷ [])
      × (contents h' (nodes ++ new_node ∷ []) ≡ contents h nodes ++ (value, refcount) ∷ [])
unfolding list_add_value
list_add_value-contents h head value refcount new_node nodes list given answered fresh =
    let h₁ = record h { live = update h.live new_node true } in
    let h₂ = record h₁ {
      value = update h.value new_node value;
      refcount = update h.refcount new_node refcount;
    } in
    let list₂ : IsList h₂ head nodes = record {
      linked = list.linked;
      distinct = list.distinct;
      alive = alive-update h.live new_node (head ∷ nodes) list.alive;
    } in
    let there : h₁.live new_node ≡ true = ground arith in
    let (h', run, list', values, counts, _) =
      list_add-append h₂ head new_node nodes list₂ there fresh in
    let guard : ((value == 0) || (new_node == 0)) ≡ false = ground arith in
    (
      h',
      rw guard (rw (set_value-ok h₁ new_node there value refcount) run),
      list',
      ap₂ (λ (f : ℕ → ℕ) (r : ℕ → ℤ). map {B = ℕ × ℤ} (λ a. (f a, r a)) (nodes ++ new_node ∷ []))
            values counts
          ∙ contents-append_one h.value h.refcount new_node value refcount nodes (ground arith),
    )
