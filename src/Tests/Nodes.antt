-- ===== src/Tests/Nodes.antt =====
-- The linked lists at a concrete ring of nodes.
use cmocka.Prelude.{ℕ, ◌≡◌, refl, true, false, some, [], ◌∷◌, ◌++◌, if◌then◌else◌, ◌==◌, arith}
use cmocka.Prelude.Int.{pos}
use cmocka.Lists.{Nodes, update, list_add_value, list_remove_free, list_free}
use cmocka.Lists.Ring.{has, IsList, contents}
use cmocka.Lists.Remove.{list_remove_free-IsList}
use cmocka.Lists.Walk.{list_free_lem}
use cmocka.Lists.Values.{list_add_value-contents}

-- The head at 1, with nodes at 2 and 3 that hold 7 and 8.
abbrev ring : Nodes
ring = record {
  live = λ a. if a == 1 then true else if a == 2 then true else a == 3;
  value = λ a. if a == 2 then 7 else if a == 3 then 8 else 0;
  refcount = λ a. pos 1;
  next = λ a. if a == 1 then 2 else if a == 2 then 3 else 1;
  prev = λ a. if a == 1 then 3 else if a == 2 then 1 else 2;
  cleaned = [];
}

ring-IsList : IsList ring 1 (2 ∷ 3 ∷ [])
ring-IsList = record {
  linked = (refl, refl, (refl, refl, (refl, refl)));
  distinct = (refl, (refl, (refl, tt)));
  alive = (refl, (refl, (refl, tt)));
}

list_add_value-contents_example :
    (h' : Nodes) × (list_add_value 1 9 (pos 2) 4 ring ≡ some (4, h'))
    × IsList h' 1 (2 ∷ 3 ∷ 4 ∷ [])
    × (contents h' (2 ∷ 3 ∷ 4 ∷ []) ≡ contents ring (2 ∷ 3 ∷ []) ++ (9, pos 2) ∷ [])
list_add_value-contents_example =
    list_add_value-contents ring 1 9 (pos 2) 4 (2 ∷ 3 ∷ []) ring-IsList (λ e. cc) (λ e. cc) refl

list_remove_free-IsList_example :
    (h' : Nodes) × (list_remove_free 2 true ring ≡ some (tt, h'))
    × IsList h' 1 (3 ∷ [])
    × (h'.live ≡ update ring.live 2 false)
    × (h'.value ≡ ring.value)
    × (h'.refcount ≡ ring.refcount)
    × (h'.cleaned ≡ 7 ∷ [])
list_remove_free-IsList_example = list_remove_free-IsList ring 1 [] 2 (3 ∷ []) true ring-IsList

list_free_lem_example :
    (h' : Nodes) × (list_free 3 1 true ring ≡ some (tt, h'))
    × IsList h' 1 []
    × ((a : ℕ) → h'.live a ≡ (if has a (2 ∷ 3 ∷ []) then false else ring.live a))
    × (h'.cleaned ≡ 7 ∷ 8 ∷ [])
list_free_lem_example = list_free_lem 3 ring 1 (2 ∷ 3 ∷ []) true ring-IsList (omega arith)
