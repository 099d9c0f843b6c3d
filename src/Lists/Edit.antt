-- ===== src/Lists/Edit.antt =====
-- Adding a node to a list and removing one.
use cmocka.Prelude.{ℕ, true, false, ◌==◌, List, [], ◌∷◌, ◌++◌, ◌≡◌, refl, arith, some, All-append}
use cmocka.Lists.{Nodes, update, list_add}
use cmocka.Lists.Ring.{
  has, IsDistinct, Links, IsList, all-has, IsDistinct-append_one, last-has, get_prev-ok,
  set_next-ok, set_prev-ok,
}

-- The links once `new` has been put in front of the head.
Links-add :
    (next prev : ℕ → ℕ) (head new last p : ℕ) (nodes : List ℕ)
    → Links next prev head p nodes
    → prev head ≡ last
    → IsDistinct (p ∷ nodes)
    → has head nodes ≡ false
    → has new (p ∷ nodes) ≡ false
    → (new == head) ≡ false
    → Links
        (update (update next new head) last new)
        (update (update prev new last) head new)
        head
        p
        (nodes ++ new ∷ [])
Links-add next prev head new last p [] l e d out fresh ne =
    (ground arith, ground arith, (ground arith, ground arith))
Links-add next prev head new last p (a ∷ nodes) l e d out fresh ne =
    let behind = last-has next prev head a nodes l.2 in
    (
      ground arith,
      ground arith,
      Links-add next prev head new last a nodes l.2 e d.1 (ground arith) (ground arith) ne,
    )

-- list_add puts a node at the end of a list that it is not on.
pub list_add-append :
    (h : Nodes) (head new : ℕ) (nodes : List ℕ)
    → IsList h head nodes
    → h.live new ≡ true
    → has new (head ∷ nodes) ≡ false
    → (h' : Nodes) × (list_add head new h ≡ some (new, h'))
      × IsList h' head (nodes ++ new ∷ [])
      × (h'.value ≡ h.value)
      × (h'.refcount ≡ h.refcount)
      × (h'.live ≡ h.live)
unfolding list_add
list_add-append h head new nodes list alive fresh =
    let last = h.prev head in
    let last_alive : h.live last ≡ true =
      all-has (λ a. h.live a ≡ true) last (head ∷ nodes) list.alive
        (last-has h.next h.prev head head nodes list.linked) in
    let apart : (head == new) ≡ false = ground arith in
    let h₁ = record h { next = update h.next new head } in
    let h₂ = record h₁ { prev = update h.prev new last } in
    let h₃ = record h₂ { next = update h₁.next last new } in
    (
      record h₃ { prev = update h₂.prev head new },
      rw
          (
            set_next-ok h new alive head,
            get_prev-ok h₁ head list.alive.0,
            set_prev-ok h₁ new alive last,
          )
          (rw (get_prev-ok h₂ head list.alive.0, apart)
            (rw (set_next-ok h₂ last last_alive new) (rw (set_prev-ok h₃ head list.alive.0 new)))),
      record {
        linked =
            Links-add h.next h.prev head new last head nodes list.linked refl list.distinct
              list.distinct.0 fresh (ground arith);
        distinct = IsDistinct-append_one (head ∷ nodes) new list.distinct fresh;
        alive = All-append (λ a. h.live a ≡ true) (head ∷ nodes) (new ∷ []) list.alive (alive, tt);
      },
      refl,
      refl,
      refl,
    )
