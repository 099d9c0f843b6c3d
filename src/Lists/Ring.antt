-- ===== src/Lists/Ring.antt =====
-- What a list of nodes at addresses stands for.
use cmocka.Prelude.{
  ℕ, Bool, true, false, ◌||◌, ◌==◌, List, [], ◌∷◌, ◌++◌, ◌≡◌, refl, arith, All, map,
}
use cmocka.Prelude.Int.{ℤ}
use cmocka.Prelude.{Bool-cases, inl, inr, subst, sym, ==_iff}
use cmocka.Prelude.{some}
use cmocka.Lists.{Nodes, update, get_next, get_prev, get_value, set_next, set_prev, set_value, free}

abbrev pub has : ℕ → List ℕ → Bool
has a [] = false
has a (x ∷ xs) = a == x || has a xs

abbrev pub IsDistinct : List ℕ → Type 0
IsDistinct [] = Unit
IsDistinct (x ∷ xs) = (has x xs ≡ false) × IsDistinct xs

-- From `p` the links lead forward through the nodes to the head, and back.
abbrev pub Links : (ℕ → ℕ) → (ℕ → ℕ) → ℕ → ℕ → List ℕ → Type 0
Links next prev head p [] = (next p ≡ head) × (prev head ≡ p)
Links next prev head p (a ∷ nodes) = (next p ≡ a) × (prev a ≡ p) × Links next prev head a nodes

-- The nodes of the list at `head`, in order.
pub record IsList (h : Nodes) (head : ℕ) (nodes : List ℕ) : Type 0 where
  pub linked : Links h.next h.prev head head nodes
  pub distinct : IsDistinct (head ∷ nodes)
  pub alive : All (λ a. h.live a ≡ true) (head ∷ nodes)

-- What the list holds.
abbrev pub contents : Nodes → List ℕ → List (ℕ × ℤ)
contents h nodes = map (λ a. (h.value a, h.refcount a)) nodes

pub all-has : (P : ℕ → Type 0) (a : ℕ) (xs : List ℕ) → All P xs → has a xs ≡ true → P a
all-has P a [] h i = cc
all-has P a (x ∷ xs) h i = elim (Bool-cases (a == x)) [
  | inl e ↦ subst P (sym ((==_iff a x).0 e)) h.0
  | inr e ↦ all-has P a xs h.1 (rw e at i)
]

pub has-append : (a : ℕ) (xs ys : List ℕ) → has a (xs ++ ys) ≡ (has a xs || has a ys)
has-append a [] ys = refl
has-append a (x ∷ xs) ys = ground (arith, has-append a xs ys)

pub IsDistinct-append_one :
    (xs : List ℕ) (a : ℕ) → IsDistinct xs → has a xs ≡ false → IsDistinct (xs ++ a ∷ [])
IsDistinct-append_one [] a h out = (refl, tt)
IsDistinct-append_one (x ∷ xs) a h out =
    (ground (arith, has-append x xs (a ∷ [])), IsDistinct-append_one xs a h.1 (ground arith))

-- The node before the head is on the list, or the node that the list starts from.
pub last-has :
    (next prev : ℕ → ℕ) (head p : ℕ) (nodes : List ℕ)
    → Links next prev head p nodes
    → has (prev head) (p ∷ nodes) ≡ true
last-has next prev head p [] l = ground arith
last-has next prev head p (a ∷ nodes) l = ground (arith, last-has next prev head a nodes l.2)

module _ (h : Nodes) (p : ℕ) (alive : h.live p ≡ true) where
  pub get_next-ok : get_next p h ≡ some (h.next p, h)
  unfolding get_next
  get_next-ok = rw alive

  pub get_prev-ok : get_prev p h ≡ some (h.prev p, h)
  unfolding get_prev
  get_prev-ok = rw alive

  pub get_value-ok : get_value p h ≡ some (h.value p, h)
  unfolding get_value
  get_value-ok = rw alive

  pub set_next-ok : (q : ℕ) → set_next p q h ≡ some (tt, record h { next = update h.next p q })
  unfolding set_next
  set_next-ok q = rw alive

  pub set_prev-ok : (q : ℕ) → set_prev p q h ≡ some (tt, record h { prev = update h.prev p q })
  unfolding set_prev
  set_prev-ok q = rw alive

  pub set_value-ok :
      (v : ℕ) (rc : ℤ)
      → set_value p v rc h
        ≡ some (tt, record h { value = update h.value p v; refcount = update h.refcount p rc })
  unfolding set_value
  set_value-ok v rc = rw alive

  pub free-ok : free p h ≡ some (tt, record h { live = update h.live p false })
  unfolding free
  free-ok = rw alive
