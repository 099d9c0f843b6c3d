-- ===== src/Lists/Remove.antt =====
-- Taking a node off a list.
use cmocka.Prelude.{
  ℕ, Bool, true, false, ◌==◌, List, [], ◌∷◌, ◌++◌, ◌≡◌, refl, arith, All, if◌then◌else◌, some,
}
use cmocka.Lists.{Nodes, update, list_remove, list_remove_free}
use cmocka.Lists.Ring.{has, IsDistinct, Links, IsList, all-has, has-append}
use cmocka.Lists.Ring.{get_prev-ok, get_next-ok, get_value-ok, set_next-ok, set_prev-ok, free-ok}

-- Links that are written elsewhere.
Links-frame :
    (next prev : ℕ → ℕ) (before after n q head p : ℕ) (nodes : List ℕ)
    → Links next prev head p nodes
    → has before (p ∷ nodes) ≡ false
    → has after nodes ≡ false
    → (after == head) ≡ false
    → Links (update next before n) (update prev after q) head p nodes
Links-frame next prev before after n q head p [] l o u ne = (ground arith, ground arith)
Links-frame next prev before after n q head p (a ∷ nodes) l o u ne = (
  ground arith,
  ground arith,
  Links-frame next prev before after n q head a nodes l.2 (ground arith) (ground arith) ne,
)

module _ (next prev : ℕ → ℕ) (head a : ℕ) (ys : List ℕ) where
  before-has :
      (p : ℕ) (xs : List ℕ) → Links next prev head p (xs ++ a ∷ ys) → has (prev a) (p ∷ xs) ≡ true
  before-has p [] l = ground arith
  before-has p (x ∷ xs) l = ground (arith, before-has x xs l.2)

  after-has :
      (p : ℕ) (xs : List ℕ)
      → Links next prev head p (xs ++ a ∷ ys)
      → has (next a) (head ∷ ys) ≡ true
  after-has p (x ∷ xs) l = after-has x xs l.2
  after-has p [] l = first_of ys l.2
    where
      first_of : (zs : List ℕ) → Links next prev head a zs → has (next a) (head ∷ zs) ≡ true
      first_of [] k = ground arith
      first_of (z ∷ zs) k = ground arith

  bridge :
      (p : ℕ) (zs : List ℕ)
      → next p ≡ a
      → prev a ≡ p
      → Links next prev head a zs
      → IsDistinct zs
      → has p zs ≡ false
      → has head zs ≡ false
      → Links (update next (prev a) (next a)) (update prev (next a) (prev a)) head p zs
  bridge p [] e f l d o u = (ground arith, ground arith)
  bridge p (z ∷ zs) e f l d o u = (
    ground arith,
    ground arith,
    Links-frame next prev (prev a) (next a) (next a) (prev a) head z zs l.2 (ground arith)
        (ground arith) (ground arith),
  )

  Links-remove :
      (p : ℕ) (xs : List ℕ)
      → Links next prev head p (xs ++ a ∷ ys)
      → IsDistinct (p ∷ xs ++ a ∷ ys)
      → has head (xs ++ a ∷ ys) ≡ false
      → Links (update next (prev a) (next a)) (update prev (next a) (prev a)) head p (xs ++ ys)
  Links-remove p [] l d o = bridge p ys l.0 l.1 l.2 d.1.1 (ground arith) (ground arith)
  Links-remove p (x ∷ xs) l d o =
      let before = before-has x xs l.2 in
      let after = after-has x xs l.2 in
      (
        ground (arith, has-append p xs (a ∷ ys)),
        ground (arith, has-append x xs (a ∷ ys)),
        Links-remove x xs l.2 d.1 (ground arith),
      )

has-mid : (xs : List ℕ) (a : ℕ) (ys : List ℕ) → has a (xs ++ a ∷ ys) ≡ true
has-mid xs a ys = ground (arith, has-append a xs (a ∷ ys))

has-outer :
    (b : ℕ) (xs : List ℕ) (a : ℕ) (ys : List ℕ)
    → has b (xs ++ a ∷ ys) ≡ false
    → has b (xs ++ ys) ≡ false
has-outer b xs a ys out = ground (arith, has-append b xs (a ∷ ys), has-append b xs ys)

IsDistinct-outer :
    (xs : List ℕ) (a : ℕ) (ys : List ℕ)
    → IsDistinct (xs ++ a ∷ ys)
    → IsDistinct (xs ++ ys) × (has a (xs ++ ys) ≡ false)
IsDistinct-outer [] a ys d = (d.1, d.0)
IsDistinct-outer (x ∷ xs) a ys d =
    let (rest, out) = IsDistinct-outer xs a ys d.1 in
    ((has-outer x xs a ys d.0, rest), ground (arith, has-append x xs (a ∷ ys)))

alive-outer :
    (live : ℕ → Bool) (xs : List ℕ) (a : ℕ) (ys : List ℕ)
    → All (λ b. live b ≡ true) (xs ++ a ∷ ys)
    → has a (xs ++ ys) ≡ false
    → All (λ b. update live a false b ≡ true) (xs ++ ys)
alive-outer live [] a [] h out = tt
alive-outer live [] a (y ∷ ys) h out =
    (ground arith, alive-outer live [] a ys (h.0, h.1.1) (ground arith))
alive-outer live (x ∷ xs) a ys h out = (ground arith, alive-outer live xs a ys h.1 (ground arith))

-- list_remove_free takes a node out of a doubly linked list, wherever it stands: the links lead
-- round through the others and back, that node and no other is freed, and its value is given to the
-- cleanup function where there is one.
pub list_remove_free-IsList :
    (h : Nodes) (head : ℕ) (xs : List ℕ) (a : ℕ) (ys : List ℕ) (cleanup_value : Bool)
    → IsList h head (xs ++ a ∷ ys)
    → (h' : Nodes) × (list_remove_free a cleanup_value h ≡ some (tt, h'))
      × IsList h' head (xs ++ ys)
      × (h'.live ≡ update h.live a false)
      × (h'.value ≡ h.value)
      × (h'.refcount ≡ h.refcount)
      × (h'.cleaned ≡ (if cleanup_value then h.cleaned ++ h.value a ∷ [] else h.cleaned))
unfolding list_remove_free list_remove
list_remove_free-IsList h head xs a ys cleanup_value list =
    let before = h.prev a in
    let after = h.next a in
    let here : h.live a ≡ true =
      all-has (λ b. h.live b ≡ true) a (xs ++ a ∷ ys) list.alive.1 (has-mid xs a ys) in
    let i = before-has h.next h.prev head a ys head xs list.linked in
    let j = after-has h.next h.prev head a ys head xs list.linked in
    let before_alive : h.live before ≡ true =
      all-has (λ b. h.live b ≡ true) before (head ∷ xs ++ a ∷ ys) list.alive
        (ground (arith, has-append before xs (a ∷ ys))) in
    let after_alive : h.live after ≡ true =
      all-has (λ b. h.live b ≡ true) after (head ∷ xs ++ a ∷ ys) list.alive
        (ground (arith, has-append after xs (a ∷ ys))) in
    let outer = IsDistinct-outer (head ∷ xs) a ys list.distinct in
    let apart : (a == before) ≡ false = ground (arith, has-append a xs ys) in
    let h₁ = record h { next = update h.next before after } in
    let h₂ = record h₁ { prev = update h.prev after before } in
    let h₃ = record h₂ {
      cleaned = if cleanup_value then h.cleaned ++ h.value a ∷ [] else h.cleaned;
    } in
    (
      record h₃ { live = update h.live a false },
      rw (get_next-ok h a here, get_prev-ok h a here, set_next-ok h before before_alive after)
          (rw (get_prev-ok h₁ a here, get_next-ok h₁ a here, apart)
            (rw (set_prev-ok h₁ after after_alive before, get_value-ok h₂ a here)
              (rw (free-ok h₃ a here)))),
      record {
        linked =
            Links-remove h.next h.prev head a ys head xs list.linked list.distinct list.distinct.0;
        distinct = outer.0;
        alive = alive-outer h.live (head ∷ xs) a ys list.alive outer.1;
      },
      refl,
      refl,
      refl,
      refl,
    )
