-- ===== src/Replace/Loop.antt =====
-- The loop of c_strreplace, and what it leaves in its buffer.
use cmocka.Prelude.{
  ℕ, zero, suc, ◌+◌, ◌<◌, Bool, true, false, Option, none, some, ◌∷◌, ◌++◌, CString, max,
}
use cmocka.Prelude.{
  ◌==◌, leb, subst, length, ◌≡◌, refl, sym, ap, ap₂, ◌∙◌, arith, append_assoc, length-append,
  Bool-cases, inl, inr,
}
use cmocka.Replace.{
  Buffer, Replacement, string_in, strlen, strstr, add_offset, find_from, replace_at, replace_loop,
  replace_first, c_strreplace,
}
use cmocka.Replace.Bytes.{IsString, string_in-terminated}
use cmocka.Replace.Splice.{replace_at_lem}
use cmocka.Replace.Found.{replaced, IsString-parts, IsString-append, replaced-none, replaced_found}
use cmocka.Replace.Room.{HasRoom, Ends, room_kept, find_from_lem}

-- The pattern is `q ∷ qs`.
module _ (q : ℕ) (qs repl : CString) where
  abbrev Loops : ℕ → Type 0
  Loops fuel =
      (size offset : ℕ) (a t junk : CString) (str_replaced : Bool) (src : Buffer)
      → src ≡ a ++ ((q ∷ qs) ++ (t ++ 0 ∷ junk))
      → length src ≡ size
      → offset ≡ length a
      → IsString (a ++ ((q ∷ qs) ++ t))
      → length t < fuel
      → (r : Replacement) × (replace_loop fuel size (q ∷ qs) repl offset str_replaced src ≡ some r)
        × Ends q qs repl size (a ++ ((q ∷ qs) ++ t)) (a ++ (repl ++ replaced (q ∷ qs) repl 0 t)) r

  -- The rest of a round, once `next` holds the replacement and the following `strstr` has run.
  onward :
      (fuel size offset : ℕ) (a t junk : CString) (next : Buffer) (found : Option ℕ)
      → Loops fuel
      → next ≡ a ++ (repl ++ (t ++ 0 ∷ junk))
      → length next ≡ size
      → offset ≡ length a
      → IsString (a ++ (repl ++ t))
      → length t < suc fuel
      → strstr (q ∷ qs) t ≡ found
      → (r : Replacement) × ((elim (add_offset (offset + length repl) found)
            as (λ _. Option Replacement) [
              | none ↦ some (record { returned = true; buffer = next; str_replaced = true })
              | some p ↦ replace_loop fuel size (q ∷ qs) repl p true next
            ])
          ≡ some r)
        × Ends q qs repl size (a ++ ((q ∷ qs) ++ t)) (a ++ (repl ++ replaced (q ∷ qs) repl 0 t)) r
  onward fuel size offset a t junk next none loops e n at clean enough h =
      let whole : next ≡ (a ++ (repl ++ t)) ++ 0 ∷ junk = e ∙ simp append_assoc in
      (
        record { returned = true; buffer = next; str_replaced = true },
        refl,
        (
          n,
          (λ _.
              rw whole (string_in-terminated (a ++ (repl ++ t)) junk clean)
              ∙ ap (λ l. a ++ (repl ++ l)) (sym (replaced-none q qs repl t h))),
          (a ++ (repl ++ t), junk, whole, clean),
          (λ _ _. refl),
        ),
      )
  onward fuel size offset a t junk next (some k) loops e n at clean enough h =
      let (u, t', split, count, result) = replaced_found q qs repl t k h in
      let here : a ++ (repl ++ t) ≡ (a ++ (repl ++ u)) ++ ((q ∷ qs) ++ t') =
        ap (λ l. a ++ (repl ++ l)) split ∙ simp append_assoc in
      let joined : (a ++ (repl ++ u)) ++ (repl ++ replaced (q ∷ qs) repl 0 t')
          ≡ a ++ (repl ++ replaced (q ∷ qs) repl 0 t) =
        (simp append_assoc) ∙ ap (λ l. a ++ (repl ++ l)) (sym result) in
      let (r, run, ends) =
        loops size (offset + length repl + k) (a ++ (repl ++ u)) t' junk true next
          (e ∙ ap (λ l. a ++ (repl ++ (l ++ 0 ∷ junk))) split ∙ simp append_assoc) n
          (omega (arith, length-append a (repl ++ u), length-append repl u))
          (subst IsString here clean)
          (omega (
            arith,
            ap (λ (l : CString). length l) split,
            length-append u ((q ∷ qs) ++ t'),
            length-append (q ∷ qs) t',
          )) in
      (
        r,
        run,
        (
          ends.0,
          (λ y. ends.1 y ∙ joined),
          ends.2,
          λ before after.
              ends.3
                (subst (HasRoom q qs repl size) here (room_kept q qs repl size a t before after))
                (subst (HasRoom q qs repl size) (sym joined) after),
        ),
      )

  replace_loop_lem : IsString repl → (fuel : ℕ) → Loops fuel
  unfolding replace_loop
  replace_loop_lem clean_repl zero size offset a t junk str_replaced src e n at clean enough =
      absurd (omega arith)
  replace_loop_lem clean_repl (suc fuel) size offset a t junk str_replaced src e n at clean enough =
      let whole : src ≡ (a ++ ((q ∷ qs) ++ t)) ++ 0 ∷ junk = e ∙ simp append_assoc in
      let holds : string_in src ≡ a ++ ((q ∷ qs) ++ t) =
        rw whole (string_in-terminated (a ++ ((q ∷ qs) ++ t)) junk clean) in
      let strlen_is : strlen src ≡ length (a ++ ((q ∷ qs) ++ t)) =
        ap (λ (l : CString). length l) holds in
      elim (Bool-cases (leb size (strlen src + max (length (q ∷ qs)) (length repl) + 1))) [
        | inl full ↦ (
          record { returned = false; buffer = src; str_replaced = str_replaced },
          rw full,
          (n, (λ f. cc), (a ++ ((q ∷ qs) ++ t), junk, whole, clean), λ room _. ground arith),
        )
        | inr room ↦
            let left : strlen src + max (length (q ∷ qs)) (length repl) + 1 < size = ground arith in
            let parts = IsString-parts a ((q ∷ qs) ++ t) clean in
            let clean_t = (IsString-parts (q ∷ qs) t parts.1).1 in
            let whole_size : size ≡ length (a ++ ((q ∷ qs) ++ (t ++ 0 ∷ junk))) =
              sym n ∙ ap (λ (l : Buffer). length l) e in
            let fits : length (q ∷ qs)
                  + length t
                  + length a
                  + max (length (q ∷ qs)) (length repl)
                  + 1
                < length (a ++ ((q ∷ qs) ++ (t ++ 0 ∷ junk))) =
              omega (arith, length-append a ((q ∷ qs) ++ t), length-append (q ∷ qs) t) in
            let (junk', written, kept) = replace_at_lem (q ∷ qs) repl a t junk clean fits in
            let next = replace_at (q ∷ qs) repl offset src in
            let next_is : next ≡ a ++ (repl ++ (t ++ 0 ∷ junk')) =
              ap₂ (λ o b. replace_at (q ∷ qs) repl o b) at e ∙ written in
            let found : find_from (q ∷ qs) (offset + length repl) next
                ≡ add_offset (offset + length repl) (strstr (q ∷ qs) t) =
              rw next_is (find_from_lem q qs repl offset a t junk' at clean_t) in
            rw (room, found)
              (onward fuel size offset a t junk' next (strstr (q ∷ qs) t)
                (replace_loop_lem clean_repl fuel) next_is
                (ap (λ (l : Buffer). length l) next_is ∙ kept ∙ sym whole_size) at
                (IsString-append a (repl ++ t) parts.0 (IsString-append repl t clean_repl clean_t))
                enough refl)
      ]

module _ (q : ℕ) (qs repl s junk : CString) (str_replaced : Bool) (fuel : ℕ) where
  first_lem :
      (found : Option ℕ)
      → strstr (q ∷ qs) s ≡ found
      → IsString s
      → IsString repl
      → length s < fuel
      → (r : Replacement) × (replace_first fuel
            (length (s ++ 0 ∷ junk))
            (q ∷ qs)
            repl
            str_replaced
            (s ++ 0 ∷ junk)
            (add_offset 0 found)
          ≡ some r)
        × Ends q qs repl (length (s ++ 0 ∷ junk)) s (replaced (q ∷ qs) repl 0 s) r
  unfolding replace_first
  first_lem none e clean clean_repl enough = (
    record { returned = true; buffer = s ++ 0 ∷ junk; str_replaced = str_replaced },
    refl,
    (
      refl,
      (λ _. string_in-terminated s junk clean ∙ sym (replaced-none q qs repl s e)),
      (s, junk, refl, clean),
      λ _ _. refl,
    ),
  )
  first_lem (some k) e clean clean_repl enough =
      let (u, t, split, count, result) = replaced_found q qs repl s k e in
      let (r, run, ends) =
        replace_loop_lem q qs repl clean_repl fuel (length (s ++ 0 ∷ junk)) (0 + k) u t junk
          str_replaced (s ++ 0 ∷ junk) (ap (λ l. l ++ 0 ∷ junk) split ∙ simp append_assoc) refl
          (omega (arith, count)) (subst IsString split clean)
          (omega (
            arith,
            ap (λ (l : CString). length l) split,
            length-append u ((q ∷ qs) ++ t),
            length-append (q ∷ qs) t,
          )) in
      (
        r,
        run,
        (
          ends.0,
          (λ y. ends.1 y ∙ sym result),
          ends.2,
          λ before after.
              ends.3 (subst (HasRoom q qs repl (length (s ++ 0 ∷ junk))) split before)
                (subst (HasRoom q qs repl (length (s ++ 0 ∷ junk))) result after),
        ),
      )

  -- On a buffer that holds a string, with a pattern that is not empty and more fuel than the string
  -- has bytes, c_strreplace ends: the buffer keeps its size and holds a string; where the answer is
  -- true it is the one with every occurrence replaced from the left, and the answer is true where
  -- the buffer has room for the string before and the one after with another replacement.
  pub c_strreplace-replaced :
      IsString s
      → IsString repl
      → length s < fuel
      → (r : Replacement) × (c_strreplace fuel
            (some (s ++ 0 ∷ junk))
            (length (s ++ 0 ∷ junk))
            (some (q ∷ qs))
            (some repl)
            str_replaced
          ≡ some r)
        × Ends q qs repl (length (s ++ 0 ∷ junk)) s (replaced (q ∷ qs) repl 0 s) r
  unfolding c_strreplace find_from
  c_strreplace-replaced clean clean_repl enough =
      let some_bytes : (length (s ++ 0 ∷ junk) == 0) ≡ false =
        let l = length-append s (0 ∷ junk) in ground arith in
      rw (some_bytes, string_in-terminated s junk clean)
        (first_lem (strstr (q ∷ qs) s) refl clean clean_repl enough)
