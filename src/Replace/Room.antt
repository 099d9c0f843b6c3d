-- ===== src/Replace/Room.antt =====
-- The room that c_strreplace asks for, and the search behind a replacement.
use cmocka.Prelude.{ℕ, ◌+◌, ◌≤◌, ◌<◌, true, ◌∷◌, ◌++◌, CString, max}
use cmocka.Prelude.{ltb, length, drop, ◌≡◌, ap, ◌∙◌, arith, length-append, Bool-cases, inl, inr}
use cmocka.Replace.{Buffer, Replacement, string_in, strstr, add_offset, find_from}
use cmocka.Replace.Bytes.{IsString, string_in-terminated, drop-append, drop-add}
use cmocka.Replace.Found.{replaced, length-replaced}

-- The pattern is `q ∷ qs`.
module _ (q : ℕ) (qs repl : CString) where
  -- What is left of `size` bytes once the string is in them.
  abbrev pub HasRoom : ℕ → CString → Type 0
  HasRoom size s = length s + max (length (q ∷ qs)) (length repl) + 1 < size

  -- The end of the loop: the buffer keeps its size and holds a string; where the answer is true it is
  -- `result`, and the answer is true where the strings before and after leave room.
  abbrev pub Ends : ℕ → CString → CString → Replacement → Type 0
  Ends size before result r =
      (length r.buffer ≡ size)
      × (r.returned ≡ true → string_in r.buffer ≡ result)
      × ((s : CString) × (junk : Buffer) × (r.buffer ≡ s ++ 0 ∷ junk) × IsString s)
      × (HasRoom size before → HasRoom size result → r.returned ≡ true)

  pub room_kept :
      (size : ℕ) (a t : CString)
      → HasRoom size (a ++ ((q ∷ qs) ++ t))
      → HasRoom size (a ++ (repl ++ replaced (q ∷ qs) repl 0 t))
      → HasRoom size (a ++ (repl ++ t))
  room_kept size a t before after =
      let l₁ = length-append a ((q ∷ qs) ++ t) in
      let l₂ = length-append (q ∷ qs) t in
      let l₃ = length-append a (repl ++ replaced (q ∷ qs) repl 0 t) in
      let l₄ = length-append repl (replaced (q ∷ qs) repl 0 t) in
      let l₅ = length-append a (repl ++ t) in
      let l₆ = length-append repl t in
      elim (Bool-cases (ltb (length qs) (length repl))) [
        | inl longer ↦ let grown = length-replaced q qs repl 0 t (ground arith) in omega arith
        | inr shorter ↦ let shrunk : length repl ≤ length qs = ground arith in omega arith
      ]

  pub find_from_lem :
      (offset : ℕ) (a t junk : CString)
      → offset ≡ length a
      → IsString t
      → find_from (q ∷ qs) (offset + length repl) (a ++ (repl ++ (t ++ 0 ∷ junk)))
        ≡ add_offset (offset + length repl) (strstr (q ∷ qs) t)
  unfolding find_from
  find_from_lem offset a t junk at clean =
      let rest : drop (offset + length repl) (a ++ (repl ++ (t ++ 0 ∷ junk))) ≡ t ++ 0 ∷ junk =
        ap (λ n. drop (n + length repl) (a ++ (repl ++ (t ++ 0 ∷ junk)))) at
        ∙ drop-add a (length repl) (repl ++ (t ++ 0 ∷ junk))
        ∙ drop-append repl (t ++ 0 ∷ junk) in
      ap (λ l. add_offset (offset + length repl) (strstr (q ∷ qs) (string_in l))) rest
      ∙ ap (λ l. add_offset (offset + length repl) (strstr (q ∷ qs) l))
          (string_in-terminated t junk clean)
