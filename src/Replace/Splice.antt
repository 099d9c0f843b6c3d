-- ===== src/Replace/Splice.antt =====
-- One round of c_strreplace on the bytes of its buffer.
use cmocka.Prelude.{ℕ, suc, ◌+◌, ◌-◌, ◌≤◌, ◌<◌, [], ◌∷◌, ◌++◌, max}
use cmocka.Prelude.{
  ◌==◌, length, take, drop, ◌≡◌, sym, ap, ◌∙◌, arith, append_assoc, length-append, Bool-cases, inl,
  inr, ==_iff,
}
use cmocka.Replace.{Buffer, memmove, memcpy_string, replace_at, strlen}
use cmocka.Replace.Bytes.{
  take-append, drop-append, length-take, length-drop, take-add, drop-add, IsString,
  string_in-terminated,
}

-- memcpy where as many bytes are written as stand there.
memcpy_same :
    (a old new rest : Buffer)
    → length new ≡ length old
    → memcpy_string (length a) new (a ++ (old ++ rest)) ≡ a ++ (new ++ rest)
unfolding memcpy_string
memcpy_same a old new rest e =
    rw (take-append a (old ++ rest), drop-add a (length new) (old ++ rest), e, drop-append old rest)

drop-at : (n : ℕ) (xs ys : Buffer) → length xs ≡ n → drop n (xs ++ ys) ≡ ys
drop-at n xs ys e = rw (← e) (drop-append xs ys)

-- memmove of what follows `old`, followed by memcpy of `new` in front of it.
memmove_memcpy :
    (a old new rest junk : Buffer) (n : ℕ)
    → n ≡ length rest
    → length a + length new ≤ length (a ++ (old ++ (rest ++ junk)))
    → memcpy_string
        (length a)
        new
        (memmove (length a + length new) (length a + length old) n (a ++ (old ++ (rest ++ junk))))
      ≡ a
        ++ (new
            ++ (rest ++ drop (length a + length new + length rest) (a ++ (old ++ (rest ++ junk)))))
unfolding memcpy_string memmove
memmove_memcpy a old new rest junk n e fits =
    let buffer = a ++ (old ++ (rest ++ junk)) in
    let moved = take (length a + length new) buffer in
    let w = rest ++ drop (length a + length new + length rest) buffer in
    let behind : drop (length a + length old) buffer ≡ rest ++ junk =
      drop-add a (length old) (old ++ (rest ++ junk)) ∙ drop-append old (rest ++ junk) in
    let middle : take n (drop (length a + length old) buffer) ≡ rest =
      rw (behind, e) (take-append rest junk) in
    let left : take (length a) (moved ++ w) ≡ a =
      ap (λ l. take (length a) (l ++ w)) (take-add a (length new) (old ++ (rest ++ junk)))
      ∙ ap (take (length a)) (append_assoc a (take (length new) (old ++ (rest ++ junk))) w)
      ∙ take-append a (take (length new) (old ++ (rest ++ junk)) ++ w) in
    let right : drop (length a + length new) (moved ++ w) ≡ w =
      drop-at (length a + length new) moved w (length-take (length a + length new) buffer fits) in
    rw (middle, e, left, right)

memmove_memcpy_in :
    (a old new rest junk : Buffer) (n : ℕ) (buffer : Buffer)
    → buffer ≡ a ++ (old ++ (rest ++ junk))
    → n ≡ length rest
    → length a + length new ≤ length buffer
    → memcpy_string
        (length a)
        new
        (memmove (length a + length new) (length a + length old) n buffer)
      ≡ a ++ (new ++ (rest ++ drop (length a + length new + length rest) buffer))
memmove_memcpy_in a old new rest junk n buffer same e fits =
    rw same (memmove_memcpy a old new rest junk n e (rw same at fits))

-- A round of c_strreplace: the pattern gives way to the replacement, and what follows is kept, with its
-- NUL and within the buffer.
pub replace_at_lem :
    (pattern repl a t junk : Buffer)
    → IsString (a ++ (pattern ++ t))
    → length pattern + length t + length a + max (length pattern) (length repl) + 1
      < length (a ++ (pattern ++ (t ++ 0 ∷ junk)))
    → (junk' : Buffer) × (replace_at pattern repl (length a) (a ++ (pattern ++ (t ++ 0 ∷ junk)))
        ≡ a ++ (repl ++ (t ++ 0 ∷ junk')))
      × (length (a ++ (repl ++ (t ++ 0 ∷ junk'))) ≡ length (a ++ (pattern ++ (t ++ 0 ∷ junk))))
unfolding replace_at
replace_at_lem pattern repl a t junk clean room =
    elim (Bool-cases (length repl == length pattern)) [
      | inl same ↦ (
        junk,
        rw same (memcpy_same a pattern repl (t ++ 0 ∷ junk) ((==_iff _ _).0 same)),
        (let count = (==_iff (length repl) (length pattern)).0 same in
            omega (
              arith,
              length-append {0} a (repl ++ (t ++ 0 ∷ junk)),
              length-append {0} repl (t ++ 0 ∷ junk),
              length-append {0} a (pattern ++ (t ++ 0 ∷ junk)),
              length-append {0} pattern (t ++ 0 ∷ junk),
            )),
      )
      | inr other ↦
          let buffer = a ++ (pattern ++ (t ++ 0 ∷ junk)) in
          let regroup = append_assoc t (0 ∷ []) junk in
          let terminated : buffer ≡ (a ++ (pattern ++ t)) ++ 0 ∷ junk = simp append_assoc in
          let size : strlen buffer ≡ length a + (length pattern + length t) = rw terminated (
            rw (string_in-terminated (a ++ (pattern ++ t)) junk clean)
              (omega (arith, length-append {0} a (pattern ++ t), length-append {0} pattern t))) in
          let total : length buffer ≡ length a + length pattern + length t + suc (length junk) =
            omega (
              arith,
              length-append {0} a (pattern ++ (t ++ 0 ∷ junk)),
              length-append {0} pattern (t ++ 0 ∷ junk),
              length-append {0} t (0 ∷ junk),
            ) in
          let count : length (t ++ 0 ∷ []) ≡ length t + 1 = length-append t (0 ∷ []) in
          let n = strlen buffer - length a - length pattern + 1 in
          let counted : n ≡ length (t ++ 0 ∷ []) = omega arith in
          let tail = drop (length a + length repl + length (t ++ 0 ∷ [])) buffer in
          let written =
            memmove_memcpy_in a pattern repl (t ++ 0 ∷ []) junk n buffer
              (ap (λ l. a ++ (pattern ++ l)) (sym regroup)) counted (omega arith) in
          (
            tail,
            rw other (written ∙ ap (λ l. a ++ (repl ++ l)) (append_assoc t (0 ∷ []) tail)),
            omega (
              arith,
              length-append {0} a (repl ++ (t ++ 0 ∷ tail)),
              length-append {0} repl (t ++ 0 ∷ tail),
              length-append {0} t (0 ∷ tail),
              length-drop {A = ℕ} (length a + length repl + length (t ++ 0 ∷ [])) buffer
                  (omega arith),
            ),
          )
    ]
