-- ===== src/Replace/Found.antt =====
-- What c_strreplace is to make of a string, and what its first occurrence has to do with it.
use cmocka.Prelude.{
  ℕ, zero, suc, ◌+◌, ◌-◌, ◌≤◌, ◌<◌, false, Option, none, some, [], ◌∷◌, ◌++◌, CString,
}
use cmocka.Prelude.{
  if◌then◌else◌, ◌==◌, length, drop, ◌≡◌, refl, sym, ap, ◌∙◌, arith, length-append, Bool-cases, inl,
  inr, All-append,
}
use cmocka.Replace.{is_prefix, strstr, add_offset}
use cmocka.Replace.Bytes.{IsString, is_prefix-append, add_one_some, some_injective}

-- Every occurrence of the pattern, from the left and with no overlap, gives way to the replacement. The
-- number counts the bytes of an occurrence that are still to be passed over.
unfoldable pub replaced : CString → CString → ℕ → CString → CString
replaced pattern repl skip [] = []
replaced pattern repl (suc skip) (c ∷ s) = replaced pattern repl skip s
replaced pattern repl zero (c ∷ s) =
    let found = replaced pattern repl (length pattern - 1) s in
    let passed = replaced pattern repl 0 s in
    if is_prefix pattern (c ∷ s) then repl ++ found else c ∷ passed

pub IsString-parts : (xs ys : CString) → IsString (xs ++ ys) → IsString xs × IsString ys
IsString-parts [] ys h = (tt, h)
IsString-parts (x ∷ xs) ys h = let (left, right) = IsString-parts xs ys h.1 in ((h.0, left), right)

pub IsString-append : (xs ys : CString) → IsString xs → IsString ys → IsString (xs ++ ys)
IsString-append = All-append (λ c. (c == 0) ≡ false)

-- The pattern is `q ∷ qs`.
module _ (q : ℕ) (qs repl : CString) where
  replaced_skip :
      (n : ℕ) (s : CString) → replaced (q ∷ qs) repl n s ≡ replaced (q ∷ qs) repl 0 (drop n s)
  unfolding replaced
  replaced_skip zero s = refl
  replaced_skip (suc n) [] = refl
  replaced_skip (suc n) (c ∷ s) = replaced_skip n s

  pub replaced-none : (s : CString) → strstr (q ∷ qs) s ≡ none → replaced (q ∷ qs) repl 0 s ≡ s
  unfolding replaced strstr
  replaced-none [] h = refl
  replaced-none (c ∷ s) h = elim (Bool-cases (is_prefix (q ∷ qs) (c ∷ s))) [
    | inl e ↦ cc (rw e at h)
    | inr e ↦ rw e (ap (λ l. c ∷ l) (replaced-none s (no_later (strstr (q ∷ qs) s) (rw e at h))))
  ]
    where
      no_later : (o : Option ℕ) → add_offset 1 o ≡ none → o ≡ none
      no_later none e = refl
      no_later (some k) e = cc

  pub replaced_found :
      (s : CString) (k : ℕ)
      → strstr (q ∷ qs) s ≡ some k
      → (u : CString) × (t : CString) × (s ≡ u ++ ((q ∷ qs) ++ t))
        × (length u ≡ k)
        × (replaced (q ∷ qs) repl 0 s ≡ u ++ (repl ++ replaced (q ∷ qs) repl 0 t))
  unfolding replaced strstr
  replaced_found [] k h = cc
  replaced_found (c ∷ s) k h = elim (Bool-cases (is_prefix (q ∷ qs) (c ∷ s))) [
    | inl e ↦ (
      [],
      drop (length qs) s,
      is_prefix-append (q ∷ qs) (c ∷ s) e,
      some_injective (rw e at h),
      let m : suc (length qs) - 1 ≡ length qs = omega arith in
          rw (e, m) (ap (λ l. repl ++ l) (replaced_skip (length qs) s)),
    )
    | inr e ↦
        let (j, found, count) = add_one_some (strstr (q ∷ qs) s) k (rw e at h) in
        let (u, t, split, size, result) = replaced_found s j found in
        (
          c ∷ u,
          t,
          ap (λ l. c ∷ l) split,
          ap (λ n. suc n) size ∙ sym count,
          rw e (ap (λ l. c ∷ l) result),
        )
  ]

  -- A replacement that is at least as long makes no string shorter.
  pub length-replaced :
      (n : ℕ) (s : CString)
      → length qs < length repl
      → length s ≤ length (replaced (q ∷ qs) repl n s) + n
  unfolding replaced
  length-replaced n [] h = omega arith
  length-replaced (suc n) (c ∷ s) h = omega (arith, length-replaced n s h)
  length-replaced zero (c ∷ s) h =
      let m : suc (length qs) - 1 ≡ length qs = omega arith in
      elim (Bool-cases (is_prefix (q ∷ qs) (c ∷ s))) [
        | inl e ↦
            rw (e, m)
              (omega (
                arith,
                length-replaced (length qs) s h,
                length-append repl (replaced (q ∷ qs) repl (length qs) s),
              ))
        | inr e ↦ rw e (omega (arith, length-replaced zero s h))
      ]
