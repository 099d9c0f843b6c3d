-- ===== src/Replace/Bytes.antt =====
-- Parts of buffers, and the string in a buffer.
use native.Mathlib.Nat.{zero-add}
use cmocka.Prelude.{
  ℕ, zero, suc, ◌+◌, ◌≤◌, true, false, Option, none, some, List, [], ◌∷◌, ◌++◌, CString,
}
use cmocka.Prelude.{
  ◌==◌, length, take, drop, ◌≡◌, refl, sym, ap, ◌∙◌, arith, All, Bool-cases, inl, inr,
}
use cmocka.Replace.{Buffer, add_offset, string_in, is_prefix, strstr}

module _ {A : Type 0} where
  pub take-append : (xs ys : List A) → take (length xs) (xs ++ ys) ≡ xs
  take-append [] ys = refl
  take-append (x ∷ xs) ys = ap (λ l. x ∷ l) (take-append xs ys)

  pub drop-append : (xs ys : List A) → drop (length xs) (xs ++ ys) ≡ ys
  drop-append [] ys = refl
  drop-append (x ∷ xs) ys = drop-append xs ys

  pub length-take : (n : ℕ) (xs : List A) → n ≤ length xs → length (take n xs) ≡ n
  length-take zero xs h = refl
  length-take (suc n) [] h = absurd (omega arith)
  length-take (suc n) (x ∷ xs) h = ap (λ k. suc k) (length-take n xs (omega arith))

  pub take-add :
      (xs : List A) (n : ℕ) (ys : List A) → take (length xs + n) (xs ++ ys) ≡ xs ++ take n ys
  take-add [] n ys = rw zero-add
  take-add (x ∷ xs) n ys =
      let e : suc (length xs) + n ≡ suc (length xs + n) = omega arith in
      rw e (ap (λ l. x ∷ l) (take-add xs n ys))

  pub drop-add : (xs : List A) (n : ℕ) (ys : List A) → drop (length xs + n) (xs ++ ys) ≡ drop n ys
  drop-add [] n ys = rw zero-add
  drop-add (x ∷ xs) n ys =
      let e : suc (length xs) + n ≡ suc (length xs + n) = omega arith in rw e (drop-add xs n ys)

  pub length-drop : (n : ℕ) (xs : List A) → n ≤ length xs → length (drop n xs) + n ≡ length xs
  length-drop zero xs h = omega arith
  length-drop (suc n) [] h = absurd (omega arith)
  length-drop (suc n) (x ∷ xs) h = omega (arith, length-drop n xs (omega arith))

-- The bytes of a string are not NUL.
abbrev pub IsString : CString → Type 0
IsString s = All (λ c. (c == 0) ≡ false) s

pub string_in-terminated :
    (s : CString) (junk : Buffer) → IsString s → string_in (s ++ 0 ∷ junk) ≡ s
unfolding string_in
string_in-terminated [] junk h = refl
string_in-terminated (c ∷ s) junk h = rw h.0 (ap (λ l. c ∷ l) (string_in-terminated s junk h.1))

pub is_prefix-append :
    (pattern s : CString) → is_prefix pattern s ≡ true → s ≡ pattern ++ drop (length pattern) s
unfolding is_prefix
is_prefix-append [] s h = refl
is_prefix-append (p ∷ pattern) [] h = cc
is_prefix-append (p ∷ pattern) (c ∷ s) h = ground (arith, is_prefix-append pattern s)

pub some_injective : {j k : ℕ} → some j ≡ some k → j ≡ k
some_injective e = cc

pub add_one_some :
    (o : Option ℕ) (k : ℕ) → add_offset 1 o ≡ some k → (j : ℕ) × (o ≡ some j) × (k ≡ suc j)
add_one_some none k h = cc
add_one_some (some j) k h = (j, refl, ground arith)

-- Where `strstr` finds the pattern.
pub strstr_found :
    (pattern s : CString) (k : ℕ)
    → strstr pattern s ≡ some k
    → (u : CString) × (t : CString) × (s ≡ u ++ (pattern ++ t)) × (length u ≡ k)
unfolding strstr
strstr_found pattern [] k h = elim (Bool-cases (is_prefix pattern [])) [
  | inl e ↦
      ([], drop (length pattern) [], is_prefix-append pattern [] e, some_injective (rw e at h))
  | inr e ↦ cc (rw e at h)
]
strstr_found pattern (c ∷ s) k h = elim (Bool-cases (is_prefix pattern (c ∷ s))) [
  | inl e ↦ (
    [],
    drop (length pattern) (c ∷ s),
    is_prefix-append pattern (c ∷ s) e,
    some_injective (rw e at h),
  )
  | inr e ↦
      let (j, found, count) = add_one_some (strstr pattern s) k (rw e at h) in
      let (u, t, split, size) = strstr_found pattern s j found in
      (c ∷ u, t, ap (λ l. c ∷ l) split, ap (λ n. suc n) size ∙ sym count)
]
