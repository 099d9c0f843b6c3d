-- ===== src/Compare/Memory/Areas.antt =====
-- What the comparisons of memory answer.
use cmocka.Prelude.{
  codes, ℕ, zero, suc, ◌+◌, ◌≤◌, ◌≡◌, refl, sym, ap, ◌∙◌, Bool, true, false, not, ◌&&◌, List, [],
  ◌∷◌, CString, if◌then◌else◌, ◌==◌, ltb, length, take, drop, max, arith, str_eq, Bool-cases, inl,
  inr,
}
use cmocka.State.{Global}
use cmocka.State.Run.{M}
use cmocka.Report.{cmocka_print_error}
use cmocka.Report.Quiet.{
  IsQuiet, pure-IsQuiet, cmocka_print_error-IsQuiet, when-IsQuiet, >>-IsQuiet,
}
use cmocka.Compare.Memory.{
  memcmp_equal, all_zero, print_ascii, print_hex, print_data_block16, print_data_diff_from,
  print_data_diff, count_same, memory_equal_display_error, memory_not_equal_display_error,
}
use cmocka.Compare.Verdicts.{Answers, >>-Answers, cmocka_print_error-returns}

if-IsQuiet : (b : Bool) (m n : M (Unit {0})) → IsQuiet m → IsQuiet n → IsQuiet (if b then m else n)
if-IsQuiet true m n q r = q
if-IsQuiet false m n q r = r

print_ascii-IsQuiet : (i : ℕ) (buf : List ℕ) → IsQuiet (print_ascii i buf)
unfolding print_ascii
print_ascii-IsQuiet i [] = pure-IsQuiet
print_ascii-IsQuiet i (b ∷ buf) =
    >>-IsQuiet _ _ (when-IsQuiet _ _ (cmocka_print_error-IsQuiet _ _))
      (>>-IsQuiet _ _ (cmocka_print_error-IsQuiet _ _) (print_ascii-IsQuiet (i + 1) buf))

print_hex-IsQuiet : (rounds i : ℕ) (buf : List ℕ) → IsQuiet (print_hex rounds i buf)
unfolding print_hex
print_hex-IsQuiet zero i buf = pure-IsQuiet
print_hex-IsQuiet (suc rounds) i [] =
    >>-IsQuiet _ _ (when-IsQuiet _ _ (cmocka_print_error-IsQuiet _ _))
      (>>-IsQuiet _ _ (cmocka_print_error-IsQuiet _ _) (print_hex-IsQuiet rounds (i + 1) []))
print_hex-IsQuiet (suc rounds) i (b ∷ buf) =
    >>-IsQuiet _ _ (when-IsQuiet _ _ (cmocka_print_error-IsQuiet _ _))
      (>>-IsQuiet _ _ (cmocka_print_error-IsQuiet _ _) (print_hex-IsQuiet rounds (i + 1) buf))

print_data_block16-IsQuiet :
    (prefix : CString) (idx : ℕ) (buf : List ℕ) → IsQuiet (print_data_block16 prefix idx buf)
unfolding print_data_block16
print_data_block16-IsQuiet prefix idx buf = >>-IsQuiet _ _ (cmocka_print_error-IsQuiet _ _) (
    >>-IsQuiet _ _ (print_hex-IsQuiet 16 0 buf) (
      >>-IsQuiet _ _ (cmocka_print_error-IsQuiet _ _) (
        if-IsQuiet (length buf == 0) _ _ (cmocka_print_error-IsQuiet _ _)
          (>>-IsQuiet _ _ (print_ascii-IsQuiet 0 buf) (cmocka_print_error-IsQuiet _ _)))))

print_data_diff_from-IsQuiet :
    (rounds i : ℕ) (rest1 rest2 : List ℕ) (omit skipped : Bool)
    → IsQuiet (print_data_diff_from rounds i rest1 rest2 omit skipped)
unfolding print_data_diff_from
print_data_diff_from-IsQuiet zero i rest1 rest2 omit skipped = pure-IsQuiet
print_data_diff_from-IsQuiet (suc rounds) i rest1 rest2 omit skipped =
    let next = λ (skipped : Bool).
      print_data_diff_from-IsQuiet rounds (i + 16) (drop 16 rest1) (drop 16 rest2) omit skipped in
    let this1 = take 16 rest1 in
    let this2 = take 16 rest2 in
    if-IsQuiet (length rest1 == 0 && length rest2 == 0) _ _ pure-IsQuiet (
      if-IsQuiet
        (omit
          && ltb 0 i
          && ltb 16 (max (length rest1) (length rest2))
          && length this1 == 16
          && all_zero this1
          && length this2 == 16
          && all_zero this2)
        _ _
        (>>-IsQuiet _ _
          (when-IsQuiet (not skipped) _
            (cmocka_print_error-IsQuiet "SKIPPING ZERO BUFFER BYTES\n" []))
          (next true))
        (if-IsQuiet (length this1 == length this2 && memcmp_equal this1 this2 (length this1)) _ _
          (>>-IsQuiet _ _ (print_data_block16-IsQuiet (codes "  ") i this1) (next false))
          (>>-IsQuiet _ _ (print_data_block16-IsQuiet (codes "- ") i this1)
            (>>-IsQuiet _ _ (print_data_block16-IsQuiet (codes "+ ") i this2) (next false)))))

print_data_diff-IsQuiet :
    (buf1 buf2 : List ℕ) (omit : Bool) → IsQuiet (print_data_diff buf1 buf2 omit)
unfolding print_data_diff
print_data_diff-IsQuiet buf1 buf2 omit =
    print_data_diff_from-IsQuiet (max (length buf1) (length buf2) + 1) 0 buf1 buf2 omit false

-- A quiet command returns.
quiet-Answers : (m : M (Unit {0})) (g : Global) → IsQuiet m → Answers tt (m g)
quiet-Answers m g q = let (message, lines, e) = q.prints g in (_, e)

module _ (a b : List ℕ) (size : ℕ) (g : Global) where
  pub memory_equal-Answers : Answers (memcmp_equal a b size) (memory_equal_display_error a b size g)
  unfolding memory_equal_display_error
  memory_equal-Answers = elim (Bool-cases (memcmp_equal a b size)) [
    | inl e ↦ rw e (g, refl)
    | inr e ↦ rw e (
        >>-Answers false (cmocka_print_error _ _) _ g (λ g₁. cmocka_print_error-returns _ _ g₁)
          λ g₁.
            >>-Answers false (print_data_diff (take size a) (take size b) true) _ g₁
              (λ g₂. quiet-Answers _ g₂ (print_data_diff-IsQuiet (take size a) (take size b) true))
              λ g₂.
                >>-Answers false (cmocka_print_error _ _) _ g₂
                  (λ g₃. cmocka_print_error-returns _ _ g₃) λ g₃. (g₃, refl))
  ]

count_same-le : (a b : List ℕ) → count_same a b ≤ length a
unfolding count_same
count_same-le [] b = ground arith
count_same-le (l ∷ a) [] = ground arith
count_same-le (l ∷ a) (r ∷ b) = ground (arith, count_same-le a b)

-- Two areas of one size agree at every place exactly if they are the same.
count_same-all : (a b : List ℕ) → length a ≡ length b → (count_same a b == length a) ≡ str_eq a b
unfolding count_same str_eq
count_same-all [] [] n = refl
count_same-all [] (r ∷ b) n = absurd (omega arith)
count_same-all (l ∷ a) [] n = absurd (omega arith)
count_same-all (l ∷ a) (r ∷ b) n =
    ground (arith, count_same-le a b, count_same-all a b (omega arith))

length-take_all : (n : ℕ) (xs : List ℕ) → n ≤ length xs → length (take n xs) ≡ n
length-take_all zero xs h = refl
length-take_all (suc n) [] h = absurd (omega arith)
length-take_all (suc n) (x ∷ xs) h = omega (arith, length-take_all n xs)

module _ (a b : List ℕ) (size : ℕ) (g : Global) (whole_a : size ≤ length a)
    (whole_b : size ≤ length b) where
  pub memory_not_equal-Answers :
      Answers (not (memcmp_equal a b size)) (memory_not_equal_display_error a b size g)
  unfolding memory_not_equal_display_error memcmp_equal
  memory_not_equal-Answers =
      let left = length-take_all size a whole_a in
      let right = length-take_all size b whole_b in
      let same = count_same-all (take size a) (take size b) (left ∙ sym right) in
      let agree : (count_same (take size a) (take size b) == size)
          ≡ str_eq (take size a) (take size b) =
        ap (λ n. count_same (take size a) (take size b) == n) (sym left) ∙ same in
      elim (Bool-cases (str_eq (take size a) (take size b))) [
        | inl e ↦
            rw (agree, e)
              (>>-Answers false (cmocka_print_error _ _) _ g
                (λ g₁. cmocka_print_error-returns _ _ g₁) λ g₁. (g₁, refl))
        | inr e ↦ rw (agree, e) (g, refl)
      ]
