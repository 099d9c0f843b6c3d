-- ===== src/Glob/Decides.antt =====
-- The loop of `c_strmatch` against `Matches`.
use cmocka.Prelude.{◌≡◌, ◌≢◌, ◌↔◌, inl, inr, refl, sym, ap, ℕ, Bool, true, some}
use cmocka.Prelude.{[], ◌∷◌, ◌++◌, arith, append-nil, CString, ◌==◌, Bool-cases, ==_iff}
use cmocka.Glob.{star, question, try_positions, after_star, after_byte, match, c_strmatch}
use cmocka.Glob.Matches.{Matches, empty, any_run, any_byte, same_byte, no_double_star}

-- A position where the recursive call succeeds is a split of the string.
try_positions_split :
    (call : CString → Bool) (str : CString)
    → try_positions call str ≡ true
    → (r : CString) × (t : CString) × (str ≡ r ++ t) × (call t ≡ true)
unfolding try_positions
try_positions_split call [] h = cc
try_positions_split call (c ∷ str) h = elim (Bool-cases (call (c ∷ str))) [
  | inl e ↦ ([], c ∷ str, refl, e)
  | inr e ↦
      let (r, t, split, found) = try_positions_split call str (rw e at h) in
      (c ∷ r, t, ap (λ l. c ∷ l) split, found)
]

try_positions_found :
    (call : CString → Bool) (r : CString) (c : ℕ) (t : CString)
    → call (c ∷ t) ≡ true
    → try_positions call (r ++ c ∷ t) ≡ true
unfolding try_positions
try_positions_found call [] c t h = rw h
try_positions_found call (x ∷ r) c t h = ground (arith, try_positions_found call r c t)

module _ (p : ℕ) (pattern : CString)
    (ih : (s : CString) → match pattern s ≡ true → Matches pattern s) where
  sound_star :
      (rest s : CString)
      → p ≡ star
      → pattern ≡ rest
      → after_star rest (match pattern) s ≡ true
      → Matches (p ∷ pattern) s
  unfolding after_star
  sound_star [] s e f h = any_run {t = []} p e (rw f empty) s (sym (append-nil s))
  sound_star (q ∷ rest) s e f h =
      let (r, t, split, found) = try_positions_split (match pattern) s h in
      any_run p e (ih t found) r split

  sound_byte :
      (s : CString) → p ≢ star → after_byte p (match pattern) s ≡ true → Matches (p ∷ pattern) s
  unfolding after_byte
  sound_byte [] ne h = cc
  sound_byte (c ∷ s) ne h = elim (Bool-cases (p == question)) [
    | inl e ↦ any_byte p c ((==_iff p question).0 e) (ih s (ground arith))
    | inr e ↦ let same : c ≡ p = ground arith in rw same (same_byte p ne (ih s (ground arith)))
  ]

match_sound : (p s : CString) → match p s ≡ true → Matches p s
unfolding match
match_sound [] [] h = empty
match_sound [] (c ∷ s) h = cc
match_sound (p ∷ pattern) s h = elim (Bool-cases (p == star)) [
  | inl e ↦
      sound_star p pattern (match_sound pattern) pattern s ((==_iff p star).0 e) refl (rw e at h)
  | inr e ↦ sound_byte p pattern (match_sound pattern) s (ground arith) (rw e at h)
]

complete_star :
    (p : ℕ) (pattern : CString) (r t : CString) (h : Matches pattern t)
    → p ≡ star
    → no_double_star (p ∷ pattern) ≡ true
    → match pattern t ≡ true
    → after_star pattern (match pattern) (r ++ t) ≡ true
unfolding after_star no_double_star
complete_star p [] r t h e n m = refl
complete_star p (q ∷ pattern) r [] (any_run q' f d r' g) e n m = ground arith
complete_star p (q ∷ pattern) r (c ∷ t) h e n m = try_positions_found (match (q ∷ pattern)) r c t m

no_double_star-tail :
    (p : ℕ) (pattern : CString)
    → no_double_star (p ∷ pattern) ≡ true
    → no_double_star pattern ≡ true
unfolding no_double_star
no_double_star-tail p [] n = refl
no_double_star-tail p (q ∷ pattern) n = ground arith

match_complete : {p s : CString} → Matches p s → no_double_star p ≡ true → match p s ≡ true
unfolding match
match_complete empty n = refl
match_complete (any_run {p = pattern} {s = s} {t = t} c e d r split) n =
    rw (e, split)
      (complete_star c pattern r t d e n (match_complete d (no_double_star-tail c pattern n)))
match_complete (any_byte {p = pattern} {s = s} q c e d) n =
    ground (arith, match_complete d (no_double_star-tail q pattern n))
match_complete (same_byte {p = pattern} {s = s} c ne d) n =
    ground (arith, match_complete d (no_double_star-tail c pattern n))

-- On a pattern without two adjacent stars, c_strmatch answers true exactly for the strings that
-- match it.
pub c_strmatch_iff :
    (s p : CString) → no_double_star p ≡ true → (c_strmatch (some s) (some p) ≡ true) ↔ Matches p s
unfolding c_strmatch
c_strmatch_iff s p n = (match_sound p s, λ d. match_complete d n)

-- On every pattern, a string that c_strmatch accepts matches the pattern.
pub c_strmatch_sound : (s p : CString) → c_strmatch (some s) (some p) ≡ true → Matches p s
unfolding c_strmatch
c_strmatch_sound s p = match_sound p s
