-- ===== src/Glob/Matches.antt =====
-- What it means for a string to match a pattern, with no search order in it.
use cmocka.Prelude.{ℕ, ◌≡◌, ◌≢◌, Bool, true, not, ◌&&◌, [], ◌∷◌, ◌++◌}
use cmocka.Prelude.{CString, ◌==◌}

pub data Matches : CString → CString → Type 0 where
  empty : Matches [] []
  any_run :
      {p s t : CString} (c : ℕ)
      → c ≡ b'*'
      → Matches p t
      → (r : CString) → s ≡ r ++ t
      → Matches (c ∷ p) s
  any_byte : {p s : CString} (q c : ℕ) → q ≡ b'?' → Matches p s → Matches (q ∷ p) (c ∷ s)
  same_byte : {p s : CString} (c : ℕ) → c ≢ b'*' → Matches p s → Matches (c ∷ p) (c ∷ s)

-- The pattern has no two stars side by side.
unfoldable pub no_double_star : CString → Bool
no_double_star [] = true
no_double_star (p ∷ []) = true
no_double_star (p ∷ q ∷ pattern) = not (p == b'*' && q == b'*') && no_double_star (q ∷ pattern)
