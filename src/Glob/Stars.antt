-- ===== src/Glob/Stars.antt =====
-- Patterns that end in two stars: `c_strmatch` has the star try every position but the end.
use cmocka.Prelude.{◌≡◌, ◌≢◌, refl, false, some, [], ◌∷◌, ◌++◌, arith, CString}
use cmocka.Prelude.{All}
use cmocka.Glob.{star, question, c_strmatch, match}
use cmocka.Glob.Matches.{Matches, empty, any_run, same_byte}

-- A string with no wildcard in it.
abbrev pub IsPlain : CString → Type 0
IsPlain s = All (λ c. (c ≢ star) × (c ≢ question)) s

match_double_star : (s : CString) → IsPlain s → match (s ++ star ∷ star ∷ []) s ≡ false
unfolding match
match_double_star [] h = refl
match_double_star (c ∷ s) h = ground (arith, match_double_star s h.1)

double_star-Matches : (s : CString) → IsPlain s → Matches (s ++ star ∷ star ∷ []) s
double_star-Matches [] h = any_run star refl (any_run star refl empty [] refl) [] refl
double_star-Matches (c ∷ s) h = same_byte c h.0.0 (double_star-Matches s h.1)

-- A string without wildcard bytes matches the pattern of that string followed by two stars, and
-- c_strmatch answers false for them.
pub c_strmatch_double_star :
    (s : CString)
    → IsPlain s
    → Matches (s ++ star ∷ star ∷ []) s
      × (c_strmatch (some s) (some (s ++ star ∷ star ∷ [])) ≡ false)
unfolding c_strmatch
c_strmatch_double_star s h = (double_star-Matches s h, match_double_star s h)
