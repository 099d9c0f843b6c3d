-- ===== src/Tests/Matching.antt =====
-- c_strmatch at concrete patterns.
use cmocka.Prelude.{◌≡◌, refl, ◌↔◌, true, false, some, [], ◌∷◌, ◌++◌, codes}
use cmocka.Glob.{c_strmatch, star}
use cmocka.Glob.Matches.{Matches, no_double_star}
use cmocka.Glob.Decides.{c_strmatch_iff}
use cmocka.Glob.Stars.{c_strmatch_double_star}

c_strmatch_iff_example :
    (c_strmatch (some (codes "test_read")) (some (codes "test_*")) ≡ true)
    ↔ Matches (codes "test_*") (codes "test_read")
unfolding no_double_star
c_strmatch_iff_example = c_strmatch_iff (codes "test_read") (codes "test_*") refl

c_strmatch_double_star_example :
    Matches (codes "ab" ++ star ∷ star ∷ []) (codes "ab")
    × (c_strmatch (some (codes "ab")) (some (codes "ab" ++ star ∷ star ∷ [])) ≡ false)
c_strmatch_double_star_example =
    c_strmatch_double_star (codes "ab") (((λ e. cc), (λ e. cc)), (((λ e. cc), (λ e. cc)), tt))
