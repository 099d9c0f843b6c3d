-- ===== src/Glob.antt =====
-- `c_strmatch` of src/cmocka.c, the wildcard match behind the test filters. A `char *` that may be
-- NULL is an `Option CString`.
pub mod Matches
pub mod Decides
pub mod Stars
use cmocka.Prelude.{Bool, true, false, not, ◌&&◌, Option, none, some, List, [], ◌∷◌, CString}
use cmocka.Prelude.{ℕ, ◌==◌, if◌then◌else◌}

abbrev pub star : ℕ
star = b'*'

abbrev pub question : ℕ
question = b'?'

-- `for (; *str != '\0'; str++)`: the recursive call at every position but the end.
pub try_positions : (CString → Bool) → CString → Bool
try_positions call [] = false
try_positions call (c ∷ str) = if call (c ∷ str) then true else try_positions call str

pub at_end : CString → Bool
at_end [] = true
at_end (c ∷ str) = false

-- The branch for `*pattern == '*'`; `pattern` is already moved on.
pub after_star : CString → (CString → Bool) → CString → Bool
after_star [] call str = true
after_star (p ∷ pattern) call str = try_positions call str

-- The rest of a round: end of string, wildcard or byte, and the next round.
pub after_byte : ℕ → (CString → Bool) → CString → Bool
after_byte p next [] = false
after_byte p next (c ∷ str) = if not (p == question) && not (c == p) then false else next str

-- The `for (;;)` loop and the recursion: each round takes a byte off the pattern.
pub match : CString → CString → Bool
unfolding try_positions at_end after_star after_byte
match [] str = at_end str
match (p ∷ pattern) str =
    if p == star then after_star pattern (match pattern) str else after_byte p (match pattern) str

unfoldable pub c_strmatch : Option CString → Option CString → Bool
unfolding match
c_strmatch none pattern = false
c_strmatch (some str) none = false
c_strmatch (some str) (some pattern) = match pattern str
