-- ===== src/Report/Output.antt =====
-- cm_get_output of src/cmocka.c: the output formats, from CMOCKA_MESSAGE_OUTPUT.
use Prim.Native.Nat.{bit_and, bit_or}
use cmocka.Prelude.{ℕ, ◌+◌, Bool, true, Option, none, some, List, [], ◌∷◌, ◌++◌, String}
use cmocka.Prelude.{
  CString, if◌then◌else◌, ltb, leb, length, ◌==◌, not, ◌&&◌, ◌||◌, str_eq, codes, map,
}
use cmocka.State.Run.{M, ok}

abbrev pub cm_output_standard : ℕ
cm_output_standard = 1

abbrev pub cm_output_subunit : ℕ
cm_output_subunit = 2

abbrev pub cm_output_tap : ℕ
cm_output_tap = 4

abbrev pub cm_output_xml : ℕ
cm_output_xml = 8

-- `output & flag` as a condition
unfoldable pub has_flag : ℕ → ℕ → Bool
has_flag output flag = not (bit_and output flag == 0)

-- The tokens of `strtok_r(…, ",", …)`; empty ones are skipped.
abbrev emit : CString → List CString → List CString
emit [] rest = rest
emit (c ∷ token) rest = (c ∷ token) ∷ rest

unfoldable tokens : CString → CString → List CString
tokens token [] = emit token []
tokens token (c ∷ text) =
    let ended = tokens [] text in
    let longer = tokens (token ++ c ∷ []) text in if c == b',' then emit token ended else longer

unfoldable to_lower : ℕ → ℕ
to_lower c = if leb b'A' c && leb c b'Z' then c + 32 else c

-- `strcasecmp(a, b) == 0`
unfoldable same_ignoring_case : CString → String → Bool
unfolding to_lower str_eq
same_ignoring_case s t = str_eq (map to_lower s) (map to_lower (codes t))

unfoldable flag_of : CString → ℕ
unfolding same_ignoring_case
flag_of token =
    if same_ignoring_case token "STANDARD"
    then cm_output_standard
    else if same_ignoring_case token "STDOUT"
    then cm_output_standard
    else if same_ignoring_case token "SUBUNIT"
    then cm_output_subunit
    else if same_ignoring_case token "TAP"
    then cm_output_tap
    else if same_ignoring_case token "XML"
    then cm_output_xml
    else 0

unfoldable flags_of : ℕ → List CString → ℕ
unfolding flag_of
flags_of new_output [] = new_output
flags_of new_output (token ∷ rest) = flags_of (bit_or new_output (flag_of token)) rest

-- What is left to do when the variable is set to `env`.
unfoldable pub read_output : CString → M ℕ
unfolding flags_of tokens
read_output env g =
    if length env == 0 || ltb 32 (length env)
    then ok g.msg_output g
    else if not (g.libc.alloc_ok (length env + 1))
    then ok g.msg_output g
    else (let new_output = flags_of 0 (tokens [] env) in
        let output = if not (new_output == 0) then new_output else g.msg_output in
        ok output (record g { msg_output = output; env_checked = true }))

abbrev pub from_environment : Option CString → M ℕ
from_environment none g = ok g.msg_output g
from_environment (some env) g = read_output env g

unfoldable pub cm_get_output : M ℕ
unfolding read_output
cm_get_output g =
    if g.env_checked then ok g.msg_output g else from_environment g.libc.message_output g
