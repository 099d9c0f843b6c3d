-- ===== src/Replace.antt =====
-- The string replacement of src/cmocka.c, c_strreplace, and cmprepare_xml_attribute_string over it. A buffer
-- is the list of its bytes; the string that it holds ends before its first NUL.
pub mod Bytes
pub mod Splice
pub mod Found
pub mod Room
pub mod Loop
pub mod Escape
use cmocka.Prelude.{
  ℕ, zero, suc, ◌+◌, ◌-◌, Bool, true, false, Option, none, some, List, [], ◌∷◌, ◌++◌, CString,
}
use cmocka.Prelude.{if◌then◌else◌, ◌==◌, leb, max, length, take, drop, codes}

abbrev pub Buffer : Type 0
Buffer = List ℕ

-- The string at the start of a buffer, and `strlen` of it.
unfoldable pub string_in : Buffer → CString
string_in [] = []
string_in (c ∷ buffer) = if c == 0 then [] else c ∷ string_in buffer

abbrev pub strlen : Buffer → ℕ
strlen buffer = length (string_in buffer)

unfoldable pub is_prefix : CString → CString → Bool
is_prefix [] s = true
is_prefix (p ∷ pattern) [] = false
is_prefix (p ∷ pattern) (c ∷ s) = if p == c then is_prefix pattern s else false

abbrev pub add_offset : ℕ → Option ℕ → Option ℕ
add_offset n none = none
add_offset n (some offset) = some (n + offset)

-- The offset that `strstr` finds.
unfoldable pub strstr : CString → CString → Option ℕ
unfolding is_prefix
strstr pattern [] = if is_prefix pattern [] then some 0 else none
strstr pattern (c ∷ s) =
    if is_prefix pattern (c ∷ s) then some 0 else add_offset 1 (strstr pattern s)

-- `memmove` and `memcpy` within a buffer
unfoldable pub memmove : ℕ → ℕ → ℕ → Buffer → Buffer
memmove to from n buffer = take to buffer ++ (take n (drop from buffer) ++ drop (to + n) buffer)

unfoldable pub memcpy_string : ℕ → CString → Buffer → Buffer
memcpy_string to s buffer = take to buffer ++ (s ++ drop (to + length s) buffer)

-- The return value, the buffer and `*str_replaced`.
pub record Replacement : Type 0 where
  pub returned : Bool
  pub buffer : Buffer
  pub str_replaced : Bool

-- The buffer after the memmove and the memcpy of one round.
unfoldable pub replace_at : CString → CString → ℕ → Buffer → Buffer
replace_at pattern repl offset src = memcpy_string offset repl (
    if length repl == length pattern
    then src
    else memmove (offset + length repl) (offset + length pattern)
        (strlen src - offset - length pattern + 1) src)

unfoldable pub find_from : CString → ℕ → Buffer → Option ℕ
find_from pattern from src = add_offset from (strstr pattern (string_in (drop from src)))

-- The `do ... while (p != NULL)` loop on fuel; none where the fuel runs out. `offset` is `p - src`.
unfoldable pub replace_loop : ℕ → ℕ → CString → CString → ℕ → Bool → Buffer → Option Replacement
replace_loop zero src_len pattern repl offset str_replaced src = none
replace_loop (suc fuel) src_len pattern repl offset str_replaced src =
    let next = replace_at pattern repl offset src in
    let onward = elim (find_from pattern (offset + length repl) next) as (λ _. Option Replacement) [
      | none ↦ some (record { returned = true; buffer = next; str_replaced = true })
      | some p ↦ replace_loop fuel src_len pattern repl p true next
    ] in
    if leb src_len (strlen src + max (length pattern) (length repl) + 1)
    then some (record { returned = false; buffer = src; str_replaced = str_replaced })
    else onward

-- From the first `strstr` on.
unfoldable pub replace_first :
    ℕ → ℕ → CString → CString → Bool → Buffer → Option ℕ → Option Replacement
replace_first fuel src_len pattern repl str_replaced src none =
    some (record { returned = true; buffer = src; str_replaced = str_replaced })
replace_first fuel src_len pattern repl str_replaced src (some p) =
    replace_loop fuel src_len pattern repl p str_replaced src

-- `src`, `pattern` and `repl` may be NULL; `src` has `src_len` bytes.
unfoldable pub c_strreplace :
    ℕ → Option Buffer → ℕ → Option CString → Option CString → Bool → Option Replacement
c_strreplace fuel none src_len pattern repl str_replaced =
    some (record { returned = false; buffer = []; str_replaced = str_replaced })
c_strreplace fuel (some src) src_len none repl str_replaced =
    some (record { returned = false; buffer = src; str_replaced = str_replaced })
c_strreplace fuel (some src) src_len (some pattern) none str_replaced =
    some (record { returned = false; buffer = src; str_replaced = str_replaced })
c_strreplace fuel (some src) src_len (some pattern) (some repl) str_replaced =
    if src_len == 0
    then some (record { returned = false; buffer = src; str_replaced = str_replaced })
    else replace_first fuel src_len pattern repl str_replaced src (find_from pattern 0 src)

-- `snprintf(buf, buf_len, "%s", src)` into a buffer that is not empty.
unfoldable pub snprintf_string : Buffer → CString → Buffer
snprintf_string buf src =
    let written = take (length buf - 1) src in written ++ 0 ∷ drop (length written + 1) buf

abbrev pub buffer_of : Option Replacement → Option Buffer
buffer_of none = none
buffer_of (some r) = some r.buffer

-- A call whose answer is ignored.
unfoldable pub replace_in : ℕ → CString → CString → Buffer → Option Buffer
replace_in fuel pattern repl buf =
    buffer_of (c_strreplace fuel (some buf) (length buf) (some pattern) (some repl) false)

abbrev pub then_in : Option Buffer → (Buffer → Option Buffer) → Option Buffer
then_in none f = none
then_in (some buf) f = f buf

unfoldable pub cmprepare_xml_attribute_string : Buffer → CString → Option Buffer
cmprepare_xml_attribute_string buf src =
    let fuel = length buf in
    then_in
      (then_in
        (then_in
          (then_in (replace_in fuel (codes "&") (codes "&amp;") (snprintf_string buf src))
            (replace_in fuel (codes "\"") (codes "&quot;")))
          (replace_in fuel (codes "'") (codes "&apos;")))
        (replace_in fuel (codes "<") (codes "&lt;")))
      (replace_in fuel (codes ">") (codes "&gt;"))
