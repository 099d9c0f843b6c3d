-- ===== src/Compare/Memory.antt =====
-- The memory comparisons of src/cmocka.c and the dump that they print. An area of memory is the list of
-- its bytes.
pub mod Areas
use cmocka.Prelude.{ℕ, zero, suc, ◌+◌, Bool, true, false, not, ◌&&◌, List, [], ◌∷◌, CString}
use cmocka.Prelude.{str_eq, if◌then◌else◌, ltb, leb, ◌==◌, codes, length, take, drop, max}
use cmocka.State.{str, nat}
use cmocka.State.Run.{M, pure, ◌>>◌, when}
use cmocka.Report.{cmocka_print_error}

-- `memcmp(a, b, size) == 0`
unfoldable pub memcmp_equal : List ℕ → List ℕ → ℕ → Bool
unfolding str_eq
memcmp_equal a b size = str_eq (take size a) (take size b)

-- all_zero: the first byte, and the area against itself one byte on.
unfoldable pub all_zero : List ℕ → Bool
unfolding memcmp_equal
all_zero [] = true
all_zero (b ∷ buf) = b == 0 && memcmp_equal (b ∷ buf) buf (length buf)

unfoldable is_print : ℕ → Bool
is_print c = leb 32 c && leb c 126

-- cmocka_print_ascii of one byte after another, with a gap in front of byte 8.
unfoldable print_ascii : ℕ → List ℕ → M (Unit {0})
unfolding cmocka_print_error is_print
print_ascii i [] = pure tt
print_ascii i (b ∷ buf) = do
  when (i == 8) (cmocka_print_error " " [])
  cmocka_print_error "%c" (nat (if is_print b then b else b'.') ∷ [])
  print_ascii (i + 1) buf

-- Columns `i` and on of the hexadecimal part; `rounds` are left.
unfoldable print_hex : ℕ → ℕ → List ℕ → M (Unit {0})
unfolding cmocka_print_error
print_hex zero i buf = pure tt
print_hex (suc rounds) i [] = do
  when (i == 8) (cmocka_print_error "  " [])
  cmocka_print_error "   " []
  print_hex rounds (i + 1) []
print_hex (suc rounds) i (b ∷ buf) = do
  when (i == 8) (cmocka_print_error "  " [])
  cmocka_print_error " %02hhx" (nat b ∷ [])
  print_hex rounds (i + 1) buf

-- `buf` holds the `len` bytes, at most 16.
print_data_block16 : CString → ℕ → List ℕ → M (Unit {0})
unfolding cmocka_print_error print_hex print_ascii
print_data_block16 prefix idx buf = do
  cmocka_print_error "%s[%08zx]" (str prefix ∷ nat idx ∷ [])
  print_hex 16 0 buf
  cmocka_print_error "   " []
  if length buf == 0
      then cmocka_print_error "EMPTY   BLOCK\n" []
      else do print_ascii 0 buf; cmocka_print_error "\n" []

-- The loop of print_data_diff at offset `i`; `rest1` and `rest2` are the bytes from there on.
unfoldable print_data_diff_from : ℕ → ℕ → List ℕ → List ℕ → Bool → Bool → M (Unit {0})
unfolding cmocka_print_error print_data_block16 all_zero memcmp_equal
print_data_diff_from zero i rest1 rest2 omit_zero_bytes skipped = pure tt
print_data_diff_from (suc rounds) i rest1 rest2 omit_zero_bytes skipped = do
  let next = print_data_diff_from rounds (i + 16) (drop 16 rest1) (drop 16 rest2) omit_zero_bytes
  let this1 = take 16 rest1
  let this2 = take 16 rest2
  if length rest1 == 0 && length rest2 == 0
      then pure tt
      else if omit_zero_bytes
          && ltb 0 i
          && ltb 16 (max (length rest1) (length rest2))
          && length this1 == 16
          && all_zero this1
          && length this2 == 16
          && all_zero this2
      then (do when (not skipped) (cmocka_print_error "SKIPPING ZERO BUFFER BYTES\n" []); next true)
      else if length this1 == length this2 && memcmp_equal this1 this2 (length this1)
      then (do print_data_block16 (codes "  ") i this1; next false)
      else (do
        print_data_block16 (codes "- ") i this1
        print_data_block16 (codes "+ ") i this2
        next false)

-- Every round but the last moves on by 16 bytes, so that as many rounds as bytes, and one, are enough.
unfoldable pub print_data_diff : List ℕ → List ℕ → Bool → M (Unit {0})
unfolding print_data_diff_from
print_data_diff buf1 buf2 omit_zero_bytes =
    print_data_diff_from (max (length buf1) (length buf2) + 1) 0 buf1 buf2 omit_zero_bytes false

unfoldable pub memory_equal_display_error : List ℕ → List ℕ → ℕ → M Bool
unfolding memcmp_equal cmocka_print_error print_data_diff
memory_equal_display_error a b size = if memcmp_equal a b size then pure true else (do
  cmocka_print_error "Memory is not equal:\n\n" []
  print_data_diff (take size a) (take size b) true
  cmocka_print_error "\n" []
  pure false)

-- The number of places at which the areas agree.
unfoldable count_same : List ℕ → List ℕ → ℕ
count_same (l ∷ a) (r ∷ b) = let rest = count_same a b in if l == r then rest + 1 else rest
count_same _ _ = 0

unfoldable pub memory_not_equal_display_error : List ℕ → List ℕ → ℕ → M Bool
unfolding cmocka_print_error count_same
memory_not_equal_display_error a b size =
    let same = count_same (take size a) (take size b) in
    if same == size
    then (do cmocka_print_error "%zdbytes of %p and %p the same\n" (nat same ∷ []); pure false)
    else pure true
