-- ===== src/Replace/Escape.antt =====
-- cmprepare_xml_attribute_string and the bytes that XML reserves.
use cmocka.Prelude.{
  ℕ, zero, suc, ◌+◌, ◌-◌, ◌≤◌, ◌<◌, true, false, some, [], ◌∷◌, ◌++◌, CString, max,
}
use cmocka.Prelude.{
  if◌then◌else◌, ◌==◌, length, take, drop, ◌≡◌, ◌≢◌, refl, sym, ap, ap₂, ◌∙◌, arith, append_assoc,
  length-append, All, All-append, codes, subst,
}
use cmocka.Replace.{
  Buffer, buffer_of, string_in, is_prefix, c_strreplace, replace_in, snprintf_string,
  cmprepare_xml_attribute_string,
}
use cmocka.Replace.Bytes.{length-drop, IsString, string_in-terminated}
use cmocka.Replace.Found.{replaced, length-replaced}
use cmocka.Replace.Loop.{c_strreplace-replaced}

-- A byte as it stands in an XML attribute.
abbrev pub entity : ℕ → CString
entity c =
    if c == b'&'
    then codes "&amp;"
    else if c == b'"'
    then codes "&quot;"
    else if c == b'\''
    then codes "&apos;"
    else if c == b'<'
    then codes "&lt;"
    else if c == b'>'
    then codes "&gt;"
    else c ∷ []

unfoldable pub escaped : CString → CString
escaped [] = []
escaped (c ∷ s) = entity c ++ escaped s

-- One byte replaced throughout.
swap_byte : ℕ → CString → CString → CString
swap_byte q repl [] = []
swap_byte q repl (c ∷ s) = (if q == c then repl else c ∷ []) ++ swap_byte q repl s

replaced-swap_byte : (q : ℕ) (repl s : CString) → replaced (q ∷ []) repl 0 s ≡ swap_byte q repl s
unfolding replaced swap_byte is_prefix
replaced-swap_byte q repl [] = refl
replaced-swap_byte q repl (c ∷ s) = ground (arith, replaced-swap_byte q repl s)

swap_byte-append :
    (q : ℕ) (repl xs ys : CString)
    → swap_byte q repl (xs ++ ys) ≡ swap_byte q repl xs ++ swap_byte q repl ys
unfolding swap_byte
swap_byte-append q repl [] ys = refl
swap_byte-append q repl (x ∷ xs) ys =
    ap (λ l. (if q == x then repl else x ∷ []) ++ l) (swap_byte-append q repl xs ys)
    ∙ sym
        (append_assoc (if q == x then repl else x ∷ []) (swap_byte q repl xs) (swap_byte q repl ys))

-- The five replacements one after the other.
swap_all : CString → CString
swap_all s = swap_byte b'>' (codes "&gt;") (
    swap_byte b'<' (codes "&lt;") (
      swap_byte b'\'' (codes "&apos;")
        (swap_byte b'"' (codes "&quot;") (swap_byte b'&' (codes "&amp;") s))))

swap_all-byte : (c : ℕ) → swap_all (c ∷ []) ≡ entity c
unfolding swap_all swap_byte
swap_all-byte c = ground arith

swap_all-append : (xs ys : CString) → swap_all (xs ++ ys) ≡ swap_all xs ++ swap_all ys
unfolding swap_all
swap_all-append xs ys = simp swap_byte-append

swap_all-nil : swap_all [] ≡ []
unfolding swap_all swap_byte
swap_all-nil = refl

swap_all-escaped : (s : CString) → swap_all s ≡ escaped s
unfolding escaped
swap_all-escaped [] = swap_all-nil
swap_all-escaped (c ∷ s) =
    swap_all-append (c ∷ []) s ∙ ap₂ (λ x y. x ++ y) (swap_all-byte c) (swap_all-escaped s)

-- No byte of it opens or closes a tag or ends an attribute.
abbrev pub IsSafe : CString → Type 0
IsSafe s = All (λ c. (c ≢ b'<') × (c ≢ b'>') × (c ≢ b'"')) s

entity-IsSafe : (c : ℕ) → IsSafe (entity c)
entity-IsSafe c = ground arith

entity-IsString : (c : ℕ) → (c == 0) ≡ false → IsString (entity c)
entity-IsString c h = ground arith

escaped-IsSafe : (s : CString) → IsSafe (escaped s)
unfolding escaped
escaped-IsSafe [] = tt
escaped-IsSafe (c ∷ s) =
    All-append (λ c. (c ≢ b'<') × (c ≢ b'>') × (c ≢ b'"')) (entity c) (escaped s) (entity-IsSafe c)
      (escaped-IsSafe s)

-- A buffer of `size` bytes that holds a string.
abbrev Holds : ℕ → CString → Buffer → Type 0
Holds size s buf = (junk : Buffer) × (buf ≡ s ++ 0 ∷ junk) × (length buf ≡ size) × IsString s

replace_in_lem :
    (q : ℕ) (repl s : CString) (size : ℕ) (buf : Buffer)
    → Holds size s buf
    → IsString repl
    → length s + max 1 (length repl) + 1 < size
    → length (swap_byte q repl s) + max 1 (length repl) + 1 < size
    → (buf' : Buffer) × (replace_in size (q ∷ []) repl buf ≡ some buf')
      × Holds size (swap_byte q repl s) buf'
unfolding replace_in
replace_in_lem q repl s size buf (junk, e, n, clean) clean_repl before after =
    let size_is : length (s ++ 0 ∷ junk) ≡ size = ap (λ (l : Buffer). length l) (sym e) ∙ n in
    let swapped = replaced-swap_byte q repl s in
    let l = length-append s (0 ∷ junk) in
    let (r, run, (kept, good, (s', junk', held, clean'), room)) =
      c_strreplace-replaced q [] repl s junk false size clean clean_repl (omega arith) in
    let answer : r.returned ≡ true =
      room (omega arith) (omega (arith, ap (λ (l : CString). length l) swapped)) in
    let same : s' ≡ swap_byte q repl s =
      sym (string_in-terminated s' junk' clean')
      ∙ ap string_in (sym held)
      ∙ good answer
      ∙ swapped in
    (
      r.buffer,
      ap (λ b. buffer_of (c_strreplace size (some b) (length b) (some (q ∷ [])) (some repl) false))
            e
          ∙ ap buffer_of run,
      (
        junk',
        subst (λ l. r.buffer ≡ l ++ 0 ∷ junk') same held,
        kept ∙ size_is,
        subst IsString same clean',
      ),
    )

take-all : (n : ℕ) (s : CString) → length s ≤ n → take n s ≡ s
take-all zero [] h = refl
take-all (suc n) [] h = refl
take-all zero (c ∷ s) h = absurd (omega arith)
take-all (suc n) (c ∷ s) h = ap (λ l. c ∷ l) (take-all n s (omega arith))

-- snprintf keeps the buffer's size.
snprintf_string-Holds :
    (buf : Buffer) (src : CString)
    → IsString src
    → length src < length buf
    → Holds (length buf) src (snprintf_string buf src)
unfolding snprintf_string
snprintf_string-Holds buf src clean fits =
    let whole : take (length buf - 1) src ≡ src = take-all (length buf - 1) src (omega arith) in
    rw whole (
      drop (length src + 1) buf,
      refl,
      omega (
        arith,
        length-append src (0 ∷ drop (length src + 1) buf),
        length-drop (length src + 1) buf (omega arith),
      ),
      clean,
    )

length-swap_byte :
    (q : ℕ) (repl s : CString) → 0 < length repl → length s ≤ length (swap_byte q repl s)
length-swap_byte q repl s h = omega (
  arith,
  length-replaced q [] repl 0 s h,
  ap (λ (l : CString). length l) (replaced-swap_byte q repl s),
)

-- For a name that, once escaped, is at least 8 bytes shorter than the buffer,
-- cmprepare_xml_attribute_string ends with the name in the buffer, each of the five reserved bytes
-- replaced by its entity, and no byte of it is a double quote or an angle bracket.
pub cmprepare_xml_attribute_string-escaped :
    (buf : Buffer) (src : CString)
    → IsString src
    → length (escaped src) + 7 < length buf
    → (buf' : Buffer) × (cmprepare_xml_attribute_string buf src ≡ some buf')
      × (length buf' ≡ length buf)
      × (string_in buf' ≡ escaped src)
      × IsSafe (string_in buf')
unfolding cmprepare_xml_attribute_string swap_all
cmprepare_xml_attribute_string-escaped buf src clean fits =
    let size = length buf in
    let s₁ = swap_byte b'&' (codes "&amp;") src in
    let s₂ = swap_byte b'"' (codes "&quot;") s₁ in
    let s₃ = swap_byte b'\'' (codes "&apos;") s₂ in
    let s₄ = swap_byte b'<' (codes "&lt;") s₃ in
    let s₅ = swap_byte b'>' (codes "&gt;") s₄ in
    let l₁ = length-swap_byte b'&' (codes "&amp;") src (omega arith) in
    let l₂ = length-swap_byte b'"' (codes "&quot;") s₁ (omega arith) in
    let l₃ = length-swap_byte b'\'' (codes "&apos;") s₂ (omega arith) in
    let l₄ = length-swap_byte b'<' (codes "&lt;") s₃ (omega arith) in
    let l₅ = length-swap_byte b'>' (codes "&gt;") s₄ (omega arith) in
    let done : s₅ ≡ escaped src = swap_all-escaped src in
    let l = ap (λ (s : CString). length s) done in
    let h₀ = snprintf_string-Holds buf src clean (omega arith) in
    let (b₁, e₁, h₁) =
      replace_in_lem b'&' (codes "&amp;") src size (snprintf_string buf src) h₀
        (entity-IsString b'&' refl) (omega arith) (omega arith) in
    let (b₂, e₂, h₂) =
      replace_in_lem b'"' (codes "&quot;") s₁ size b₁ h₁ (entity-IsString b'"' refl) (omega arith)
        (omega arith) in
    let (b₃, e₃, h₃) =
      replace_in_lem b'\'' (codes "&apos;") s₂ size b₂ h₂ (entity-IsString b'\'' refl) (omega arith)
        (omega arith) in
    let (b₄, e₄, h₄) =
      replace_in_lem b'<' (codes "&lt;") s₃ size b₃ h₃ (entity-IsString b'<' refl) (omega arith)
        (omega arith) in
    let (b₅, e₅, (junk, held, kept, clean₅)) =
      replace_in_lem b'>' (codes "&gt;") s₄ size b₄ h₄ (entity-IsString b'>' refl) (omega arith)
        (omega arith) in
    let holds : string_in b₅ ≡ escaped src =
      ap string_in held ∙ string_in-terminated s₅ junk clean₅ ∙ done in
    (b₅, rw (e₁, e₂, e₃, e₄, e₅), kept, holds, subst IsSafe (sym holds) (escaped-IsSafe src))
