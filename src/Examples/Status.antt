-- ===== src/Examples/Status.antt =====
-- example/assert_macro.c: status codes and their texts.
use cmocka.Prelude.{
  ℕ, zero, suc, ◌+◌, ◌<◌, ◌≡◌, ◌≢◌, ◌∙◌, sym, ap, refl, ◌↔◌, Option, none, some, List, [], ◌∷◌,
  CString, codes, str_eq, str_eq_iff, str_eq_complete, false≢true, if◌then◌else◌, arith, Bool-cases,
  inl, inr, true, false,
}

unfoldable pub status_code_strings : List CString
status_code_strings =
    codes "Address not found" ∷ codes "Connection dropped" ∷ codes "Connection timed out" ∷ []

-- An element of an array; `none` behind its end, which C does not define.
abbrev element : List CString → ℕ → Option CString
element [] i = none
element (text ∷ rest) zero = some text
element (text ∷ rest) (suc i) = element rest i

unfoldable pub get_status_code_string : ℕ → Option CString
unfolding status_code_strings
get_status_code_string status_code = element status_code_strings status_code

-- `~0U`
abbrev pub no_status : ℕ
no_status = 4294967295

-- The loop, from the entry `i` on.
unfoldable pub search_from : ℕ → List CString → CString → ℕ
unfolding str_eq
search_from i [] status_code_string = no_status
search_from i (text ∷ rest) status_code_string =
    let behind = search_from (i + 1) rest status_code_string in
    if str_eq text status_code_string then i else behind

unfoldable pub string_to_status_code : CString → ℕ
unfolding search_from status_code_strings
string_to_status_code = search_from 0 status_code_strings

some-inj : {A : Type 0} {a b : A} → some a ≡ some b → a ≡ b
some-inj e = cc

search_from-element :
    (i : ℕ) (texts : List CString) (text : CString)
    → search_from i texts text < no_status
    → (j : ℕ) × (search_from i texts text ≡ i + j) × (element texts j ≡ some text)
unfolding search_from
search_from-element i [] text small = absurd (omega (arith, small))
search_from-element i (t ∷ texts) text small = elim (Bool-cases (str_eq t text)) [
  | inl same ↦ (0, rw same (omega arith), ap some ((str_eq_iff t text).0 same))
  | inr other ↦
      let (j, e, found) = search_from-element (i + 1) texts text (rw other at small) in
      (suc j, rw other (omega (arith, e)), found)
]

-- No text stands in the list twice.
abbrev IsDistinct : List CString → Type 0
IsDistinct [] = Unit
IsDistinct (t ∷ texts) = ((j : ℕ) → element texts j ≢ some t) × IsDistinct texts

element-search_from :
    (i j : ℕ) (texts : List CString) (text : CString)
    → IsDistinct texts
    → element texts j ≡ some text
    → search_from i texts text ≡ i + j
unfolding search_from
element-search_from i j [] text distinct found = cc
element-search_from i zero (t ∷ texts) text distinct found =
    let same : str_eq t text ≡ true = (str_eq_iff t text).1 (some-inj found) in
    rw same (omega arith)
element-search_from i (suc j) (t ∷ texts) text (fresh, distinct) found =
    elim (Bool-cases (str_eq t text)) [
      | inl same ↦ absurd (fresh j (found ∙ ap some (sym ((str_eq_iff t text).0 same))))
      | inr other ↦
          let e = element-search_from (i + 1) j texts text distinct found in
          rw other (omega (arith, e))
    ]

differ : (s t : CString) → str_eq s t ≡ false → some s ≢ some t
differ s t h e = false≢true (sym h ∙ str_eq_complete s t (some-inj e))

strings-IsDistinct : IsDistinct status_code_strings
unfolding status_code_strings str_eq
strings-IsDistinct = (first, (second, (third, tt)))
  where
    first :
        (j : ℕ)
        → element (codes "Connection dropped" ∷ codes "Connection timed out" ∷ []) j
          ≢ some (codes "Address not found")
    first zero e = differ _ _ refl e
    first (suc zero) e = differ _ _ refl e
    first (suc (suc j)) e = cc

    second :
        (j : ℕ) → element (codes "Connection timed out" ∷ []) j ≢ some (codes "Connection dropped")
    second zero e = differ _ _ refl e
    second (suc j) e = cc

    third : (j : ℕ) → element [] j ≢ some (codes "Connection timed out")
    third j e = cc

-- Below the number that stands for no status, a text has a code exactly if it is the code's text.
pub string_to_status_code_iff :
    (text : CString) (code : ℕ)
    → code < no_status
    → (string_to_status_code text ≡ code) ↔ (get_status_code_string code ≡ some text)
unfolding string_to_status_code get_status_code_string
string_to_status_code_iff text code small = (
  λ e.
      let (j, at, found) =
        search_from-element 0 status_code_strings text (omega (arith, e, small)) in
      let same : j ≡ code = omega (arith, at, e) in rw⁻¹ same found,
  λ found.
      element-search_from 0 code status_code_strings text strings-IsDistinct found ∙ omega arith,
)
