-- ===== src/Xml/Report.antt =====
-- cmprintf_group_finish_xml: where its report goes, and what the report is.
use cmocka.Prelude.{
  ◌≤◌, ℕ, zero, suc, ◌+◌, ◌-◌, ◌<◌, Bool, false, not, ◌&&◌, Option, none, some, List, [], ◌∷◌, ◌++◌,
  CString,
}
use cmocka.Prelude.{
  if◌then◌else◌, codes, length, ◌≡◌, refl, ap, sym, ◌∙◌, arith, append_assoc, append-nil, All,
  Bool-cases, inl, inr, take, drop,
}
use cmocka.Replace.{Buffer, string_in, snprintf_string}
use cmocka.Replace.Bytes.{IsString}
use cmocka.Replace.Loop.{c_strreplace-replaced}
use cmocka.Xml.{
  Opened, to_stdout, Destination, FileSystem, XmlState, TimedTest, XmlTotals, write,
  after_replacement, xml_path, open_file, open_report, print_declaration, cmprintf_group_finish_xml,
}
use cmocka.Xml.Suite.{Fits, test_name, suite, declaration, to, to-append, print_suite-to}

-- The value of the environment variable is a string, where there is one.
abbrev pub IsClean : Option CString → Type 0
IsClean none = Unit
IsClean (some env) = IsString env

-- Nothing has been written, and a file that has been opened is one to append to.
abbrev Unwritten : XmlState → Opened → Type 0
Unwritten s (fp, file_opened, s') =
    (s'.written ≡ s.written) × ((file_opened && not s'.file_append) ≡ false)

open_file-Unwritten :
    (files : FileSystem) (path : CString) (s : XmlState) → Unwritten s (open_file files path s)
unfolding open_file
open_file-Unwritten files path s = elim (Bool-cases (s.readable path)) [
  | inl there ↦ elim (Bool-cases s.file_append) [
    | inl more ↦ elim (Bool-cases (files.may_append path)) [
      | inl may ↦ rw (there, more, may) (refl, refl)
      | inr may ↦ rw (there, more, may) (refl, refl)
    ]
    | inr no_more ↦ rw (there, no_more) (refl, refl)
  ]
  | inr absent ↦ elim (Bool-cases (files.may_write path)) [
    | inl may ↦ rw (absent, may) (refl, refl)
    | inr may ↦ rw (absent, may) (refl, refl)
  ]
]

IsString-take : (n : ℕ) (s : CString) → IsString s → IsString (take n s)
IsString-take zero s clean = tt
IsString-take (suc n) [] clean = tt
IsString-take (suc n) (c ∷ s) (first, clean) = (first, IsString-take n s clean)

length-take_upto : (n : ℕ) (s : CString) → length (take n s) ≤ n
length-take_upto zero s = omega arith
length-take_upto (suc n) [] = omega arith
length-take_upto (suc n) (c ∷ s) = omega (arith, length-take_upto n s)

xml_path-some :
    (space : Buffer) (env group_name : CString)
    → 0 < length space
    → IsString env
    → IsString group_name
    → (buf : Buffer) × (xml_path space env group_name ≡ some buf)
unfolding xml_path snprintf_string
xml_path-some space env group_name room clean clean_group =
    let held = take (length space - 1) env in
    let junk = drop (length held + 1) space in
    let (r, run, _) =
      c_strreplace-replaced 37 (codes "g") group_name held junk false (length space)
        (IsString-take (length space - 1) env clean) clean_group
        (omega (arith, length-take_upto (length space - 1) env)) in
    (_, ap (after_replacement env) run)

print_declaration-written :
    (fp : Destination) (file_opened : Bool) (s : XmlState)
    → (file_opened && not s.file_append) ≡ false
    → (print_declaration fp file_opened s).written
      ≡ s.written ++ to fp (if s.xml_printed then [] else declaration)
unfolding print_declaration write
print_declaration-written fp file_opened s kept = elim (Bool-cases s.xml_printed) [
  | inl e ↦ rw (e, kept) (sym (append-nil s.written))
  | inr e ↦ elim (Bool-cases file_opened) [
    | inl opened ↦ rw (e, opened)
    | inr opened ↦ rw (e, opened)
  ]
]

open_report-some :
    (files : FileSystem) (space : Buffer) (env : Option CString) (group_name : CString)
    (s : XmlState)
    → 0 < length space
    → IsClean env
    → IsString group_name
    → (o : Opened) × (open_report files space env group_name s ≡ some o) × Unwritten s o
unfolding open_report
open_report-some files space none group_name s room clean clean_group =
    ((to_stdout, false, s), refl, (refl, refl))
open_report-some files space (some env) group_name s room clean clean_group =
    let (buf, e) = xml_path-some space env group_name room clean clean_group in
    (open_file files (string_in buf) s, rw e, open_file-Unwritten files (string_in buf) s)

-- When the environment variable, the group's name and the tests' names are strings, the names once
-- escaped are at least 8 bytes shorter than the buffers, and the count is the number of tests,
-- cmprintf_group_finish_xml ends, and adds to what open_report chose exactly the declaration, if
-- none counts as printed, and a suite with one element per test in order, its name escaped.
pub cmprintf_group_finish_xml-suite :
    (files : FileSystem) (space : Buffer) (env : Option CString) (group_name : CString)
    (totals : XmlTotals) (tests : List TimedTest) (s : XmlState)
    → IsClean env
    → Fits space group_name
    → All (λ t. Fits space (test_name t)) tests
    → totals.total_executed ≡ length tests
    → (fp : Destination) × (file_opened : Bool) × (s₁ : XmlState) × (s' : XmlState) × (open_report
          files space env group_name s
        ≡ some (fp, file_opened, s₁))
      × (cmprintf_group_finish_xml files space env group_name totals tests s ≡ some s')
      × (s'.written
          ≡ s.written
            ++ to fp
                ((if s₁.xml_printed then [] else declaration) ++ suite group_name totals tests))
unfolding cmprintf_group_finish_xml
cmprintf_group_finish_xml-suite files space env group_name totals tests s clean fits fit count =
    let ((fp, file_opened, s₁), opened, (kept, append)) =
      open_report-some files space env group_name s (omega arith) clean fits.0 in
    let s₂ = print_declaration fp file_opened s₁ in
    let (s', run, wrote) = print_suite-to space fp group_name totals tests s₂ fits fit count in
    let first = if s₁.xml_printed then [] else declaration in
    (
      fp,
      file_opened,
      s₁,
      s',
      opened,
      rw opened run,
      wrote
          ∙ ap (λ l. l ++ to fp (suite group_name totals tests))
              (print_declaration-written fp file_opened s₁ append ∙ ap (λ l. l ++ to fp first) kept)
          ∙ append_assoc s.written (to fp first) (to fp (suite group_name totals tests))
          ∙ ap (λ l. s.written ++ l) (sym (to-append fp first (suite group_name totals tests))),
    )
