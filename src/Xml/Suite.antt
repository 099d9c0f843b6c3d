-- ===== src/Xml/Suite.antt =====
-- What the elements of a report are, and that print_suite writes them.
use cmocka.Prelude.{◌+◌, ◌<◌, some, List, [], ◌∷◌, ◌++◌, CString}
use cmocka.Prelude.{length, ◌≡◌, refl, ap, sym, ◌∙◌, append_assoc, append-nil, All}
use cmocka.State.{str, float_bits}
use cmocka.Runner.Print.{text_of}
use cmocka.Replace.{Buffer}
use cmocka.Replace.Bytes.{IsString}
use cmocka.Replace.Escape.{escaped, cmprepare_xml_attribute_string-escaped}
use cmocka.Xml.{
  Destination, Line, XmlState, TimedTest, XmlTotals, write, status_lines, print_tests, suite_start,
  suite_end, print_suite,
}

-- The name is a string that has room in a buffer of that size once it is escaped.
abbrev pub Fits : Buffer → CString → Type 0
Fits space name = IsString name × (length (escaped name) + 7 < length space)

abbrev pub test_name : TimedTest → CString
test_name test = text_of test.0.test.name

-- The element of a test.
abbrev pub test_element : TimedTest → List Line
test_element test =
    record {
      format = "    <testcase name=\"%s\" time=\"%.3f\" >\n";
      args = str (escaped (test_name test)) ∷ float_bits test.1 ∷ [];
    }
      ∷ status_lines test.0.status test.0.error_message
    ++ record { format = "    </testcase>\n"; args = [] } ∷ []

abbrev pub test_elements : List TimedTest → List Line
test_elements [] = []
test_elements (t ∷ tests) = test_element t ++ test_elements tests

abbrev pub suite : CString → XmlTotals → List TimedTest → List Line
suite group_name totals tests =
    suite_start (escaped group_name) totals ++ (test_elements tests ++ suite_end)

abbrev pub declaration : List Line
declaration = record { format = "<?xml version=\"1.0\" encoding=\"UTF-8\" ?>\n"; args = [] } ∷ []

abbrev pub to : Destination → List Line → List (Destination × Line)
to fp [] = []
to fp (line ∷ lines) = (fp, line) ∷ to fp lines

pub to-append : (fp : Destination) (xs ys : List Line) → to fp (xs ++ ys) ≡ to fp xs ++ to fp ys
to-append fp [] ys = refl
to-append fp (x ∷ xs) ys = ap (λ l. (fp, x) ∷ l) (to-append fp xs ys)

write-to :
    (fp : Destination) (lines : List Line) (s : XmlState)
    → (write fp lines s).written ≡ s.written ++ to fp lines
unfolding write
write-to fp [] s = sym (append-nil s.written)
write-to fp (line ∷ lines) s =
    write-to fp lines (record s { written = s.written ++ (fp, line) ∷ [] })
    ∙ append_assoc s.written ((fp, line) ∷ []) (to fp lines)

module _ (space : Buffer) (fp : Destination) where
  print_tests-to :
      (tests : List TimedTest) (s : XmlState)
      → All (λ t. Fits space (test_name t)) tests
      → (s' : XmlState) × (print_tests space fp (length tests) tests s ≡ some s')
        × (s'.written ≡ s.written ++ to fp (test_elements tests))
  unfolding print_tests
  print_tests-to [] s fit = (s, refl, sym (append-nil s.written))
  print_tests-to (test ∷ tests) s ((clean, room), fit) =
      let (name, e, _, holds, _) =
        cmprepare_xml_attribute_string-escaped space (test_name test) clean room in
      let (s', run, wrote) = print_tests-to tests (write fp (test_element test) s) fit in
      (
        s',
        rw (e, holds) run,
        wrote
            ∙ ap (λ l. l ++ to fp (test_elements tests)) (write-to fp (test_element test) s)
            ∙ append_assoc s.written (to fp (test_element test)) (to fp (test_elements tests))
            ∙ ap (λ l. s.written ++ l)
                (sym (to-append fp (test_element test) (test_elements tests))),
      )

  pub print_suite-to :
      (group_name : CString) (totals : XmlTotals) (tests : List TimedTest) (s : XmlState)
      → Fits space group_name
      → All (λ t. Fits space (test_name t)) tests
      → totals.total_executed ≡ length tests
      → (s' : XmlState) × (print_suite space group_name totals tests fp s ≡ some s')
        × (s'.written ≡ s.written ++ to fp (suite group_name totals tests))
  unfolding print_suite
  print_suite-to group_name totals tests s (clean, room) fit count =
      let (name, e, _, holds, _) =
        cmprepare_xml_attribute_string-escaped space group_name clean room in
      let start = suite_start (escaped group_name) totals in
      let (s₁, run, wrote) = print_tests-to tests (write fp start s) fit in
      let counted : print_tests space fp totals.total_executed tests (write fp start s) ≡ some s₁ =
        ap (λ n. print_tests space fp n tests (write fp start s)) count ∙ run in
      (
        write fp suite_end s₁,
        rw (e, holds) (rw counted),
        write-to fp suite_end s₁
            ∙ ap (λ l. l ++ to fp suite_end)
                (wrote ∙ ap (λ l. l ++ to fp (test_elements tests)) (write-to fp start s))
            ∙ append_assoc (s.written ++ to fp start) (to fp (test_elements tests))
                (to fp suite_end)
            ∙ append_assoc s.written (to fp start) (to fp (test_elements tests) ++ to fp suite_end)
            ∙ ap (λ l. s.written ++ l)
                (sym (
                  to-append fp start (test_elements tests ++ suite_end)
                  ∙ ap (λ l. to fp start ++ l) (to-append fp (test_elements tests) suite_end))),
      )
