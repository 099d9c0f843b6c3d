-- ===== src/Tests/Reports.antt =====
-- The XML report of a group of two tests.
use cmocka.Prelude.{
  ◌≡◌, refl, Bool, true, false, some, none, List, [], ◌∷◌, ◌++◌, CString, codes, replicate, arith,
  if◌then◌else◌,
}
use cmocka.Runner.{CmUnitTest, failed, skipped}
use cmocka.Replace.{Buffer}
use cmocka.Replace.Escape.{escaped}
use cmocka.Xml.{
  Destination, FileSystem, XmlState, XmlTotals, TimedTest, open_report, cmprintf_group_finish_xml,
}
use cmocka.Xml.Suite.{declaration, suite, to}
use cmocka.Xml.Report.{cmprintf_group_finish_xml-suite}

abbrev files : FileSystem
files = record { may_write = λ path. true; may_append = λ path. true }

abbrev nothing_written : XmlState
nothing_written = record {
  xml_printed = false;
  file_append = false;
  readable = λ path. false;
  written = [];
}

abbrev space : Buffer
space = replicate 32 1

abbrev named : CString → CmUnitTest
named name = record {
  name = some name;
  test_func = none;
  setup_func = none;
  teardown_func = none;
  initial_state = 0;
}

abbrev tests : List TimedTest
tests =
    (
      record {
        check_point = none;
        test = named (codes "a<b");
        state = 0;
        error_message = some (codes "no");
        status = failed;
      },
      0,
    )
    ∷ (
      record {
        check_point = none;
        test = named (codes "c");
        state = 0;
        error_message = none;
        status = skipped;
      },
      0,
    )
    ∷ []

abbrev totals : XmlTotals
totals = record {
  total_executed = 2;
  total_failed = 1;
  total_errors = 0;
  total_skipped = 1;
  total_runtime = 0;
}

cmprintf_group_finish_xml-suite_example :
    (fp : Destination) × (file_opened : Bool) × (s₁ : XmlState) × (s' : XmlState) × (open_report
        files space
        (some (codes "%g.xml"))
        (codes "all")
        nothing_written
      ≡ some (fp, file_opened, s₁))
    × (cmprintf_group_finish_xml files space
          (some (codes "%g.xml"))
          (codes "all")
          totals
          tests
          nothing_written
        ≡ some s')
    × (s'.written
        ≡ to fp ((if s₁.xml_printed then [] else declaration) ++ suite (codes "all") totals tests))
unfolding escaped
cmprintf_group_finish_xml-suite_example =
    cmprintf_group_finish_xml-suite files space (some (codes "%g.xml")) (codes "all") totals tests
      nothing_written (refl, (refl, (refl, (refl, (refl, (refl, tt))))))
      ((refl, (refl, (refl, tt))), omega arith)
      (((refl, (refl, (refl, tt))), omega arith), (((refl, tt), omega arith), tt)) refl
