-- ===== src/Xml.antt =====
-- The XML report of src/cmocka.c, cmprintf_group_finish_xml. It is a function of its own: cmprintf_group_finish
-- of Runner/Print does not call it, since its lines go to files.
pub mod Suite
pub mod Report
use cmocka.Prelude.{
  ℕ, zero, suc, Bool, true, false, not, ◌&&◌, ◌||◌, Option, none, some, List, [], ◌∷◌, ◌++◌,
  CString, String,
}
use cmocka.Prelude.{if◌then◌else◌, codes, length, str_eq}
use cmocka.State.{Arg, str, nat, float_bits}
use cmocka.Runner.{CmUnitTestState, CmUnitTestStatus, not_started, passed, failed, error, skipped}
use cmocka.Runner.Print.{text_of}
use cmocka.Replace.{
  Buffer, Replacement, string_in, c_strreplace, snprintf_string, cmprepare_xml_attribute_string,
}

pub data Destination : Type 0 where
  to_stdout to_stderr : Destination
  to_file : CString → Destination

-- What fprintf is called with.
pub record Line : Type 0 where
  pub format : String
  pub args : List Arg

-- Whether `fopen` with "w" and with "a" succeeds for a path.
pub record FileSystem : Type 0 where
  pub may_write : CString → Bool
  pub may_append : CString → Bool

-- `xml_printed` and `file_append`, the paths that `fopen` with "r" opens, and what has been written.
pub record XmlState : Type 0 where
  pub xml_printed : Bool
  pub file_append : Bool
  pub readable : CString → Bool
  pub written : List (Destination × Line)

-- A test of the group with its run time, as the bits of a double.
abbrev pub TimedTest : Type 0
TimedTest = CmUnitTestState × ℕ

unfoldable pub write : Destination → List Line → XmlState → XmlState
write fp [] s = s
write fp (line ∷ lines) s = write fp lines (record s { written = s.written ++ (fp, line) ∷ [] })

unfoldable pub after_replacement : CString → Option Replacement → Option Buffer
after_replacement env none = none
after_replacement env (some r) =
    some (if not r.returned then snprintf_string r.buffer env else r.buffer)

-- The buffer with the path, from the value of CMOCKA_XML_FILE; `space` is what the buffer held before.
unfoldable pub xml_path : Buffer → CString → CString → Option Buffer
unfolding after_replacement
xml_path space env group_name =
    let buf = snprintf_string space env in
    after_replacement env (
      c_strreplace (length space) (some buf) (length buf) (some (codes "%g")) (some group_name)
        false)

-- `fp`, `file_opened` and the state, once the file at the path has been opened.
unfoldable pub open_file : FileSystem → CString → XmlState → Destination × Bool × XmlState
open_file files path s =
    if not (s.readable path)
    then (if files.may_write path
        then (
          to_file path,
          true,
          record s {
            file_append = true;
            readable = λ p. if str_eq p path then true else s.readable p;
          },
        )
        else (to_stderr, false, s))
    else if s.file_append
    then (if files.may_append path
        then (to_file path, true, record s { xml_printed = true })
        else (to_stderr, false, s))
    else (to_stderr, false, s)

abbrev pub Opened : Type 0
Opened = Destination × Bool × XmlState

abbrev pub at_path : Option Buffer → (CString → Option Opened) → Option Opened
at_path none f = none
at_path (some buf) f = f (string_in buf)

-- Before the report; none where c_strreplace does not end.
unfoldable pub open_report :
    FileSystem → Buffer → Option CString → CString → XmlState → Option Opened
unfolding xml_path open_file
open_report files space none group_name s = some (to_stdout, false, s)
open_report files space (some env) group_name s =
    at_path (xml_path space env group_name) λ path. some (open_file files path s)

unfoldable pub print_declaration : Destination → Bool → XmlState → XmlState
unfolding write
print_declaration fp file_opened s =
    if not s.xml_printed || (file_opened && not s.file_append)
    then (let s₁ =
          write fp
            (record { format = "<?xml version=\"1.0\" encoding=\"UTF-8\" ?>\n"; args = [] } ∷ [])
            s in
        if not file_opened then record s₁ { xml_printed = true } else s₁)
    else s

-- The switch over the status of a test.
unfoldable pub status_lines : CmUnitTestStatus → Option CString → List Line
status_lines error none =
    record { format = "      <failure message=\"Unknown error\" />\n"; args = [] } ∷ []
status_lines error (some message) =
    record { format = "      <failure><![CDATA[%s]]></failure>\n"; args = str message ∷ [] } ∷ []
status_lines failed none =
    record { format = "      <failure message=\"Unknown error\" />\n"; args = [] } ∷ []
status_lines failed (some message) =
    record { format = "      <failure><![CDATA[%s]]></failure>\n"; args = str message ∷ [] } ∷ []
status_lines skipped error_message = record { format = "      <skipped/>\n"; args = [] } ∷ []
status_lines passed error_message = []
status_lines not_started error_message = []

-- The string in the buffer that a call has filled.
abbrev pub with_name : Option Buffer → (CString → Option XmlState) → Option XmlState
with_name none f = none
with_name (some buf) f = f (string_in buf)

abbrev pub and_then : Option XmlState → (XmlState → Option XmlState) → Option XmlState
and_then none f = none
and_then (some s) f = f s

-- The loop over the first tests; a test that the array does not have is read out of bounds.
unfoldable pub print_tests : Buffer → Destination → ℕ → List TimedTest → XmlState → Option XmlState
unfolding write status_lines
print_tests space fp zero tests s = some s
print_tests space fp (suc n) [] s = none
print_tests space fp (suc n) (test ∷ tests) s =
    with_name (cmprepare_xml_attribute_string space (text_of test.0.test.name)) λ name.
      print_tests space fp n tests (
        write fp
          (record {
            format = "    <testcase name=\"%s\" time=\"%.3f\" >\n";
            args = str name ∷ float_bits test.1 ∷ [];
          }
              ∷ status_lines test.0.status test.0.error_message
            ++ record { format = "    </testcase>\n"; args = [] } ∷ [])
          s)

-- The counts are `unsigned`; `total_runtime` is given by its bits.
pub record XmlTotals : Type 0 where
  pub total_executed : ℕ
  pub total_failed : ℕ
  pub total_errors : ℕ
  pub total_skipped : ℕ
  pub total_runtime : ℕ

abbrev pub suite_start : CString → XmlTotals → List Line
suite_start group_name totals =
    record { format = "<testsuites>\n"; args = [] }
    ∷ record {
      format =
          "  <testsuite name=\"%s\" time=\"%.3f\" tests=\"%u\" failures=\"%u\" errors=\"%u\" skipped=\"%u\" >\n";
      args =
          str group_name
          ∷ float_bits totals.total_runtime
          ∷ nat totals.total_executed
          ∷ nat totals.total_failed
          ∷ nat totals.total_errors
          ∷ nat totals.total_skipped
          ∷ [];
    }
    ∷ []

abbrev pub suite_end : List Line
suite_end =
    record { format = "  </testsuite>\n"; args = [] }
    ∷ record { format = "</testsuites>\n"; args = [] }
    ∷ []

-- From the group's name on.
unfoldable pub print_suite :
    Buffer → CString → XmlTotals → List TimedTest → Destination → XmlState → Option XmlState
unfolding print_tests write
print_suite space group_name totals tests fp s =
    with_name (cmprepare_xml_attribute_string space group_name) λ name.
      and_then
        (print_tests space fp totals.total_executed tests (write fp (suite_start name totals) s))
        λ s₁. some (write fp suite_end s₁)

abbrev pub and_report :
    Option Opened → (Destination → Bool → XmlState → Option XmlState) → Option XmlState
and_report none f = none
and_report (some (fp, file_opened, s)) f = f fp file_opened s

-- `space` is what the buffers of 1024 bytes held before, and `env` the value of CMOCKA_XML_FILE.
unfoldable pub cmprintf_group_finish_xml :
    FileSystem
    → Buffer
    → Option CString
    → CString
    → XmlTotals
    → List TimedTest
    → XmlState
    → Option XmlState
unfolding open_report print_declaration print_suite
cmprintf_group_finish_xml files space env group_name totals tests s =
    and_report (open_report files space env group_name s) λ fp file_opened s₁.
      print_suite space group_name totals tests fp (print_declaration fp file_opened s₁)
