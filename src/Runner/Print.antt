-- ===== src/Runner/Print.antt =====
-- cmprintf and the group lines of src/cmocka.c, in the standard, subunit and TAP formats. The XML report
-- is a function of its own, in Xml.
use cmocka.Prelude.{ℕ, ◌+◌, true, not, Option, none, some, List, [], ◌∷◌, ◌++◌, CString}
use cmocka.Prelude.{if◌then◌else◌, ◌==◌, codes, String}
use cmocka.State.{str, nat}
use cmocka.State.Run.{M, pure, ◌>>=◌, ◌>>◌, when, gets, modify}
use cmocka.Report.{print_message, print_error}
use cmocka.Report.Output.{
  cm_get_output, has_flag, cm_output_standard, cm_output_subunit, cm_output_tap,
}

pub data PrintfType : Type 0 where
  test_start test_success test_failure test_error test_skipped : PrintfType

abbrev print_optional : (CString → M (Unit {0})) → Option CString → M (Unit {0})
print_optional print none = pure tt
print_optional print (some text) = print text

-- A NULL that is printed by "%s".
abbrev pub text_of : Option CString → CString
text_of none = codes "(null)"
text_of (some text) = text

unfoldable pub cmprintf_standard : PrintfType → CString → Option CString → M (Unit {0})
unfolding print_message print_error
cmprintf_standard test_start test_name error_message =
    print_message "[ RUN      ] %s\n" (str test_name ∷ [])
cmprintf_standard test_success test_name error_message =
    print_message "[       OK ] %s\n" (str test_name ∷ [])
cmprintf_standard test_failure test_name error_message = do
  print_optional (λ text. print_error "[  ERROR   ] --- %s\n" (str text ∷ [])) error_message
  print_message "[  FAILED  ] %s\n" (str test_name ∷ [])
cmprintf_standard test_skipped test_name error_message =
    print_message "[  SKIPPED ] %s\n" (str test_name ∷ [])
cmprintf_standard test_error test_name error_message = do
  print_optional (λ text. print_error "%s\n" (str text ∷ [])) error_message
  print_error "[  ERROR   ] %s\n" (str test_name ∷ [])

-- The lines of the message, one comment line each; the empty rest behind a last newline has none.
unfoldable pub tap_lines : CString → CString → List CString
tap_lines [] [] = []
tap_lines (d ∷ line) [] = (d ∷ line) ∷ []
tap_lines line (c ∷ text) =
    let ended = tap_lines [] text in
    let longer = tap_lines (line ++ c ∷ []) text in if c == 10 then line ∷ ended else longer

unfoldable pub print_comments : List CString → M (Unit {0})
unfolding print_message
print_comments [] = pure tt
print_comments (line ∷ lines) = print_message "# %s\n" (str line ∷ []) >> print_comments lines

unfoldable pub cmprintf_tap : PrintfType → ℕ → CString → Option CString → M (Unit {0})
unfolding print_message print_comments tap_lines
cmprintf_tap test_start test_number test_name error_message = pure tt
cmprintf_tap test_success test_number test_name error_message =
    print_message "ok %u - %s\n" (nat test_number ∷ str test_name ∷ [])
cmprintf_tap test_failure test_number test_name error_message = do
  print_message "not ok %u - %s\n" (nat test_number ∷ str test_name ∷ [])
  print_optional (λ text. print_comments (tap_lines [] text)) error_message
cmprintf_tap test_skipped test_number test_name error_message =
    print_message "ok %u # SKIP %s\n" (nat test_number ∷ str test_name ∷ [])
cmprintf_tap test_error test_number test_name error_message =
    print_message "not ok %u - %s %s\n"
      (nat test_number ∷ str test_name ∷ str (text_of error_message) ∷ [])

unfoldable pub cmprintf_subunit : PrintfType → CString → Option CString → M (Unit {0})
unfolding print_message
cmprintf_subunit test_start test_name error_message =
    print_message "test: %s\n" (str test_name ∷ [])
cmprintf_subunit test_success test_name error_message =
    print_message "success: %s\n" (str test_name ∷ [])
cmprintf_subunit test_failure test_name error_message = do
  print_message "failure: %s" (str test_name ∷ [])
  print_optional (λ text. print_message " [\n%s\n]\n" (str text ∷ [])) error_message
cmprintf_subunit test_skipped test_name error_message =
    print_message "skip: %s\n" (str test_name ∷ [])
cmprintf_subunit test_error test_name error_message =
    print_message "error: %s [ %s ]\n" (str test_name ∷ str (text_of error_message) ∷ [])

unfoldable pub cmprintf : PrintfType → ℕ → CString → Option CString → M (Unit {0})
unfolding cm_get_output has_flag cmprintf_standard cmprintf_tap cmprintf_subunit
cmprintf type test_number test_name error_message = do
  output ← cm_get_output
  when (has_flag output cm_output_standard) (cmprintf_standard type test_name error_message)
  when (has_flag output cm_output_subunit) (cmprintf_subunit type test_name error_message)
  when (has_flag output cm_output_tap) (cmprintf_tap type test_number test_name error_message)

-- `TAP version 13` goes out once; `version_printed` says whether it has.
unfoldable pub cmprintf_group_start_tap : ℕ → M (Unit {0})
unfolding print_message
cmprintf_group_start_tap num_tests = do
  g ← gets (λ g. g)
  when (not g.version_printed)
      (do print_message "TAP version 13\n" []; modify (λ g. record g { version_printed = true }))
  print_message "1..%u\n" (nat num_tests ∷ [])

unfoldable pub cmprintf_group_start : CString → ℕ → M (Unit {0})
unfolding cm_get_output has_flag print_message cmprintf_group_start_tap
cmprintf_group_start group_name num_tests = do
  output ← cm_get_output
  when (has_flag output cm_output_standard) (
      print_message "[==========] %s: Running %zu test(s).\n" (str group_name ∷ nat num_tests ∷ []))
  when (has_flag output cm_output_tap) (cmprintf_group_start_tap num_tests)

unfoldable pub print_names : String → List CString → M (Unit {0})
unfolding print_error
print_names format [] = pure tt
print_names format (name ∷ names) = print_error format (str name ∷ []) >> print_names format names

-- `skipped` and `failed` are the names of the tests of that status.
unfoldable pub cmprintf_group_finish_standard :
    CString → ℕ → ℕ → ℕ → ℕ → ℕ → List CString → List CString → M (Unit {0})
unfolding print_message print_error print_names
cmprintf_group_finish_standard group_name executed passed failed errors skipped skipped_names
      failed_names =
    do
      print_message "[==========] %s: %zu test(s) run.\n" (str group_name ∷ nat executed ∷ [])
      print_error "[  PASSED  ] %u test(s).\n" (nat passed ∷ [])
      when (not (skipped == 0)) (do
        print_error "[  SKIPPED ] %s: %zu test(s), listed below:\n"
            (str group_name ∷ nat skipped ∷ [])
        print_names "[  SKIPPED ] %s\n" skipped_names
        print_error "\n %zu SKIPPED TEST(S)\n" (nat skipped ∷ []))
      when (not (failed == 0)) (do
        print_error "[  FAILED  ] %s: %zu test(s), listed below:\n"
            (str group_name ∷ nat failed ∷ [])
        print_names "[  FAILED  ] %s\n" failed_names
        print_error "\n %zu FAILED TEST(S)\n" (nat (failed + errors) ∷ []))

unfoldable pub cmprintf_group_finish_tap : CString → ℕ → ℕ → ℕ → M (Unit {0})
unfolding print_message
cmprintf_group_finish_tap group_name executed passed skipped = print_message "# %s - %s\n" (
    str (if passed + skipped == executed then codes "ok" else codes "not ok") ∷ str group_name ∷ [])

unfoldable pub cmprintf_group_finish :
    CString → ℕ → ℕ → ℕ → ℕ → ℕ → List CString → List CString → M (Unit {0})
unfolding cm_get_output has_flag cmprintf_group_finish_standard cmprintf_group_finish_tap
cmprintf_group_finish group_name executed passed failed errors skipped skipped_names failed_names =
    do
      output ← cm_get_output
      when (has_flag output cm_output_standard) (
          cmprintf_group_finish_standard group_name executed passed failed errors skipped
            skipped_names failed_names)
      when (has_flag output cm_output_tap)
          (cmprintf_group_finish_tap group_name executed passed skipped)
