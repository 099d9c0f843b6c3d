-- ===== src/Runner/Steady.antt =====
-- What the runner's own lines leave alone: cmprintf, cmprintf_group_start, cmprintf_group_finish.
use cmocka.Prelude.{ℕ, true, Option, none, some, List, [], ◌∷◌, CString, String, refl}
use cmocka.State.{Global, Arg}
use cmocka.State.Run.{◌>>◌, modify}
use cmocka.Report.{print_message, print_error}
use cmocka.Report.Steady.{
  IsSteady, pure-IsSteady, when-IsSteady, >>-IsSteady, read_state-IsSteady, print_message-IsSteady,
  print_error-IsSteady, get_output-IsSteady,
}
use cmocka.Runner.Print.{
  PrintfType, test_start, test_success, test_failure, test_error, test_skipped, cmprintf,
  cmprintf_standard, cmprintf_tap, cmprintf_subunit, print_comments, tap_lines, print_names,
  cmprintf_group_start, cmprintf_group_start_tap, cmprintf_group_finish,
  cmprintf_group_finish_standard, cmprintf_group_finish_tap,
}

cmprintf_standard-IsSteady :
    (type : PrintfType) (name : CString) (message : Option CString)
    → IsSteady (cmprintf_standard type name message)
unfolding cmprintf_standard
cmprintf_standard-IsSteady test_start name message = print_message-IsSteady _ _
cmprintf_standard-IsSteady test_success name message = print_message-IsSteady _ _
cmprintf_standard-IsSteady test_failure name none =
    >>-IsSteady _ _ pure-IsSteady (print_message-IsSteady _ _)
cmprintf_standard-IsSteady test_failure name (some text) =
    >>-IsSteady _ _ (print_error-IsSteady _ _) (print_message-IsSteady _ _)
cmprintf_standard-IsSteady test_skipped name message = print_message-IsSteady _ _
cmprintf_standard-IsSteady test_error name none =
    >>-IsSteady _ _ pure-IsSteady (print_error-IsSteady _ _)
cmprintf_standard-IsSteady test_error name (some text) =
    >>-IsSteady _ _ (print_error-IsSteady _ _) (print_error-IsSteady _ _)

comments-IsSteady : (lines : List CString) → IsSteady (print_comments lines)
unfolding print_comments
comments-IsSteady [] = pure-IsSteady
comments-IsSteady (line ∷ lines) =
    >>-IsSteady _ _ (print_message-IsSteady _ _) (comments-IsSteady lines)

cmprintf_tap-IsSteady :
    (type : PrintfType) (number : ℕ) (name : CString) (message : Option CString)
    → IsSteady (cmprintf_tap type number name message)
unfolding cmprintf_tap
cmprintf_tap-IsSteady test_start number name message = pure-IsSteady
cmprintf_tap-IsSteady test_success number name message = print_message-IsSteady _ _
cmprintf_tap-IsSteady test_failure number name none =
    >>-IsSteady _ _ (print_message-IsSteady _ _) pure-IsSteady
cmprintf_tap-IsSteady test_failure number name (some text) =
    >>-IsSteady _ _ (print_message-IsSteady _ _) (comments-IsSteady (tap_lines [] text))
cmprintf_tap-IsSteady test_skipped number name message = print_message-IsSteady _ _
cmprintf_tap-IsSteady test_error number name message = print_message-IsSteady _ _

cmprintf_subunit-IsSteady :
    (type : PrintfType) (name : CString) (message : Option CString)
    → IsSteady (cmprintf_subunit type name message)
unfolding cmprintf_subunit
cmprintf_subunit-IsSteady test_start name message = print_message-IsSteady _ _
cmprintf_subunit-IsSteady test_success name message = print_message-IsSteady _ _
cmprintf_subunit-IsSteady test_failure name none =
    >>-IsSteady _ _ (print_message-IsSteady _ _) pure-IsSteady
cmprintf_subunit-IsSteady test_failure name (some text) =
    >>-IsSteady _ _ (print_message-IsSteady _ _) (print_message-IsSteady _ _)
cmprintf_subunit-IsSteady test_skipped name message = print_message-IsSteady _ _
cmprintf_subunit-IsSteady test_error name message = print_message-IsSteady _ _

pub cmprintf-IsSteady :
    (type : PrintfType) (number : ℕ) (name : CString) (message : Option CString)
    → IsSteady (cmprintf type number name message)
unfolding cmprintf
cmprintf-IsSteady type number name message = get_output-IsSteady _ λ output.
    >>-IsSteady _ _ (when-IsSteady _ _ (cmprintf_standard-IsSteady type name message)) (
      >>-IsSteady _ _ (when-IsSteady _ _ (cmprintf_subunit-IsSteady type name message))
        (when-IsSteady _ _ (cmprintf_tap-IsSteady type number name message)))

names-IsSteady : (format : String) (names : List CString) → IsSteady (print_names format names)
unfolding print_names
names-IsSteady format [] = pure-IsSteady
names-IsSteady format (name ∷ names) =
    >>-IsSteady _ _ (print_error-IsSteady _ _) (names-IsSteady format names)

start_tap-IsSteady : (num_tests : ℕ) → IsSteady (cmprintf_group_start_tap num_tests)
unfolding cmprintf_group_start_tap
start_tap-IsSteady num_tests =
    read_state-IsSteady _
      λ g. >>-IsSteady _ _ (when-IsSteady _ _ versioned) (print_message-IsSteady _ _)
  where
    versioned : IsSteady (
        print_message "TAP version 13\n" []
        >> modify (λ (h : Global). record h { version_printed = true }))
    versioned = >>-IsSteady _ _ (print_message-IsSteady _ _) (record {
      runs = λ h. (
        record h { version_printed = true },
        refl,
        record { libc = refl; skip_test = refl; stop_test = refl; allocated_blocks = refl },
      );
    })

pub cmprintf_group_start-IsSteady :
    (group_name : CString) (num_tests : ℕ) → IsSteady (cmprintf_group_start group_name num_tests)
unfolding cmprintf_group_start
cmprintf_group_start-IsSteady group_name num_tests = get_output-IsSteady _ λ output.
    >>-IsSteady _ _ (when-IsSteady _ _ (print_message-IsSteady _ _))
      (when-IsSteady _ _ (start_tap-IsSteady num_tests))

listed-IsSteady :
    (head each foot : String) (heads feet : List Arg) (names : List CString)
    → IsSteady (print_error head heads >> (print_names each names >> print_error foot feet))
listed-IsSteady head each foot heads feet names =
    >>-IsSteady _ _ (print_error-IsSteady _ _)
      (>>-IsSteady _ _ (names-IsSteady _ names) (print_error-IsSteady _ _))

finish_standard-IsSteady :
    (name : CString) (executed passed failed errors skipped : ℕ)
    (skipped_names failed_names : List CString)
    → IsSteady (
        cmprintf_group_finish_standard name executed passed failed errors skipped skipped_names
          failed_names)
unfolding cmprintf_group_finish_standard
finish_standard-IsSteady name executed passed failed errors skipped skipped_names failed_names =
    >>-IsSteady _ _ (print_message-IsSteady _ _) (
      >>-IsSteady _ _ (print_error-IsSteady _ _) (
        >>-IsSteady _ _ (when-IsSteady _ _ (listed-IsSteady _ _ _ _ _ skipped_names))
          (when-IsSteady _ _ (listed-IsSteady _ _ _ _ _ failed_names))))

finish_tap-IsSteady :
    (name : CString) (executed passed skipped : ℕ)
    → IsSteady (cmprintf_group_finish_tap name executed passed skipped)
unfolding cmprintf_group_finish_tap
finish_tap-IsSteady name executed passed skipped = print_message-IsSteady _ _

pub cmprintf_group_finish-IsSteady :
    (name : CString) (executed passed failed errors skipped : ℕ)
    (skipped_names failed_names : List CString)
    → IsSteady (
        cmprintf_group_finish name executed passed failed errors skipped skipped_names failed_names)
unfolding cmprintf_group_finish
cmprintf_group_finish-IsSteady name executed passed failed errors skipped skipped_names
      failed_names =
    get_output-IsSteady _ λ output.
      >>-IsSteady _ _
        (when-IsSteady _ _ (
          finish_standard-IsSteady name executed passed failed errors skipped skipped_names
            failed_names))
        (when-IsSteady _ _ (finish_tap-IsSteady name executed passed skipped))
