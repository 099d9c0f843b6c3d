-- ===== src/Report.antt =====
-- Messages and the ends of a test in src/cmocka.c: cmocka_print_error, cm_get_output, exit_test, _fail,
-- _skip, _stop, mock_assert, exception_handler.
pub mod Quiet
pub mod Output
pub mod Settings
pub mod Ends
pub mod Steady
use Prim.Native.Nat.{bit_and}
use cmocka.Prelude.{ℕ, ◌+◌, ◌-◌, Bool, true, false, Option, none, some, List, [], ◌∷◌, ◌++◌, String}
use cmocka.Prelude.{CString, if◌then◌else◌, ltb, length, take, ◌==◌, not, ◌&&◌, ◌||◌, str_eq, codes}
use cmocka.State.{Global, Arg, str, nat, int, Stream, stdout, stderr, SourceLocation}
use cmocka.State.Run.{
  M, ok, jumped, assert_jumped, exited, aborted, pure, ◌>>=◌, ◌>>◌, modify, gets, when,
}
use cmocka.Report.Output.{cm_get_output, has_flag, cm_output_standard, cm_output_subunit}
use cmocka.Report.Output.{cm_output_tap, cm_output_xml}

abbrev print : Stream → String → List Arg → M (Unit {0})
print to format args =
    modify λ g. record g { printed = g.printed ++ (to, g.libc.format format args) ∷ [] }

unfoldable pub print_message : String → List Arg → M (Unit {0})
print_message = print stdout

unfoldable pub print_error : String → List Arg → M (Unit {0})
print_error = print stderr

-- The bytes that are stored behind the message so far: all of a text that fits the buffer of 256
-- bytes, and else what `vsnprintf` writes into `len` bytes, its NUL among them.
pub stored_text : CString → CString
stored_text text = if ltb (length text) 256 then text else take (length text - 1) text

abbrev message_bytes : Option CString → CString
message_bytes none = []
message_bytes (some text) = text

pub vcmocka_print_error : CString → M (Unit {0})
unfolding stored_text
vcmocka_print_error text = modify λ g.
    if g.libc.alloc_ok (length (message_bytes g.error_message) + length text + 1)
    then record g { error_message = some (message_bytes g.error_message ++ stored_text text) }
    else g

unfoldable pub cmocka_print_error : String → List Arg → M (Unit {0})
unfolding vcmocka_print_error print_error
cmocka_print_error format args = do
  g ← gets (λ g. g)
  if g.error_message_enabled
      then vcmocka_print_error (g.libc.format format args)
      else print_error format args

-- `env != NULL && strlen(env) == 1 && env[0] == '1'`
unfoldable pub abort_requested : Option CString → Bool
abort_requested none = false
abort_requested (some []) = false
abort_requested (some (c ∷ [])) = c == b'1'
abort_requested (some (c ∷ d ∷ env)) = false

abbrev print_pending : Option CString → M (Unit {0})
print_pending none = pure tt
print_pending (some text) = print_error "%s" (str text ∷ [])

abbrev abort : M (Unit {0})
abort g = aborted g

abbrev pub exit_failure : M (Unit {0})
exit_failure g = exited g

abbrev longjmp_run_test_env : M (Unit {0})
longjmp_run_test_env g = jumped g

unfoldable pub exit_test : Bool → M (Unit {0})
unfolding abort_requested print_error
exit_test quit_application = do
  g ← gets (λ g. g)
  if not g.skip_test && abort_requested g.libc.test_abort
      then (do print_pending g.error_message; abort)
      else if g.running_test
      then longjmp_run_test_env
      else if quit_application
      then exit_failure
      else pure tt

unfoldable pub additional_msg : CString → M (Unit {0})
unfolding cm_get_output cmocka_print_error has_flag
additional_msg msg = do
  output ← cm_get_output
  when (has_flag output cm_output_standard)
      (cmocka_print_error "[          ] --- %s\n" (str msg ∷ []))
  when
      (has_flag output cm_output_subunit
        || has_flag output cm_output_tap
        || has_flag output cm_output_xml)
      (cmocka_print_error "%s\n" (str msg ∷ []))

-- What _fail prints, by the output format.
unfoldable pub print_failure : ℕ → CString → ℕ → M (Unit {0})
unfolding cmocka_print_error has_flag
print_failure output file line = do
  when (has_flag output cm_output_standard)
      (cmocka_print_error "[   LINE   ] --- %s:%u: error: Failure!" (str file ∷ nat line ∷ []))
  when
      (has_flag output cm_output_subunit
        || has_flag output cm_output_tap
        || has_flag output cm_output_xml)
      (cmocka_print_error "%s:%u: error: Failure!" (str file ∷ nat line ∷ []))

-- The `exit` behind a call that does not return comes last, as in the source.
unfoldable pub fail : CString → ℕ → M (Unit {0})
unfolding cm_get_output print_failure exit_test
fail file line = do
  output ← cm_get_output
  print_failure output file line
  exit_test true
  exit_failure

unfoldable pub skip : CString → ℕ → M (Unit {0})
unfolding cmocka_print_error exit_test
skip file line = do
  cmocka_print_error "%s:%u: Skipped!\n" (str file ∷ nat line ∷ [])
  modify (λ g. record g { skip_test = true })
  exit_test true
  exit_failure

unfoldable pub stop : M (Unit {0})
unfolding exit_test
stop = do modify (λ g. record g { stop_test = true }); exit_test true; exit_failure

-- `description` is what `strsignal` says of the signal.
unfoldable pub exception_handler : ℕ → CString → M (Unit {0})
unfolding cmocka_print_error exit_test
exception_handler sig description = do
  cmocka_print_error "Test failed with exception: %s(%d)" (str description ∷ nat sig ∷ [])
  exit_test true
  exit_failure

abbrev longjmp_expect_assert_env : M (Unit {0})
longjmp_expect_assert_env g = assert_jumped g

unfoldable pub mock_assert : Bool → CString → CString → ℕ → M (Unit {0})
unfolding cmocka_print_error fail
mock_assert result expression file line =
    if not result
    then (do
      g ← gets (λ g. g)
      if g.expecting_assert
          then (do
            modify (λ g. record g { last_failed_assert = some expression })
            longjmp_expect_assert_env)
          else (do cmocka_print_error "ASSERT: %s\n" (str expression ∷ []); fail file line))
    else pure tt
