-- ===== src/Signals/Windows.antt =====
-- exception_filter of src/cmocka.c, which takes the place of the signal handler on Windows. The numbers
-- of the exception codes are a parameter, and so is `shown_debug_message` from before; the answer has
-- the one from behind.
use cmocka.Prelude.{
  ℕ, ◌≡◌, refl, Bool, true, false, not, Option, List, [], ◌∷◌, map, CString, String, codes,
  if◌then◌else◌, ◌==◌, Bool-cases, inl, inr,
}
use cmocka.State.{Global, Stream, str, nat}
use cmocka.State.Run.{M, ok, jumped, pure, ◌>>=◌, ◌>>◌, when}
use cmocka.Report.{cmocka_print_error, exit_test, abort_requested}
use cmocka.Report.Quiet.{
  after_messages, IsQuiet, >>-IsQuiet, when-IsQuiet, cmocka_print_error-IsQuiet,
}

pub record ExceptionCodeInfo : Type 0 where
  pub code : ℕ
  pub description : CString

pub data FilterAnswer : Type 0 where
  execute_handler continue_search : FilterAnswer

abbrev names : List String
names =
    "EXCEPTION_ACCESS_VIOLATION" ∷ "EXCEPTION_ARRAY_BOUNDS_EXCEEDED"
    ∷ "EXCEPTION_DATATYPE_MISALIGNMENT" ∷ "EXCEPTION_FLT_DENORMAL_OPERAND"
    ∷ "EXCEPTION_FLT_DIVIDE_BY_ZERO" ∷ "EXCEPTION_FLT_INEXACT_RESULT"
    ∷ "EXCEPTION_FLT_INVALID_OPERATION" ∷ "EXCEPTION_FLT_OVERFLOW" ∷ "EXCEPTION_FLT_STACK_CHECK"
    ∷ "EXCEPTION_FLT_UNDERFLOW" ∷ "EXCEPTION_GUARD_PAGE" ∷ "EXCEPTION_ILLEGAL_INSTRUCTION"
    ∷ "EXCEPTION_INT_DIVIDE_BY_ZERO" ∷ "EXCEPTION_INT_OVERFLOW" ∷ "EXCEPTION_INVALID_DISPOSITION"
    ∷ "EXCEPTION_INVALID_HANDLE" ∷ "EXCEPTION_IN_PAGE_ERROR" ∷ "EXCEPTION_NONCONTINUABLE_EXCEPTION"
    ∷ "EXCEPTION_PRIV_INSTRUCTION" ∷ "EXCEPTION_STACK_OVERFLOW" ∷ []

unfoldable pub exception_codes : (String → ℕ) → List ExceptionCodeInfo
exception_codes number = map (λ name. record { code = number name; description = codes name }) names

-- What is printed for an exception of the table.
unfoldable pub print_exception : CString → ℕ → Bool → M (Unit {0})
unfolding cmocka_print_error
print_exception description address shown = do
  cmocka_print_error "%s occurred at %p.\n" (str description ∷ nat address ∷ [])
  when (not shown) (
      cmocka_print_error
        "\nTo debug in Visual Studio...\n1. Select menu item File->Open Project\n2. Change 'Files of type' to 'Executable Files'\n3. Open this executable.\n4. Select menu item Debug->Start\n\nAlternatively, set the environment variable \nUNIT_TESTING_DEBUG to 1 and rebuild this executable, \nthen click 'Debug' in the popup dialog box.\n\n"
        [])

unfoldable pub filter_from : List ExceptionCodeInfo → ℕ → ℕ → Bool → M (FilterAnswer × Bool)
unfolding print_exception exit_test
filter_from [] code address shown = pure (continue_search, shown)
filter_from (info ∷ infos) code address shown =
    let rest = filter_from infos code address shown in
    if code == info.code
    then (print_exception info.description address shown
        >> (exit_test false >>= λ _. pure (execute_handler, true)))
    else rest

unfoldable pub exception_filter : (String → ℕ) → ℕ → ℕ → Bool → M (FilterAnswer × Bool)
unfolding exception_codes filter_from
exception_filter number = filter_from (exception_codes number)

print_exception-IsQuiet :
    (description : CString) (address : ℕ) (shown : Bool)
    → IsQuiet (print_exception description address shown)
unfolding print_exception
print_exception-IsQuiet description address shown =
    >>-IsQuiet _ _ (cmocka_print_error-IsQuiet _ _)
      (when-IsQuiet _ _ (cmocka_print_error-IsQuiet _ _))

abbrev is_known : List ExceptionCodeInfo → ℕ → Bool
is_known [] code = false
is_known (info ∷ infos) code = if code == info.code then true else is_known infos code

exit_jumps :
    (g : Global)
    → g.running_test ≡ true
    → abort_requested g.libc.test_abort ≡ false
    → exit_test false g ≡ jumped g
unfolding exit_test
exit_jumps g running no_abort = elim (Bool-cases g.skip_test) [
  | inl e ↦ rw (e, running)
  | inr e ↦ rw (e, no_abort, running)
]

filter_from_cases :
    (infos : List ExceptionCodeInfo) (code address : ℕ) (shown : Bool) (g : Global)
    → (is_known infos code ≡ true
        → g.running_test ≡ true
        → abort_requested g.libc.test_abort ≡ false
        → (message : Option CString) × (lines : List (Stream × CString)) × (filter_from infos code
              address shown g
            ≡ jumped (after_messages g message lines)))
      × (is_known infos code ≡ false
          → filter_from infos code address shown g ≡ ok (continue_search, shown) g)
unfolding filter_from
filter_from_cases [] code address shown g = ((λ e. cc), (λ e. refl))
filter_from_cases (info ∷ infos) code address shown g = elim (Bool-cases (code == info.code)) [
  | inl same ↦
      let (message, lines, e) = (print_exception-IsQuiet info.description address shown).prints g in
      (
        λ known running no_abort. (
          message,
          lines,
          rw (same, e, exit_jumps (after_messages g message lines) running no_abort) refl,
        ),
        λ unknown. cc (rw same at unknown),
      )
  | inr other ↦
      let (ends, goes_on) = filter_from_cases infos code address shown g in
      (
        λ known running no_abort. rw other (ends (rw other at known) running no_abort),
        λ unknown. rw other (goes_on (rw other at unknown)),
      )
]

-- While a test runs that is not to abort, an exception of the table ends it with a message; the search
-- for a handler of any other goes on, and nothing has changed.
exception_filter_cases :
    (number : String → ℕ) (code address : ℕ) (shown : Bool) (g : Global)
    → (is_known (exception_codes number) code ≡ true
        → g.running_test ≡ true
        → abort_requested g.libc.test_abort ≡ false
        → (message : Option CString) × (lines : List (Stream × CString)) × (exception_filter number
              code address shown g
            ≡ jumped (after_messages g message lines)))
      × (is_known (exception_codes number) code ≡ false
          → exception_filter number code address shown g ≡ ok (continue_search, shown) g)
unfolding exception_filter
exception_filter_cases number = filter_from_cases (exception_codes number)
