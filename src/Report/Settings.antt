-- ===== src/Report/Settings.antt =====
-- The settings of a program: cmocka_set_message_output, cmocka_set_test_filter and
-- cmocka_set_skip_filter.
use cmocka.Prelude.{ℕ, ◌≡◌, Bool-cases, inl, inr, Option, none, CString}
use cmocka.State.{Global}
use cmocka.State.Run.{M, ok, modify, ◌>>◌}
use cmocka.Report.Output.{cm_get_output}

unfoldable cmocka_set_message_output : ℕ → M (Unit {0})
cmocka_set_message_output output = modify (λ g. record g { msg_output = output })

unfoldable cmocka_set_test_filter : Option CString → M (Unit {0})
cmocka_set_test_filter pattern = modify (λ g. record g { test_filter_pattern = pattern })

unfoldable cmocka_set_skip_filter : Option CString → M (Unit {0})
cmocka_set_skip_filter pattern = modify (λ g. record g { skip_filter_pattern = pattern })

-- The setting is what cm_get_output answers where the environment does not say otherwise.
set_message_output-kept :
    (output : ℕ) (g : Global)
    → g.libc.message_output ≡ none
    → (cmocka_set_message_output output >> cm_get_output) g
      ≡ ok output (record g { msg_output = output })
unfolding cmocka_set_message_output cm_get_output
set_message_output-kept output g none_set = elim (Bool-cases g.env_checked) [
  | inl e ↦ rw e
  | inr e ↦ rw (e, none_set)
]
