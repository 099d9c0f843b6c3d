-- ===== src/Report/Quiet.antt =====
-- What messages change: the message buffer and what is printed.
use cmocka.Prelude.{Bool, true, false, Option, some, List, CString, String, ◌≡◌, refl, ap}
use cmocka.State.{Global, Arg, Stream}
use cmocka.State.Run.{M, Outcome, ok, pure, ◌>>◌, when}
use cmocka.Prelude.{if◌then◌else◌}
use cmocka.Report.{cmocka_print_error, print_error, vcmocka_print_error}

-- The state once messages have been added.
abbrev pub after_messages : Global → Option CString → List (Stream × CString) → Global
after_messages g message lines = record g { error_message = message; printed = lines }

abbrev pub Prints : Global → Outcome (Unit {0}) → Type 0
Prints g o =
    (message : Option CString) × (lines : List (Stream × CString)) × (o
      ≡ ok tt (after_messages g message lines))

pub if-Prints :
    (b : Bool) (m n : M (Unit {0})) (g : Global)
    → Prints g (m g)
    → Prints g (n g)
    → Prints g ((if b then m else n) g)
if-Prints true m n g h k = h
if-Prints false m n g h k = k

text-Prints :
    (b : Bool) (text : CString) (g : Global)
    → (message : Option CString) × (lines : List (Stream × CString)) × ((if b
          then record g { error_message = some text }
          else g)
        ≡ after_messages g message lines)
text-Prints true text g = (some text, g.printed, refl)
text-Prints false text g = (g.error_message, g.printed, refl)

pub cmocka_print_error-Prints :
    (format : String) (args : List Arg) (g : Global) → Prints g (cmocka_print_error format args g)
unfolding cmocka_print_error
cmocka_print_error-Prints format args g =
    if-Prints g.error_message_enabled (vcmocka_print_error (g.libc.format format args))
      (print_error format args) g
      (let (message, lines, e) = text-Prints _ _ g in (message, lines, ap (ok tt) e)) (_, _, refl)

-- A command that does no more than print, from every state.
pub record IsQuiet (m : M (Unit {0})) : Type 0 where
  pub prints : (g : Global) → Prints g (m g)

pub pure-IsQuiet : IsQuiet (pure tt)
pure-IsQuiet = record { prints = λ g. (g.error_message, g.printed, refl) }

pub cmocka_print_error-IsQuiet :
    (format : String) (args : List Arg) → IsQuiet (cmocka_print_error format args)
cmocka_print_error-IsQuiet format args = record { prints = cmocka_print_error-Prints format args }

pub when-IsQuiet : (b : Bool) (m : M (Unit {0})) → IsQuiet m → IsQuiet (when b m)
when-IsQuiet true m q = q
when-IsQuiet false m q = pure-IsQuiet

pub >>-IsQuiet : (m n : M (Unit {0})) → IsQuiet m → IsQuiet n → IsQuiet (m >> n)
>>-IsQuiet m n q r = record {
  prints =
      λ g. let (message, lines, e) = q.prints g in rw e (r.prints (after_messages g message lines));
}
