-- ===== src/Report/Steady.antt =====
-- What output leaves alone: print_message, print_error and cm_get_output.
use cmocka.Prelude.{
  ℕ, ◌+◌, Bool, true, false, Option, none, some, List, CString, String, ◌≡◌, refl, ◌∙◌,
  if◌then◌else◌, ltb, length, ◌==◌, not, ◌||◌,
}
use cmocka.State.{Global, Arg, Stream}
use cmocka.State.Run.{M, Outcome, ok, pure, ◌>>=◌, ◌>>◌, when, gets}
use cmocka.Report.{print_message, print_error}
use cmocka.Report.Output.{cm_get_output, read_output, from_environment}

-- The two states agree on what the next test depends on.
pub record Same (g g' : Global) : Type 0 where
  pub libc : g'.libc ≡ g.libc
  pub skip_test : g'.skip_test ≡ g.skip_test
  pub stop_test : g'.stop_test ≡ g.stop_test
  pub allocated_blocks : g'.allocated_blocks ≡ g.allocated_blocks

pub Same-refl : (g : Global) → Same g g
Same-refl g = record { libc = refl; skip_test = refl; stop_test = refl; allocated_blocks = refl }

pub Same-trans : (g h k : Global) → Same g h → Same h k → Same g k
Same-trans g h k s t = record {
  libc = t.libc ∙ s.libc;
  skip_test = t.skip_test ∙ s.skip_test;
  stop_test = t.stop_test ∙ s.stop_test;
  allocated_blocks = t.allocated_blocks ∙ s.allocated_blocks;
}

-- A command that returns, in a state that agrees with the one it started in.
pub record IsSteady (m : M (Unit {0})) : Type 0 where
  pub runs : (g : Global) → (g' : Global) × (m g ≡ ok tt g') × Same g g'

pub pure-IsSteady : IsSteady (pure tt)
pure-IsSteady = record { runs = λ g. (g, refl, Same-refl g) }

pub read_state-IsSteady :
    (k : Global → M (Unit {0})) → ((g : Global) → IsSteady (k g)) → IsSteady (gets (λ g. g) >>= k)
read_state-IsSteady k s = record { runs = λ g. (s g).runs g }

pub when-IsSteady : (b : Bool) (m : M (Unit {0})) → IsSteady m → IsSteady (when b m)
when-IsSteady true m s = s
when-IsSteady false m s = pure-IsSteady

pub >>-IsSteady : (m n : M (Unit {0})) → IsSteady m → IsSteady n → IsSteady (m >> n)
>>-IsSteady m n s t = record {
  runs = λ g.
      let (g₁, e, same₁) = s.runs g in
      let (g₂, e₂, same₂) = t.runs g₁ in (g₂, rw e e₂, Same-trans g g₁ g₂ same₁ same₂);
}

printed_more :
    (g : Global) (lines : List (Stream × CString)) → Same g (record g { printed = lines })
printed_more g lines = record {
  libc = refl;
  skip_test = refl;
  stop_test = refl;
  allocated_blocks = refl;
}

pub print_message-IsSteady :
    (format : String) (args : List Arg) → IsSteady (print_message format args)
unfolding print_message
print_message-IsSteady format args = record { runs = λ g. (_, refl, printed_more g _) }

pub print_error-IsSteady : (format : String) (args : List Arg) → IsSteady (print_error format args)
unfolding print_error
print_error-IsSteady format args = record { runs = λ g. (_, refl, printed_more g _) }

-- The call returns a value, in a state that agrees with the one it started in.
abbrev pub Answers {ℓ} : {A : Type ℓ} → Global → Outcome A → Type ℓ
Answers {A = A} g o = (a : A) × (g' : Global) × (o ≡ ok a g') × Same g g'

if-Answers :
    (b : Bool) (o p : Outcome ℕ) (g : Global)
    → Answers g o
    → Answers g p
    → Answers g (if b then o else p)
if-Answers true o p g h k = h
if-Answers false o p g h k = k

-- A new setting of the output formats.
set-Answers :
    (output : ℕ) (checked : Bool) (g : Global)
    → Answers g (ok output (record g { msg_output = output; env_checked = checked }))
set-Answers output checked g = (
  _,
  _,
  refl,
  record { libc = refl; skip_test = refl; stop_test = refl; allocated_blocks = refl },
)

-- cm_get_output answers, whatever the environment holds.
read-Answers : (env : CString) (g : Global) → Answers g (read_output env g)
unfolding read_output
read-Answers env g =
    if-Answers (length env == 0 || ltb 32 (length env)) _ _ g (g.msg_output, g, refl, Same-refl g)
      (if-Answers (not (g.libc.alloc_ok (length env + 1))) _ _ g
        (g.msg_output, g, refl, Same-refl g) (set-Answers _ true g))

pub get_output-Answers : (g : Global) → Answers g (cm_get_output g)
unfolding cm_get_output
get_output-Answers g =
    if-Answers g.env_checked _ _ g (_, _, refl, Same-refl g) (unchecked g.libc.message_output)
  where
    unchecked : (env : Option CString) → Answers g (from_environment env g)
    unchecked none = (_, _, refl, Same-refl g)
    unchecked (some env) = read-Answers env g

pub get_output-IsSteady :
    (k : ℕ → M (Unit {0})) → ((output : ℕ) → IsSteady (k output)) → IsSteady (cm_get_output >>= k)
get_output-IsSteady k s = record {
  runs = λ g.
      let (output, g₁, e, same₁) = get_output-Answers g in
      let (g₂, e₂, same₂) = (s output).runs g₁ in (g₂, rw e e₂, Same-trans g g₁ g₂ same₁ same₂);
}
