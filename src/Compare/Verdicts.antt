-- ===== src/Compare/Verdicts.antt =====
-- What the comparisons answer.
use cmocka.Prelude.{ℕ, ◌≡◌, refl, ◌↔◌, Bool, true, false, not, List, []}
use cmocka.Prelude.{◌∷◌, String, arith, Bool-cases, inl, inr, if◌then◌else◌, ◌==◌}
use cmocka.State.{Global, Arg, nat, int}
use cmocka.State.Run.{M, Outcome, ok, ◌>>◌}
use cmocka.Report.{cmocka_print_error, print_error, vcmocka_print_error}
use cmocka.Prelude.Int.{ℤ, eq_ℤ}
use cmocka.Compare.{
  verdict, in_set_flag, in_set_verdict, print_set, uint_value_in_set_display_error,
}
use cmocka.Compare.{int_value_in_set_display_error}

-- The call returns that answer.
abbrev pub Answers : {A : Type 0} → A → Outcome A → Type 0
Answers a o = (g : Global) × (o ≡ ok a g)

pub if-Answers :
    {A : Type 0} (a : A) (b : Bool) (m n : M A) (g : Global)
    → Answers a (m g)
    → Answers a (n g)
    → Answers a ((if b then m else n) g)
if-Answers a true m n g h k = h
if-Answers a false m n g h k = k

-- Printing a message returns.
pub cmocka_print_error-returns :
    (format : String) (args : List Arg) (g : Global) → Answers tt (cmocka_print_error format args g)
unfolding cmocka_print_error
cmocka_print_error-returns format args g =
    if-Answers tt g.error_message_enabled (vcmocka_print_error (g.libc.format format args))
      (print_error format args) g (_, refl) (_, refl)

pub verdict-Answers :
    (holds : Bool) (format : String) (args : List Arg) (g : Global)
    → Answers holds (verdict holds format args g)
unfolding verdict
verdict-Answers true format args g = (g, refl)
verdict-Answers false format args g =
    let (g', e) = cmocka_print_error-returns format args g in (g', rw e)

pub >>-Answers :
    {A : Type 0} (a : A) (m : M (Unit {0})) (k : M A) (g : Global)
    → ((g : Global) → Answers tt (m g))
    → ((g : Global) → Answers a (k g))
    → Answers a ((m >> k) g)
>>-Answers a m k g h j = let (g₁, e) = h g in let (g₂, f) = j g₁ in (g₂, rw e f)

print_set-returns :
    {A : Type 0} (arg : A → Arg) (inner last : String) (set : List A) (g : Global)
    → Answers tt (print_set arg inner last set g)
unfolding print_set
print_set-returns arg inner last [] g = (g, refl)
print_set-returns arg inner last (x ∷ []) g = cmocka_print_error-returns last (arg x ∷ []) g
print_set-returns arg inner last (x ∷ y ∷ set) g =
    >>-Answers tt (cmocka_print_error inner (arg x ∷ [])) (print_set arg inner last (y ∷ set)) g
      (cmocka_print_error-returns inner (arg x ∷ [])) (print_set-returns arg inner last (y ∷ set))

in_set_verdict-Answers :
    (b : Bool) (report : M (Unit {0})) (g : Global)
    → ((g : Global) → Answers tt (report g))
    → Answers b (in_set_verdict b report g)
unfolding in_set_verdict
in_set_verdict-Answers true report g h = (g, refl)
in_set_verdict-Answers false report g h = let (g', e) = h g in (g', rw e)

-- The report of a set: a head, the elements and the closing bracket.
report_set-returns :
    {A : Type 0} (arg : A → Arg) (head inner last : String) (args : List Arg) (set : List A)
    (g : Global)
    → Answers tt (
        (do cmocka_print_error head args; print_set arg inner last set; cmocka_print_error ")\n" [])
          g)
report_set-returns arg head inner last args set g =
    >>-Answers tt (cmocka_print_error head args) _ g (cmocka_print_error-returns head args) λ g₁.
      >>-Answers tt (print_set arg inner last set) (cmocka_print_error ")\n" []) g₁
        (print_set-returns arg inner last set) (cmocka_print_error-returns ")\n" [])

module _ (set : List ℕ) (value : ℕ) (invert : Bool) (g : Global) where
  pub uint_value_in_set-Answers :
      Answers
        (in_set_flag ◌==◌ invert value set)
        (uint_value_in_set_display_error value set invert g)
  unfolding uint_value_in_set_display_error
  uint_value_in_set-Answers =
      in_set_verdict-Answers (in_set_flag ◌==◌ invert value set) _ g
        (report_set-returns nat "%ju is %sin the set (" "%ju, " "%ju" _ set)

module _ (set : List ℤ) (value : ℤ) (invert : Bool) (g : Global) where
  pub int_value_in_set-Answers :
      Answers
        (in_set_flag eq_ℤ invert value set)
        (int_value_in_set_display_error value set invert g)
  unfolding int_value_in_set_display_error
  int_value_in_set-Answers =
      in_set_verdict-Answers (in_set_flag eq_ℤ invert value set) _ g
        (report_set-returns int "%jd is %sin the set (" "%jd, " "%jd" _ set)

-- The value is an element of the array.
pub data IsIn {A : Type 0} (value : A) : List A → Type 0 where
  here : {x : A} {set : List A} → x ≡ value → IsIn value (x ∷ set)
  there : {x : A} {set : List A} → IsIn value set → IsIn value (x ∷ set)

module _ {A : Type 0} (same : A → A → Bool) (same_iff : (a b : A) → (same a b ≡ true) ↔ (a ≡ b))
    (value : A) where
  -- The flag is flipped where the value is in the set, and only there.
  pub in_set_flag_in :
      {set : List A} (invert : Bool)
      → IsIn value set
      → in_set_flag same invert value set ≡ not invert
  unfolding in_set_flag
  in_set_flag_in invert (here {x = x} e) = rw ((same_iff x value).1 e)
  in_set_flag_in invert (there {x = x} i) = ground (arith, in_set_flag_in invert i)

  pub in_set_flag_out :
      (set : List A) (invert : Bool) → ¬ IsIn value set → in_set_flag same invert value set ≡ invert
  unfolding in_set_flag
  in_set_flag_out [] invert out = refl
  in_set_flag_out (x ∷ set) invert out = elim (Bool-cases (same x value)) [
    | inl e ↦ absurd (out (here ((same_iff x value).0 e)))
    | inr e ↦ rw e (in_set_flag_out set invert (λ i. out (there i)))
  ]
