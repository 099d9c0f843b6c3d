-- ===== src/State/Run.antt =====
-- The ways in which code that runs over the static variables can end, and the monad of such code.
use cmocka.Prelude.{Bool, if◌then◌else◌}
use cmocka.State.{Global}

-- `jumped` is the `longjmp` to `global_run_test_env` and `assert_jumped` that to
-- `global_expect_assert_env`; `exited` and `aborted` end the process; `undefined` is a use of memory
-- that C does not define.
pub data Outcome {ℓ} (A : Type ℓ) : Type ℓ where
  ok : A → Global → Outcome A
  jumped : Global → Outcome A
  assert_jumped : Global → Outcome A
  exited : Global → Outcome A
  aborted : Global → Outcome A
  undefined : Outcome A

abbrev pub M {ℓ} : Type ℓ → Type ℓ
M A = Global → Outcome A

abbrev pub continue {ℓ κ} : {A : Type ℓ} {B : Type κ} → Outcome A → (A → M B) → Outcome B
continue (ok a g) f = f a g
continue (jumped g) f = jumped g
continue (assert_jumped g) f = assert_jumped g
continue (exited g) f = exited g
continue (aborted g) f = aborted g
continue undefined f = undefined

abbrev pub pure {ℓ} : {A : Type ℓ} → A → M A
pure a g = ok a g

infixl 5 ◌>>=◌ ◌>>◌
abbrev pub ◌>>=◌ {ℓ κ} : {A : Type ℓ} {B : Type κ} → M A → (A → M B) → M B
◌>>=◌ m f g = continue (m g) f

abbrev pub ◌>>◌ {ℓ} : {B : Type ℓ} → M (Unit {0}) → M B → M B
m >> k = m >>= λ _. k

abbrev pub modify : (Global → Global) → M (Unit {0})
modify f g = ok tt (f g)

abbrev pub gets {ℓ} : {A : Type ℓ} → (Global → A) → M A
gets f g = ok (f g) g

-- `if (b) { m }`
abbrev pub when : Bool → M (Unit {0}) → M (Unit {0})
when b m = if b then m else pure tt

-- The call does not return to its caller.
abbrev pub NeverReturns {ℓ} : {A : Type ℓ} → Outcome A → Type 0
NeverReturns (ok a g) = ⊥
NeverReturns _ = Unit
