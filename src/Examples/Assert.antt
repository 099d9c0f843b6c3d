-- ===== src/Examples/Assert.antt =====
-- example/assert_module.c: increment_value and decrement_value, with `assert` as mock_assert.
pub mod Verdicts
use cmocka.Prelude.{
  ℕ, ◌^◌, ◌<◌, Bool, true, false, Option, none, some, CString, codes, if◌then◌else◌, ltb, ◌&&◌,
}
use cmocka.Prelude.Int.{ℤ, pos, pos_part, neg_part, ◌+ℤ◌, ◌-ℤ◌, ltb_ℤ}
use cmocka.State.Run.{M, Outcome, undefined, pure, ◌>>=◌, ◌>>◌}
use cmocka.Report.{mock_assert}

abbrev pub file : CString
file = codes "assert_module.c"

abbrev is_set {ℓ} : {A : Type ℓ} → Option A → Bool
is_set none = false
is_set (some a) = true

-- The largest and the smallest `int`.
abbrev pub int_max : ℤ
int_max = pos 2147483647

abbrev pub int_min : ℤ
int_min = pos 0 -ℤ pos 2147483648

-- `(*value)++` and `(*value)--`, where `value` points to that number or is NULL; the answer is what it
-- points to then.
unfoldable increment : Option ℤ → M (Option ℤ)
unfolding ◌+ℤ◌
increment none g = undefined
increment (some v) g = if ltb_ℤ v int_max then pure (some (v +ℤ pos 1)) g else undefined

unfoldable decrement : Option ℤ → M (Option ℤ)
unfolding ◌-ℤ◌
decrement none g = undefined
decrement (some v) g = if ltb_ℤ int_min v then pure (some (v -ℤ pos 1)) g else undefined

unfoldable pub increment_value : Option ℤ → M (Option ℤ)
unfolding mock_assert increment
increment_value value = do mock_assert (is_set value) (codes "value") file 30; increment value

unfoldable pub decrement_value : Option ℤ → M (Option ℤ)
unfolding decrement
decrement_value none = pure none
decrement_value (some v) = decrement (some v)
