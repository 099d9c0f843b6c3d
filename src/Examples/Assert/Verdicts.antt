-- ===== src/Examples/Assert/Verdicts.antt =====
-- What tests that expect an assertion make of the two functions.
use cmocka.Prelude.{ℕ, ◌≡◌, refl, true, none, some, CString, codes, Option, arith}
use cmocka.Prelude.Int.{ℤ, pos, ◌+ℤ◌, ◌-ℤ◌, ltb_ℤ, leb_ℤ}
use cmocka.State.{Global}
use cmocka.State.Run.{M, ok, NeverReturns, pure, ◌>>=◌}
use cmocka.Report.{mock_assert}
use cmocka.Contracts.{expect_assert_failure}
use cmocka.Contracts.Expected.{armed, after_assertion, expect_assert_failure_iff, returned_call}
use cmocka.Examples.Assert.{
  increment_value, decrement_value, increment, decrement, int_max, int_min,
}

-- A call for its effect alone.
abbrev pub call : M (Option ℤ) → M (Unit {0})
call m = m >>= λ _. pure tt

successor :
    (v : ℤ)
    → ltb_ℤ v int_max ≡ true
    → leb_ℤ int_min v ≡ true
    → (ltb_ℤ int_min (v +ℤ pos 1) ≡ true) × (v +ℤ pos 1 -ℤ pos 1 ≡ v)
unfolding ◌+ℤ◌ ◌-ℤ◌
successor v below within = ground arith

-- For an `int` below the largest: an expect_assert_failure around increment_value returns on NULL, with
-- the expression noted, and does not return on a number, nor around decrement_value on NULL; and
-- decrement_value takes back what increment_value has done.
pub assert_module-verdicts :
    (v : ℤ) (text file : CString) (line : ℕ) (g : Global)
    → ltb_ℤ v int_max ≡ true
    → leb_ℤ int_min v ≡ true
    → ((g' : Global) × (expect_assert_failure (call (increment_value none)) text file line g
          ≡ ok tt g')
        × (g'.last_failed_assert ≡ some (codes "value")))
      × NeverReturns (expect_assert_failure (call (decrement_value none)) text file line g)
      × NeverReturns (expect_assert_failure (call (increment_value (some v))) text file line g)
      × ((increment_value (some v) >>= decrement_value) g ≡ ok (some v) g)
unfolding increment_value decrement_value increment decrement mock_assert
assert_module-verdicts v text file line g below within =
    let asserted : Global = record (armed g) { last_failed_assert = some (codes "value") } in
    let e =
      (expect_assert_failure_iff (call (increment_value none)) text file line g
          (after_assertion asserted)).1
        (asserted, refl, refl) in
    let (above, back) = successor v below within in
    (
      (after_assertion asserted, e, refl),
      returned_call (call (decrement_value none)) text file line g (armed g) refl,
      returned_call (call (increment_value (some v))) text file line g (armed g) (rw below refl),
      rw (below, above, back) refl,
    )
