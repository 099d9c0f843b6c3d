-- ===== src/Tests/Numbers.antt =====
-- The assertions on floating-point values over an arithmetic of natural numbers and a NaN.
use cmocka.Prelude.{
  ℕ, ◌+◌, ◌-◌, ◌*◌, ◌≡◌, refl, Bool, true, false, ◌||◌, Option, some, none, leb, ltb,
}
use cmocka.State.Run.{NeverReturns}
use cmocka.Compare.Verdicts.{Answers}
use cmocka.Asserts.Judged.{Judges}
use cmocka.Floats.{
  Arithmetic, assert_float_equal, assert_float_not_equal, assert_double_equal,
  assert_double_not_equal,
}
use cmocka.Floats.Judged.{NanLaws, IsClose, assert_float-Judges, assert_float-nan}
use cmocka.Tests.{start, file}

abbrev lift : (ℕ → ℕ → ℕ) → Option ℕ → Option ℕ → Option ℕ
lift f none b = none
lift f (some a) none = none
lift f (some a) (some b) = some (f a b)

abbrev ordered : (ℕ → ℕ → Bool) → Option ℕ → Option ℕ → Bool
ordered f none b = false
ordered f (some a) none = false
ordered f (some a) (some b) = f a b

abbrev pub numbers : Arithmetic (Option ℕ)
numbers = record {
  zero_value = some 0;
  flt_epsilon = some 0;
  minus = lift (λ a b. (a - b) + (b - a));
  times = lift (λ a b. a * b);
  negated = λ a. a;
  at_least = ordered (λ a b. leb b a);
  at_most = ordered leb;
  above = ordered (λ a b. ltb b a);
  bits = λ a. 0;
}

abbrev is_none : Option ℕ → Bool
is_none none = true
is_none (some a) = false

numbers-minus :
    (a b : Option ℕ) → (is_none a || is_none b) ≡ true → is_none (numbers.minus a b) ≡ true
numbers-minus none b e = refl
numbers-minus (some a) none e = refl
numbers-minus (some a) (some b) e = e

unordered : (f : ℕ → ℕ → Bool) (a b : Option ℕ) → is_none a ≡ true → ordered f a b ≡ false
unordered f none b e = refl
unordered f (some a) b e = cc

abbrev numbers_laws : NanLaws numbers
numbers_laws = record {
  is_nan = is_none;
  minus-is_nan = numbers-minus;
  negated-is_nan = λ a e. e;
  at_most_unordered = unordered leb;
  above_unordered = unordered (λ a b. ltb b a);
}

assert_float-Judges_example :
    Judges
      (IsClose numbers (some 3) (some 5) (some 1))
      (assert_float_equal numbers file 4 (some 3) (some 5) (some 1) start)
    × Judges
        (¬ IsClose numbers (some 3) (some 5) (some 1))
        (assert_float_not_equal numbers file 4 (some 3) (some 5) (some 1) start)
    × Judges
        (IsClose numbers (some 3) (some 5) (some 1))
        (assert_double_equal numbers file 4 (some 3) (some 5) (some 1) start)
    × Judges
        (¬ IsClose numbers (some 3) (some 5) (some 1))
        (assert_double_not_equal numbers file 4 (some 3) (some 5) (some 1) start)
assert_float-Judges_example =
    assert_float-Judges numbers file 4 start (some 3) (some 5) (some 1) refl

assert_float-nan_example :
    Answers tt (assert_float_equal numbers file 4 none (some 5) (some 1) start)
    × NeverReturns (assert_float_not_equal numbers file 4 none (some 5) (some 1) start)
    × Answers tt (assert_double_equal numbers file 4 none (some 5) (some 1) start)
    × NeverReturns (assert_double_not_equal numbers file 4 none (some 5) (some 1) start)
assert_float-nan_example =
    assert_float-nan numbers file 4 start numbers_laws none (some 5) (some 1) refl
