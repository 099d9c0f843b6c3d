-- ===== src/Tests/Analysis.antt =====
-- The static analyser's model at concrete values.
use cmocka.Prelude.{
  ℕ, ◌≡◌, ◌≢◌, ◌⊎◌, inl, inr, refl, Bool, false, Option, some, [], ◌∷◌, codes, arith, ◌==◌,
}
use cmocka.Prelude.Int.{pos, negsuc}
use cmocka.State.Run.{NeverReturns}
use cmocka.Asserts
use cmocka.Floats
use cmocka.Coverity
use cmocka.Coverity.{returns, panics}
use cmocka.Coverity.Agrees.{Agrees, integers-Agrees}
use cmocka.Coverity.Departs.{not_in_range-Agrees, doubles-Agrees}
use cmocka.Tests.{start, file}
use cmocka.Tests.Numbers.{numbers}

integers-Agrees_example :
    (Agrees (Coverity.assert_true 5) (Asserts.assert_true file 4 5 (codes "x") start)
      × Agrees
          (Coverity.assert_return_code (pos 3))
          (Asserts.assert_return_code file 4 (pos 3) (negsuc 1) (codes "bad") (codes "x") start))
    × (Agrees
          (Coverity.assert_int_equal (pos 3) (negsuc 1))
          (Asserts.assert_int_equal file 4 (pos 3) (negsuc 1) start)
        × Agrees
            (Coverity.assert_int_not_equal (pos 3) (negsuc 1))
            (Asserts.assert_int_not_equal file 4 (pos 3) (negsuc 1) start)
        × Agrees (Coverity.assert_uint_equal 5 6) (Asserts.assert_uint_equal file 4 5 6 start)
        × Agrees
            (Coverity.assert_uint_not_equal 5 6)
            (Asserts.assert_uint_not_equal file 4 5 6 start))
    × (Agrees
          (Coverity.assert_int_in_range (pos 3) (negsuc 1) (pos 7))
          (Asserts.assert_int_in_range file 4 (pos 3) (negsuc 1) (pos 7) start)
        × Agrees
            (Coverity.assert_uint_in_range 5 6 9)
            (Asserts.assert_uint_in_range file 4 5 6 9 start))
    × (Agrees
          (Coverity.assert_int_in_set (pos 3) (pos 3 ∷ []))
          (Asserts.assert_int_in_set file 4 (pos 3) (pos 3 ∷ []) start)
        × Agrees
            (Coverity.assert_int_not_in_set (pos 3) (pos 3 ∷ []))
            (Asserts.assert_int_not_in_set file 4 (pos 3) (pos 3 ∷ []) start)
        × Agrees
            (Coverity.assert_uint_in_set 5 (4 ∷ 5 ∷ []))
            (Asserts.assert_uint_in_set file 4 5 (4 ∷ 5 ∷ []) start)
        × Agrees
            (Coverity.assert_uint_not_in_set 5 (4 ∷ 5 ∷ []))
            (Asserts.assert_uint_not_in_set file 4 5 (4 ∷ 5 ∷ []) start))
integers-Agrees_example =
    integers-Agrees file 4 start (pos 3) (negsuc 1) (pos 7) (pos 3 ∷ []) 5 6 9 (4 ∷ 5 ∷ [])
      (codes "bad") (codes "x")

abbrev low : ℕ
low = 3

not_in_range-Agrees_example :
    (low ≢ low
      → low ≢ 7
      → Agrees
          (Coverity.assert_not_in_range low low 7)
          (Asserts.assert_uint_not_in_range file 4 low low 7 start))
    × ((low ≡ low) ⊎ (low ≡ 7)
        → (Coverity.assert_not_in_range low low 7 ≡ returns)
          × NeverReturns (Asserts.assert_uint_not_in_range file 4 low low 7 start))
not_in_range-Agrees_example = not_in_range-Agrees file 4 start low low 7 (omega arith)

-- Two numbers, and NaN as no number.
abbrev same : Option ℕ → Option ℕ → Bool
same (some a) (some b) = a == b
same _ b = false

doubles-Agrees_example :
    Agrees
      (Coverity.assert_float_equal same (some 3) (some 9) (some 1))
      (Floats.assert_float_equal numbers file 4 (some 3) (some 9) (some 1) start)
    × Agrees
        (Coverity.assert_float_not_equal same (some 3) (some 9) (some 1))
        (Floats.assert_float_not_equal numbers file 4 (some 3) (some 9) (some 1) start)
    × Agrees
        (Coverity.assert_double_equal same (some 3) (some 9) (some 1))
        (Floats.assert_double_equal numbers file 4 (some 3) (some 9) (some 1) start)
    × (¬ Agrees
        (Coverity.assert_double_not_equal same (some 3) (some 9) (some 1))
        (Floats.assert_double_not_equal numbers file 4 (some 3) (some 9) (some 1) start))
doubles-Agrees_example =
    doubles-Agrees file 4 start numbers same (some 3) (some 9) (some 1) refl
      ((λ e. cc), λ close. elim close [ inl e ↦ cc | inr e ↦ cc ])
