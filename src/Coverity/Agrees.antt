-- ===== src/Coverity/Agrees.antt =====
-- The assertions of src/cmocka.c against the model that the static analyser has of them.
use cmocka.Prelude.{
  ◌≤◌, length, ℕ, ◌≡◌, refl, Bool, true, false, not, ◌&&◌, List, [], ◌∷◌, CString, if◌then◌else◌,
  ◌==◌, leb, arith, str_eq,
}
use cmocka.Prelude.Int.{ℤ, pos, ltb_ℤ, leb_ℤ, eq_ℤ}
use cmocka.State.{Global, str, int}
use cmocka.Report.{cmocka_print_error, fail}
use cmocka.State.Run.{◌>>◌, when, M, Outcome, NeverReturns}
use cmocka.Report.Ends.{fail-NeverReturns, print_fail-NeverReturns, continue-NeverReturns}
use cmocka.Compare.{in_set_flag}
use cmocka.Compare.{
  int_values_equal_display_error, int_values_not_equal_display_error,
  uint_values_equal_display_error, uint_values_not_equal_display_error, int_in_range_display_error,
  uint_in_range_display_error, string_equal_display_error, string_not_equal_display_error,
}
use cmocka.Compare.Verdicts.{
  Answers, verdict-Answers, int_value_in_set-Answers, uint_value_in_set-Answers,
}
use cmocka.Compare.Memory.{memcmp_equal}
use cmocka.Compare.Memory.Areas.{memory_equal-Answers, memory_not_equal-Answers}
use cmocka.Asserts
use cmocka.Asserts.{fail_unless}
use cmocka.Coverity
use cmocka.Coverity.{panic_if, Verdict, returns, panics}

-- The call returns where the model returns, and does not return where the model panics.
abbrev pub Agrees : Verdict → Outcome (Unit {0}) → Type 0
Agrees returns o = Answers tt o
Agrees panics o = NeverReturns o

module _ (file : CString) (line : ℕ) (g : Global) where
  pub fail_unless-Agrees :
      (holds : Bool) (comparison : M Bool) (v : Verdict)
      → Answers holds (comparison g)
      → v ≡ (if holds then returns else panics)
      → Agrees v (fail_unless comparison file line g)
  unfolding fail_unless
  fail_unless-Agrees true comparison v (g', e) same = rw same (g', rw e)
  fail_unless-Agrees false comparison v (g', e) same =
      rw same (rw e (fail-NeverReturns file line g'))

  -- A body that does not return behind a test.
  when-Agrees :
      (stop : Bool) (body : M (Unit {0}))
      → NeverReturns (body g)
      → Agrees (panic_if stop) (when stop body g)
  when-Agrees true body ended = ended
  when-Agrees false body ended = (g, refl)

  assert_true-Agrees :
      (result : ℕ) (expression : CString)
      → Agrees (Coverity.assert_true result) (Asserts.assert_true file line result expression g)
  unfolding Coverity.assert_true Asserts.assert_true
  assert_true-Agrees result expression =
      when-Agrees (result == 0) _ (print_fail-NeverReturns _ _ file line g)

  assert_return_code-Agrees :
      (result error : ℤ) (error_text expression : CString)
      → Agrees
          (Coverity.assert_return_code result)
          (Asserts.assert_return_code file line result error error_text expression g)
  unfolding Coverity.assert_return_code Asserts.assert_return_code
  assert_return_code-Agrees result error error_text expression =
      let report : M (Unit {0}) =
        if ltb_ℤ (pos 0) error
        then cmocka_print_error "%s < 0, errno(%d): %s\n"
            (str expression ∷ int error ∷ str error_text ∷ [])
        else cmocka_print_error "%s < 0\n" (str expression ∷ []) in
      when-Agrees (ltb_ℤ result (pos 0)) (report >> fail file line)
        (continue-NeverReturns (report g) _ λ _ g₁. fail-NeverReturns file line g₁)

  -- The assertions that are judged by their two integers alone.
  equality-Agrees :
      (a b : ℤ) (m n : ℕ)
      → Agrees (Coverity.assert_int_equal a b) (Asserts.assert_int_equal file line a b g)
        × Agrees (Coverity.assert_int_not_equal a b) (Asserts.assert_int_not_equal file line a b g)
        × Agrees (Coverity.assert_uint_equal m n) (Asserts.assert_uint_equal file line m n g)
        × Agrees
            (Coverity.assert_uint_not_equal m n)
            (Asserts.assert_uint_not_equal file line m n g)
  unfolding Coverity.assert_int_equal Asserts.assert_int_equal int_values_equal_display_error
      Coverity.assert_int_not_equal Asserts.assert_int_not_equal int_values_not_equal_display_error
      Coverity.assert_uint_equal Asserts.assert_uint_equal uint_values_equal_display_error
      Coverity.assert_uint_not_equal Asserts.assert_uint_not_equal
      uint_values_not_equal_display_error
  equality-Agrees a b m n = (
    fail_unless-Agrees (eq_ℤ a b) _ _ (verdict-Answers _ _ _ g) (ground arith),
    fail_unless-Agrees (not (eq_ℤ a b)) _ _ (verdict-Answers _ _ _ g) (ground arith),
    fail_unless-Agrees (m == n) _ _ (verdict-Answers _ _ _ g) (ground arith),
    fail_unless-Agrees (not (m == n)) _ _ (verdict-Answers _ _ _ g) (ground arith),
  )

  range-Agrees :
      (a b c : ℤ) (m n k : ℕ)
      → Agrees (Coverity.assert_int_in_range a b c) (Asserts.assert_int_in_range file line a b c g)
        × Agrees
            (Coverity.assert_uint_in_range m n k)
            (Asserts.assert_uint_in_range file line m n k g)
  unfolding Coverity.assert_int_in_range Asserts.assert_int_in_range int_in_range_display_error
      Coverity.assert_uint_in_range Asserts.assert_uint_in_range uint_in_range_display_error
  range-Agrees a b c m n k = (
    fail_unless-Agrees (leb_ℤ b a && leb_ℤ a c) _ _ (verdict-Answers _ _ _ g) (ground arith),
    fail_unless-Agrees (leb n m && leb m k) _ _ (verdict-Answers _ _ _ g) (ground arith),
  )

  -- Where the analyser takes `cmp` for what `strcmp` says.
  string-Agrees :
      (cmp : ℤ) (a b : CString)
      → eq_ℤ cmp (pos 0) ≡ str_eq a b
      → Agrees (Coverity.assert_string_equal cmp a b) (Asserts.assert_string_equal file line a b g)
        × Agrees
            (Coverity.assert_string_not_equal cmp a b)
            (Asserts.assert_string_not_equal file line a b g)
  unfolding Coverity.assert_string_equal Asserts.assert_string_equal string_equal_display_error
      Coverity.assert_string_not_equal Asserts.assert_string_not_equal
      string_not_equal_display_error
  string-Agrees cmp a b compared = (
    fail_unless-Agrees (str_eq a b) _ _ (verdict-Answers _ _ _ g) (ground arith),
    fail_unless-Agrees (not (str_eq a b)) _ _ (verdict-Answers _ _ _ g) (ground arith),
  )

  int_in_set-flag :
      (value : ℤ) (values : List ℤ)
      → Coverity.assert_int_in_set value values
        ≡ (if in_set_flag eq_ℤ false value values then returns else panics)
  unfolding Coverity.assert_int_in_set in_set_flag
  int_in_set-flag value [] = refl
  int_in_set-flag value (x ∷ values) = ground (arith, int_in_set-flag value values)

  int_not_in_set-flag :
      (value : ℤ) (values : List ℤ)
      → Coverity.assert_int_not_in_set value values
        ≡ (if in_set_flag eq_ℤ true value values then returns else panics)
  unfolding Coverity.assert_int_not_in_set in_set_flag
  int_not_in_set-flag value [] = refl
  int_not_in_set-flag value (x ∷ values) = ground (arith, int_not_in_set-flag value values)

  uint_in_set-flag :
      (value : ℕ) (values : List ℕ)
      → Coverity.assert_uint_in_set value values
        ≡ (if in_set_flag ◌==◌ false value values then returns else panics)
  unfolding Coverity.assert_uint_in_set in_set_flag
  uint_in_set-flag value [] = refl
  uint_in_set-flag value (x ∷ values) = ground (arith, uint_in_set-flag value values)

  uint_not_in_set-flag :
      (value : ℕ) (values : List ℕ)
      → Coverity.assert_uint_not_in_set value values
        ≡ (if in_set_flag ◌==◌ true value values then returns else panics)
  unfolding Coverity.assert_uint_not_in_set in_set_flag
  uint_not_in_set-flag value [] = refl
  uint_not_in_set-flag value (x ∷ values) = ground (arith, uint_not_in_set-flag value values)

  set-Agrees :
      (a : ℤ) (xs : List ℤ) (m : ℕ) (ms : List ℕ)
      → Agrees (Coverity.assert_int_in_set a xs) (Asserts.assert_int_in_set file line a xs g)
        × Agrees
            (Coverity.assert_int_not_in_set a xs)
            (Asserts.assert_int_not_in_set file line a xs g)
        × Agrees (Coverity.assert_uint_in_set m ms) (Asserts.assert_uint_in_set file line m ms g)
        × Agrees
            (Coverity.assert_uint_not_in_set m ms)
            (Asserts.assert_uint_not_in_set file line m ms g)
  unfolding Asserts.assert_int_in_set Asserts.assert_int_not_in_set Asserts.assert_uint_in_set
      Asserts.assert_uint_not_in_set
  set-Agrees a xs m ms = (
    fail_unless-Agrees _ _ _ (int_value_in_set-Answers xs a false g) (int_in_set-flag a xs),
    fail_unless-Agrees _ _ _ (int_value_in_set-Answers xs a true g) (int_not_in_set-flag a xs),
    fail_unless-Agrees _ _ _ (uint_value_in_set-Answers ms m false g) (uint_in_set-flag m ms),
    fail_unless-Agrees _ _ _ (uint_value_in_set-Answers ms m true g) (uint_not_in_set-flag m ms),
  )

  -- Where the analyser takes `cmp` for what `memcmp` says.
  memory-Agrees :
      (cmp : ℤ) (a b : List ℕ) (size : ℕ)
      → size ≤ length a
      → size ≤ length b
      → eq_ℤ cmp (pos 0) ≡ memcmp_equal a b size
      → Agrees
          (Coverity.assert_memory_equal cmp a b size)
          (Asserts.assert_memory_equal file line a b size g)
        × Agrees
            (Coverity.assert_memory_not_equal cmp a b size)
            (Asserts.assert_memory_not_equal file line a b size g)
  unfolding Coverity.assert_memory_equal Asserts.assert_memory_equal
      Coverity.assert_memory_not_equal Asserts.assert_memory_not_equal
  memory-Agrees cmp a b size whole_a whole_b compared = (
    fail_unless-Agrees (memcmp_equal a b size) _ _ (memory_equal-Answers a b size g) (ground arith),
    fail_unless-Agrees (not (memcmp_equal a b size)) _ _
        (memory_not_equal-Answers a b size g whole_a whole_b) (ground arith),
  )

  -- The static analyser's models of _assert_true, _assert_return_code and the equality, range and
  -- set assertions on integers return exactly where the assertions return, and stop exactly where
  -- they do not return.
  pub integers-Agrees :
      (a b c : ℤ) (xs : List ℤ) (m n k : ℕ) (ms : List ℕ) (error_text expression : CString)
      → (Agrees (Coverity.assert_true m) (Asserts.assert_true file line m expression g)
          × Agrees
              (Coverity.assert_return_code a)
              (Asserts.assert_return_code file line a b error_text expression g))
        × (Agrees (Coverity.assert_int_equal a b) (Asserts.assert_int_equal file line a b g)
            × Agrees
                (Coverity.assert_int_not_equal a b)
                (Asserts.assert_int_not_equal file line a b g)
            × Agrees (Coverity.assert_uint_equal m n) (Asserts.assert_uint_equal file line m n g)
            × Agrees
                (Coverity.assert_uint_not_equal m n)
                (Asserts.assert_uint_not_equal file line m n g))
        × (Agrees
              (Coverity.assert_int_in_range a b c)
              (Asserts.assert_int_in_range file line a b c g)
            × Agrees
                (Coverity.assert_uint_in_range m n k)
                (Asserts.assert_uint_in_range file line m n k g))
        × (Agrees (Coverity.assert_int_in_set a xs) (Asserts.assert_int_in_set file line a xs g)
            × Agrees
                (Coverity.assert_int_not_in_set a xs)
                (Asserts.assert_int_not_in_set file line a xs g)
            × Agrees
                (Coverity.assert_uint_in_set m ms)
                (Asserts.assert_uint_in_set file line m ms g)
            × Agrees
                (Coverity.assert_uint_not_in_set m ms)
                (Asserts.assert_uint_not_in_set file line m ms g))
  integers-Agrees a b c xs m n k ms error_text expression = (
    (assert_true-Agrees m expression, assert_return_code-Agrees a b error_text expression),
    equality-Agrees a b m n,
    range-Agrees a b c m n k,
    set-Agrees a xs m ms,
  )

  -- The same for strings and areas of memory, where the analyser takes its two variables for what `strcmp`
  -- and `memcmp` say, and the areas have the size.
  pub areas-Agrees :
      (cmp : ℤ) (a b : CString) (order : ℤ) (p q : List ℕ) (size : ℕ)
      → eq_ℤ cmp (pos 0) ≡ str_eq a b
      → size ≤ length p
      → size ≤ length q
      → eq_ℤ order (pos 0) ≡ memcmp_equal p q size
      → (Agrees (Coverity.assert_string_equal cmp a b) (Asserts.assert_string_equal file line a b g)
          × Agrees
              (Coverity.assert_string_not_equal cmp a b)
              (Asserts.assert_string_not_equal file line a b g))
        × (Agrees
              (Coverity.assert_memory_equal order p q size)
              (Asserts.assert_memory_equal file line p q size g)
            × Agrees
                (Coverity.assert_memory_not_equal order p q size)
                (Asserts.assert_memory_not_equal file line p q size g))
  areas-Agrees cmp a b order p q size strings whole_p whole_q areas =
      (string-Agrees cmp a b strings, memory-Agrees order p q size whole_p whole_q areas)
