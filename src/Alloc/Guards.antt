-- ===== src/Alloc/Guards.antt =====
-- _test_free and the guards of a block.
use cmocka.Prelude.{ℕ, zero, suc, ◌+◌, ◌-◌, ◌≤◌, ◌<◌, ◌≡◌, ◌≢◌, ◌⊎◌, refl, inl, inr, true, false}
use cmocka.Prelude.{some, [], ◌∷◌, CString, arith, Bool-cases, ◌==◌}
use cmocka.Prelude.{==_iff}
use cmocka.State.{Global, MallocBlockInfoData, str, nat}
use cmocka.State.Run.{M, ok, NeverReturns, ◌>>◌, continue}
use cmocka.Report.{cmocka_print_error, fail}
use cmocka.Report.Ends.{print_fail-NeverReturns, ended-NeverReturns}
use cmocka.Mocks.{file_of}
use cmocka.Alloc.{check_guard, free_block, test_free, find_block, remove_block, memset}
use cmocka.Alloc.{malloc_guard_size, malloc_guard_pattern, malloc_free_pattern}

-- The `n` bytes from `start` on hold the guard pattern.
abbrev pub IsIntact : Global → ℕ → ℕ → Type 0
IsIntact g start n = (a : ℕ) → start ≤ a → a < start + n → g.mem a ≡ malloc_guard_pattern

module _ (info : MallocBlockInfoData) (file : CString) (line : ℕ) (g : Global) where
  check_guard_intact :
      (rounds guard : ℕ)
      → IsIntact g guard rounds
      → check_guard rounds guard info file line g ≡ ok tt g
  unfolding check_guard
  check_guard_intact zero guard h = refl
  check_guard_intact (suc rounds) guard h =
      let first : (g.mem guard == malloc_guard_pattern) ≡ true =
        (==_iff _ _).1 (h guard (omega arith) (omega arith)) in
      rw first (check_guard_intact rounds (guard + 1) (λ a p q. h a (omega arith) (omega arith)))

  -- The message about the byte at `guard`, and _fail.
  corrupt-NeverReturns :
      {B : Type 0} (guard : ℕ) (f : Unit {0} → M B)
      → NeverReturns (
          continue
            ((cmocka_print_error
                  "%s:%u: error: Guard block of %p size=%lu is corrupt\n%s:%u: note: allocated here at %p\n"
                  (str file
                    ∷ nat line
                    ∷ nat info.ptr
                    ∷ nat info.size
                    ∷ str (file_of info.location)
                    ∷ nat info.location.line
                    ∷ nat guard
                    ∷ [])
                >> fail file line)
              g)
            f)
  corrupt-NeverReturns guard f = ended-NeverReturns _ f (print_fail-NeverReturns _ _ file line g)

  check_guard_either :
      (rounds guard : ℕ)
      → (check_guard rounds guard info file line g ≡ ok tt g)
        ⊎ NeverReturns (check_guard rounds guard info file line g)
  unfolding check_guard
  check_guard_either zero guard = inl refl
  check_guard_either (suc rounds) guard = elim (Bool-cases (g.mem guard == malloc_guard_pattern)) [
    | inl same ↦ rw same (check_guard_either rounds (guard + 1))
    | inr other ↦ inr (rw other (corrupt-NeverReturns guard _))
  ]

  check_guard_corrupt :
      (rounds guard a : ℕ)
      → guard ≤ a
      → a < guard + rounds
      → g.mem a ≢ malloc_guard_pattern
      → NeverReturns (check_guard rounds guard info file line g)
  unfolding check_guard
  check_guard_corrupt zero guard a p q bad = absurd (omega arith)
  check_guard_corrupt (suc rounds) guard a p q bad =
      elim (Bool-cases (g.mem guard == malloc_guard_pattern)) [
        | inl same ↦ rw same (
            check_guard_corrupt rounds (guard + 1) a (next ((==_iff _ _).0 same)) (omega arith) bad)
        | inr other ↦ rw other (corrupt-NeverReturns guard _)
      ]
    where
      next : g.mem guard ≡ malloc_guard_pattern → guard + 1 ≤ a
      next same = elim (ends guard a p) [
        | inl here ↦ absurd (bad (rw (← here) same))
        | inr later ↦ later
      ]
        where
          ends : (x y : ℕ) → x ≤ y → (x ≡ y) ⊎ (x + 1 ≤ y)
          ends x y h = ground arith

  -- _test_free of a tracked block at an address that is not 0 whose two guards are intact returns
  -- with the block off the list and its memory filled with the free pattern; if a byte of either
  -- guard has another value, it does not return.
  pub test_free_cases :
      (ptr : ℕ)
      → ptr ≢ 0
      → find_block ptr g.allocated_blocks ≡ some info
      → (IsIntact g (info.ptr - malloc_guard_size) malloc_guard_size
          → IsIntact g (info.ptr + info.size) malloc_guard_size
          → test_free ptr file line g
            ≡ ok tt (record g {
              allocated_blocks = remove_block info.ptr g.allocated_blocks;
              mem = memset info.block malloc_free_pattern info.allocated_size g.mem;
            }))
        × ((a : ℕ)
            → ((info.ptr - malloc_guard_size ≤ a)
                × (a < info.ptr - malloc_guard_size + malloc_guard_size))
              ⊎ ((info.ptr + info.size ≤ a) × (a < info.ptr + info.size + malloc_guard_size))
            → g.mem a ≢ malloc_guard_pattern
            → NeverReturns (test_free ptr file line g))
  unfolding test_free free_block
  test_free_cases ptr ne found = (
    λ f r.
        rw (nonzero, found)
          (rw (check_guard_intact malloc_guard_size (info.ptr - malloc_guard_size) f)
            (rw (check_guard_intact malloc_guard_size (info.ptr + info.size) r))),
    λ a place bad.
        rw (nonzero, found)
          (elim place [
            | inl (p, q) ↦
                ended-NeverReturns (check_guard malloc_guard_size front info file line g) _
                  (check_guard_corrupt malloc_guard_size front a p q bad)
            | inr (p, q) ↦ elim (check_guard_either malloc_guard_size front) [
              | inl passed ↦ rw passed (
                  ended-NeverReturns (check_guard malloc_guard_size rear info file line g) _
                    (check_guard_corrupt malloc_guard_size rear a p q bad))
              | inr stopped ↦
                  ended-NeverReturns (check_guard malloc_guard_size front info file line g) _
                    stopped
            ]
          ]),
  )
    where
      nonzero : (ptr == 0) ≡ false
      nonzero = ground arith

      front : ℕ
      front = info.ptr - malloc_guard_size

      rear : ℕ
      rear = info.ptr + info.size
