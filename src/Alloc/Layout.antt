-- ===== src/Alloc/Layout.antt =====
-- Where _test_malloc puts a block's parts, and what it leaves there.
use cmocka.Prelude.{ℕ, ◌+◌, ◌-◌, ◌*◌, ◌/◌, ◌%◌, ◌≤◌, ◌<◌, ◌≡◌, true, false, ◌⊎◌}
use native.Mathlib.Nat.{div-lt_iff_lt-mul, le-div_iff_mul-le}
use cmocka.Prelude.{arith, inl, inr}
use cmocka.Alloc.{malloc_guard_size, malloc_alignment, size_mod, allocate_size_for, pointer_in}
use cmocka.Alloc.{align_down, initialize_block, malloc_guard_pattern, malloc_alloc_pattern}
use cmocka.Alloc.{product_overflows}

-- When a size passes the overflow test of _test_malloc and the size of the block's information
-- leaves room for the guards below 2 ^ 64, the address given out is a multiple of 16, the
-- information and the front guard end at or before it, and the data with the rear guard end within
-- the block.
pub block_layout :
    (info_size size block : ℕ)
    → size < size_mod
    → info_size + 48 < size_mod
    → size < allocate_size_for info_size size
    → (pointer_in info_size block % malloc_alignment ≡ 0)
      × (block + info_size + malloc_guard_size ≤ pointer_in info_size block)
      × (pointer_in info_size block + size + malloc_guard_size
          ≤ block + allocate_size_for info_size size)
unfolding allocate_size_for pointer_in align_down
block_layout info_size size block hs hi h = (omega arith, omega arith, omega arith)

-- After the memsets of _test_malloc at an address of at least 16, the data hold the allocation
-- pattern, the 16 bytes on either side the guard pattern, and every other byte what it held before.
pub initialize_block_cases :
    (ptr size : ℕ) (mem : ℕ → ℕ) (a : ℕ)
    → malloc_guard_size ≤ ptr
    → (ptr ≤ a → a < ptr + size → initialize_block ptr size mem a ≡ malloc_alloc_pattern)
      × (ptr ≤ a + malloc_guard_size
          → a < ptr
          → initialize_block ptr size mem a ≡ malloc_guard_pattern)
      × (ptr + size ≤ a
          → a < ptr + size + malloc_guard_size
          → initialize_block ptr size mem a ≡ malloc_guard_pattern)
      × ((a + malloc_guard_size < ptr) ⊎ (ptr + size + malloc_guard_size ≤ a)
          → initialize_block ptr size mem a ≡ mem a)
unfolding initialize_block
initialize_block_cases ptr size mem a h =
    (λ p q. ground arith, λ p q. ground arith, λ p q. ground arith, λ p. ground arith)

zero_or_positive : (n : ℕ) → (n ≡ 0) ⊎ (0 < n)
zero_or_positive n = ground arith

-- The overflow test of _test_calloc is true only where the product does not fit in a size_t, and
-- false only where it fits.
pub product_overflows_iff :
    (number_of_elements size : ℕ)
    → (product_overflows number_of_elements size ≡ true → size_mod ≤ number_of_elements * size)
      × (product_overflows number_of_elements size ≡ false → number_of_elements * size < size_mod)
unfolding product_overflows
product_overflows_iff number_of_elements size = (λ e. overflow e, λ e. no_overflow e)
  where
    overflow :
        product_overflows number_of_elements size ≡ true → size_mod ≤ number_of_elements * size
    overflow e =
        let positive : 0 < size = ground arith in
        let above : (size_mod - 1) / size < number_of_elements = ground arith in
        omega (arith, (div-lt_iff_lt-mul positive).0 above)

    no_overflow :
        product_overflows number_of_elements size ≡ false → number_of_elements * size < size_mod
    no_overflow e = elim (zero_or_positive size) [
      | inl z ↦ rw z (omega arith)
      | inr positive ↦
          let below : number_of_elements ≤ (size_mod - 1) / size = ground arith in
          omega (arith, (le-div_iff_mul-le positive).0 below)
    ]
