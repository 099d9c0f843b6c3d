-- ===== src/Examples/Allocate/Caught.antt =====
-- What the allocator and the leak check make of the functions of allocate_module.c.
use cmocka.Prelude.{
  ℕ, ◌+◌, ◌-◌, ◌≤◌, ◌<◌, ◌≡◌, ◌≢◌, ◌⊎◌, inl, inr, refl, none, [], ◌∷◌, CString, arith,
  if◌then◌else◌, ◌==◌,
}
use cmocka.State.{Global}
use cmocka.State.Run.{NeverReturns, ◌>>◌}
use cmocka.Alloc.{
  test_free, find_block, malloc_guard_size, malloc_guard_pattern, check_point_allocated_blocks,
  fail_if_blocks_allocated,
}
use cmocka.Alloc.Layout.{block_layout}
use cmocka.Alloc.Guards.{test_free_cases}
use cmocka.Alloc.Leaks.{IsServed, ptr_of, info_for, allocated, test_malloc-ok, find_block-append}
use cmocka.Alloc.CheckPoints.{IsDistinct, fail_if_blocks_allocated_iff}
use cmocka.Examples.Allocate.{file, sizeof_int, leak_memory, buffer_overflow, buffer_underflow}

module _ (size : ℕ) (at_file : CString) (line block : ℕ) (g : Global)
    (served : IsServed size at_file line block g) where
  abbrev new_ptr : ℕ
  new_ptr = ptr_of size at_file line block g

  new_layout : malloc_guard_size ≤ new_ptr
  new_layout =
      let (some_block, small, info_small, passes) = served in
      omega (arith, block_layout g.libc.info_size size block small info_small passes)

  -- The state in which one byte of the new block's surroundings has been written.
  abbrev pub spoiled : ℕ → ℕ → Global
  spoiled address byte = record (allocated size at_file line block g) {
    mem = λ a. if a == address then byte else (allocated size at_file line block g).mem a;
  }

  guard_hit :
      (free_file : CString) (free_line address byte : ℕ)
      → find_block new_ptr g.allocated_blocks ≡ none
      → ((new_ptr - malloc_guard_size ≤ address) × (address < new_ptr))
        ⊎ ((new_ptr + size ≤ address) × (address < new_ptr + size + malloc_guard_size))
      → byte ≢ malloc_guard_pattern
      → NeverReturns (test_free new_ptr free_file free_line (spoiled address byte))
  guard_hit free_file free_line address byte fresh place other =
      let info = info_for size at_file line block g in
      let above = new_layout in
      let hit : (spoiled address byte).mem address ≢ malloc_guard_pattern =
        λ e. other (ground arith) in
      (test_free_cases info free_file free_line (spoiled address byte) new_ptr (λ e. omega arith)
          (find_block-append new_ptr g.allocated_blocks info fresh refl).0).1
        address (ground arith) hit

  -- The state in which the four bytes of the new block have been cleared.
  abbrev pub written : Global
  written = record (allocated size at_file line block g) {
    mem = λ a.
        if a == new_ptr + 3
        then 0
        else if a == new_ptr + 2
        then 0
        else if a == new_ptr + 1
        then 0
        else if a == new_ptr
        then 0
        else (allocated size at_file line block g).mem a;
  }

-- When malloc returns a block for the request, no tracked block is at the new address and the
-- tracked blocks are at distinct addresses, the three functions of allocate_module.c are caught:
-- the leak check behind leak_memory does not return, nor do buffer_overflow and buffer_underflow.
pub allocate_module-caught :
    (block : ℕ) (g : Global) (test_name : CString)
    → IsServed sizeof_int file 0 block g
    → find_block (ptr_of sizeof_int file 0 block g) g.allocated_blocks ≡ none
    → IsDistinct g.allocated_blocks
    → NeverReturns (
        (leak_memory block >> fail_if_blocks_allocated (check_point_allocated_blocks g) test_name)
          g)
      × NeverReturns (buffer_overflow block g)
      × NeverReturns (buffer_underflow block g)
unfolding leak_memory buffer_overflow buffer_underflow
allocate_module-caught block g test_name served fresh distinct =
    let above = new_layout sizeof_int file 0 block g served in
    (
      rw (test_malloc-ok sizeof_int file 41 block g served) (
          (fail_if_blocks_allocated_iff test_name g (written sizeof_int file 41 block g served)
              (info_for sizeof_int file 41 block g ∷ []) distinct refl).1
            (λ e. cc)),
      rw (test_malloc-ok sizeof_int file 46 block g served) (
          guard_hit sizeof_int file 46 block g served file 48 _ b'!' fresh
            (inr (omega arith, omega arith)) (λ e. cc)),
      rw (test_malloc-ok sizeof_int file 52 block g served) (
          guard_hit sizeof_int file 52 block g served file 54 _ b'!' fresh
            (inl (omega arith, omega arith)) (λ e. cc)),
    )
