-- ===== src/Alloc/Realloc.antt =====
-- _test_realloc of a block that is tracked: a new block with the old data.
use cmocka.Prelude.{ℕ, ◌+◌, ◌-◌, ◌≤◌, ◌<◌, ◌≡◌, ◌≢◌, ◌⊎◌, ◌∙◌, refl, false}
use cmocka.Prelude.{some, List, [], ◌∷◌, ◌++◌, CString, arith, ◌==◌}
use cmocka.State.{Global, MallocBlockInfoData}
use cmocka.State.Run.{ok}
use cmocka.Alloc.{
  test_realloc, move_block, test_free, find_block, remove_block, memset, memcpy, copied_size,
  allocate_size_for, malloc_guard_size, malloc_free_pattern,
}
use cmocka.Alloc.Layout.{block_layout, initialize_block_cases}
use cmocka.Alloc.Guards.{IsIntact, test_free_cases}
use cmocka.Alloc.Leaks.{IsServed, ptr_of, allocated, test_malloc-ok, memset_outside}

find_block-add :
    (ptr : ℕ) (blocks more : List MallocBlockInfoData) (info : MallocBlockInfoData)
    → find_block ptr blocks ≡ some info
    → find_block ptr (blocks ++ more) ≡ some info
unfolding find_block
find_block-add ptr [] more info found = cc
find_block-add ptr (b ∷ blocks) more info found =
    ground (arith, find_block-add ptr blocks more info)

memcpy_outside :
    (to from n : ℕ) (mem : ℕ → ℕ) (a : ℕ) → (a < to) ⊎ (to + n ≤ a) → memcpy to from n mem a ≡ mem a
unfolding memcpy
memcpy_outside to from n mem a place = ground arith

memcpy_inside :
    (to from n : ℕ) (mem : ℕ → ℕ) (i : ℕ) → i < n → memcpy to from n mem (to + i) ≡ mem (from + i)
unfolding memcpy
memcpy_inside to from n mem i h =
    let offset : to + i - to ≡ i = omega arith in rw offset (ground arith)

-- The data and the guards of a block lie within what malloc returned for it.
abbrev pub IsWithin : MallocBlockInfoData → Type 0
IsWithin info =
    (info.block + malloc_guard_size ≤ info.ptr)
    × (info.ptr + info.size + malloc_guard_size ≤ info.block + info.allocated_size)

-- No byte of the block belongs to the `n` bytes from `start` on.
abbrev pub IsApart : MallocBlockInfoData → ℕ → ℕ → Type 0
IsApart info start n = (start + n ≤ info.block) ⊎ (info.block + info.allocated_size ≤ start)

module _ (size : ℕ) (file : CString) (line block : ℕ) (g : Global) (info : MallocBlockInfoData)
    (served : IsServed size file line block g)
    (apart : IsApart info block (allocate_size_for g.libc.info_size size)) where
  abbrev new_ptr : ℕ
  new_ptr = ptr_of size file line block g

  -- The state once the data have been copied.
  abbrev copied : Global
  copied = record (allocated size file line block g) {
    mem =
        memcpy new_ptr info.ptr (copied_size info.size size) (allocated size file line block g).mem;
  }

  new_layout :
      (malloc_guard_size ≤ new_ptr)
      × (block + malloc_guard_size ≤ new_ptr)
      × (new_ptr + size + malloc_guard_size ≤ block + allocate_size_for g.libc.info_size size)
  new_layout =
      let (some_block, small, info_small, passes) = served in
      let layout = block_layout g.libc.info_size size block small info_small passes in
      (omega (arith, layout), omega (arith, layout), omega (arith, layout))

  old_untouched :
      (a : ℕ)
      → info.block ≤ a
      → a < info.block + info.allocated_size
      → (allocated size file line block g).mem a ≡ g.mem a
  old_untouched a low high =
      (initialize_block_cases new_ptr size g.mem a new_layout.0).3
        (ground (arith, new_layout, apart))

  old_uncopied :
      (a : ℕ) → info.block ≤ a → a < info.block + info.allocated_size → copied.mem a ≡ g.mem a
  old_uncopied a low high =
      memcpy_outside new_ptr info.ptr (copied_size info.size size) _ a
        (ground (arith, new_layout, apart))
      ∙ old_untouched a low high

  -- The state at the end.
  abbrev pub moved : Global
  moved = record copied {
    allocated_blocks = remove_block info.ptr copied.allocated_blocks;
    mem = memset info.block malloc_free_pattern info.allocated_size copied.mem;
  }

  old_freed :
      (free_file : CString) (free_line : ℕ)
      → IsWithin info
      → info.ptr ≢ 0
      → find_block info.ptr g.allocated_blocks ≡ some info
      → IsIntact g (info.ptr - malloc_guard_size) malloc_guard_size
      → IsIntact g (info.ptr + info.size) malloc_guard_size
      → test_free info.ptr free_file free_line copied ≡ ok tt moved
  old_freed free_file free_line within address found front rear =
      (test_free_cases info free_file free_line copied info.ptr address
          (find_block-add info.ptr g.allocated_blocks _ info found)).0
        (λ a p q. old_uncopied a (omega (arith, within)) (omega (arith, within)) ∙ front a p q)
        (λ a p q. old_uncopied a (omega (arith, within)) (omega (arith, within)) ∙ rear a p q)

  data_moved :
      (i : ℕ)
      → IsWithin info
      → i < info.size
      → i < size
      → moved.mem (new_ptr + i) ≡ g.mem (info.ptr + i)
  data_moved i within old new =
      memset_outside info.block malloc_free_pattern info.allocated_size copied.mem (new_ptr + i)
        (ground (arith, new_layout, apart))
      ∙ memcpy_inside new_ptr info.ptr (copied_size info.size size) _ i (ground arith)
      ∙ old_untouched (info.ptr + i) (omega (arith, within)) (omega (arith, within))

-- For a tracked block with intact guards whose data and guards lie within its memory, and a size
-- that is not 0 and passes the overflow test, with a new block from malloc that shares no byte with
-- the old one, _test_realloc returns with the old bytes, up to the smaller of the two sizes, at the
-- new address, and with the new block on the list in place of the old one.
pub test_realloc-data :
    (size : ℕ) (file : CString) (line block : ℕ) (g : Global) (info : MallocBlockInfoData)
    → IsServed size file line block g
    → size ≢ 0
    → info.ptr ≢ 0
    → find_block info.ptr g.allocated_blocks ≡ some info
    → IsWithin info
    → IsApart info block (allocate_size_for g.libc.info_size size)
    → IsIntact g (info.ptr - malloc_guard_size) malloc_guard_size
    → IsIntact g (info.ptr + info.size) malloc_guard_size
    → (ptr : ℕ) × (g' : Global) × (test_realloc info.ptr size file line block g ≡ ok ptr g')
      × ((i : ℕ) → i < info.size → i < size → g'.mem (ptr + i) ≡ g.mem (info.ptr + i))
      × (g'.allocated_blocks
          ≡ remove_block info.ptr (allocated size file line block g).allocated_blocks)
unfolding test_realloc move_block
test_realloc-data size file line block g info served some_size address found within apart front
      rear =
    let given : (info.ptr == 0) ≡ false = ground arith in
    let sized : (size == 0) ≡ false = ground arith in
    let answered : (ptr_of size file line block g == 0) ≡ false =
      ground (arith, new_layout size file line block g info served apart) in
    (
      ptr_of size file line block g,
      moved size file line block g info served apart,
      rw (given, sized, found)
          (rw (test_malloc-ok size file line block g served) (
            rw answered (
              rw (
                old_freed size file line block g info served apart file line within address found
                  front rear)))),
      λ i old new. data_moved size file line block g info served apart i within old new,
      refl,
    )
