-- ===== src/Alloc/Leaks.antt =====
-- A block from _test_malloc to _test_free, and what the leak check of a test finds.
use cmocka.Prelude.{ℕ, ◌+◌, ◌-◌, ◌≤◌, ◌<◌, ◌≡◌, ◌≢◌, ◌⊎◌, refl, inl, inr, true, false}
use cmocka.Prelude.{none, some, List, [], ◌∷◌, ◌++◌, CString, arith, Bool-cases, ◌==◌, ltb}
use cmocka.State.{Global, MallocBlockInfoData}
use cmocka.State.Run.{ok, ◌>>=◌}
use cmocka.Mocks.{set_source_location}
use cmocka.Alloc.{
  test_malloc, test_free, find_block, remove_block, memset, initialize_block, allocate_size_for,
  pointer_in, size_mod,
}
use cmocka.Alloc.{malloc_guard_size, malloc_free_pattern}
use cmocka.Alloc.Layout.{block_layout, initialize_block_cases}
use cmocka.Alloc.Guards.{IsIntact, test_free_cases}

pub find_block-append :
    (ptr : ℕ) (blocks : List MallocBlockInfoData) (info : MallocBlockInfoData)
    → find_block ptr blocks ≡ none
    → info.ptr ≡ ptr
    → (find_block ptr (blocks ++ info ∷ []) ≡ some info)
      × (remove_block ptr (blocks ++ info ∷ []) ≡ blocks)
unfolding find_block remove_block
find_block-append ptr [] info fresh e = (ground arith, ground arith)
find_block-append ptr (b ∷ blocks) info fresh e = elim (Bool-cases (b.ptr == ptr)) [
  | inl same ↦ cc (rw same at fresh)
  | inr other ↦
      let (found, removed) = find_block-append ptr blocks info (rw other at fresh) e in
      (rw other found, rw (other, removed))
]

pub memset_outside :
    (p v n : ℕ) (mem : ℕ → ℕ) (a : ℕ) → (a < p) ⊎ (p + n ≤ a) → memset p v n mem a ≡ mem a
unfolding memset
memset_outside p v n mem a place = ground arith

module _ (size : ℕ) (file : CString) (line block : ℕ) (g : Global) where
  abbrev pub ptr_of : ℕ
  ptr_of = pointer_in g.libc.info_size block

  abbrev pub info_for : MallocBlockInfoData
  info_for = record {
    ptr = ptr_of;
    block = block;
    allocated_size = allocate_size_for g.libc.info_size size;
    size = size;
    location = set_source_location file line;
  }

  abbrev pub allocated : Global
  allocated = record g {
    mem = initialize_block ptr_of size g.mem;
    allocated_blocks = g.allocated_blocks ++ info_for ∷ [];
  }

  -- The request passes the overflow test, and the C library's malloc has returned a block.
  abbrev pub IsServed : Type 0
  IsServed =
      (block ≢ 0)
      × (size < size_mod)
      × (g.libc.info_size + 48 < size_mod)
      × (size < allocate_size_for g.libc.info_size size)

  pub test_malloc-ok : IsServed → test_malloc size file line block g ≡ ok ptr_of allocated
  unfolding test_malloc
  test_malloc-ok (some_block, small, info_small, passes) =
      let fits : ltb size (allocate_size_for g.libc.info_size size) ≡ true = ground arith in
      let answered : (block == 0) ≡ false = ground arith in rw (fits, answered)

  front_guard : IsServed → IsIntact allocated (ptr_of - malloc_guard_size) malloc_guard_size
  front_guard (some_block, small, info_small, passes) a p q =
      let layout = block_layout g.libc.info_size size block small info_small passes in
      let above : malloc_guard_size ≤ ptr_of = omega (arith, layout) in
      (initialize_block_cases ptr_of size g.mem a above).1 (omega arith) (omega arith)

  rear_guard : IsServed → IsIntact allocated (ptr_of + size) malloc_guard_size
  rear_guard (some_block, small, info_small, passes) a p q =
      let layout = block_layout g.libc.info_size size block small info_small passes in
      let above : malloc_guard_size ≤ ptr_of = omega (arith, layout) in
      (initialize_block_cases ptr_of size g.mem a above).2 (omega arith) (omega arith)

  abbrev pub freed : Global
  freed = record allocated {
    allocated_blocks = g.allocated_blocks;
    mem = memset block malloc_free_pattern (allocate_size_for g.libc.info_size size) allocated.mem;
  }

  test_free-allocated :
      (free_file : CString) (free_line : ℕ)
      → IsServed
      → find_block ptr_of g.allocated_blocks ≡ none
      → test_free ptr_of free_file free_line allocated ≡ ok tt freed
  test_free-allocated free_file free_line served fresh =
      let (some_block, small, info_small, passes) = served in
      let layout = block_layout g.libc.info_size size block small info_small passes in
      let address : ptr_of ≢ 0 = λ e. omega (arith, layout, e) in
      let (found, removed) = find_block-append ptr_of g.allocated_blocks info_for fresh refl in
      let freeing =
        (test_free_cases info_for free_file free_line allocated ptr_of address found).0
          (front_guard served) (rear_guard served) in
      rw (freeing, removed)

  outside_layout :
      (a : ℕ)
      → (block + g.libc.info_size + malloc_guard_size ≤ ptr_of)
        × (ptr_of + size + malloc_guard_size ≤ block + allocate_size_for g.libc.info_size size)
      → (a < block) ⊎ (block + allocate_size_for g.libc.info_size size ≤ a)
      → (a + malloc_guard_size < ptr_of) ⊎ (ptr_of + size + malloc_guard_size ≤ a)
  outside_layout a (front, rear) place = ground arith

  freed_outside :
      (a : ℕ)
      → IsServed
      → (a < block) ⊎ (block + allocate_size_for g.libc.info_size size ≤ a)
      → freed.mem a ≡ g.mem a
  freed_outside a (some_block, small, info_small, passes) place =
      let layout = block_layout g.libc.info_size size block small info_small passes in
      let above : malloc_guard_size ≤ ptr_of = omega (arith, layout) in
      rw (
        (memset_outside block _ _ allocated.mem a place),
        (initialize_block_cases ptr_of size g.mem a above).3
            (outside_layout a (layout.1, layout.2) place),
      )

  -- When malloc returns a block, the request passes the overflow test and no tracked block is at
  -- the new address, _test_malloc followed by _test_free of what it gave returns with the list of
  -- blocks as it was before, and no byte outside the memory that malloc returned has changed.
  pub test_malloc-test_free :
      (free_file : CString) (free_line : ℕ)
      → IsServed
      → find_block ptr_of g.allocated_blocks ≡ none
      → (g' : Global) × ((test_malloc size file line block >>= λ ptr.
              test_free ptr free_file free_line)
            g
          ≡ ok tt g')
        × (g'.allocated_blocks ≡ g.allocated_blocks)
        × ((a : ℕ)
            → (a < block) ⊎ (block + allocate_size_for g.libc.info_size size ≤ a)
            → g'.mem a ≡ g.mem a)
  test_malloc-test_free free_file free_line served fresh = (
    freed,
    rw (test_malloc-ok served) (test_free-allocated free_file free_line served fresh),
    refl,
    λ a place. freed_outside a served place,
  )
