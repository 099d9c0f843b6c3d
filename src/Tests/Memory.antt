-- ===== src/Tests/Memory.antt =====
-- The allocator at a concrete block.
use cmocka.Prelude.{ℕ, ◌+◌, ◌-◌, ◌%◌, ◌≤◌, ◌<◌, ◌≡◌, ◌≢◌, ◌⊎◌, inr, refl, [], ◌∷◌, arith}
use cmocka.State.{Global, MallocBlockInfoData}
use cmocka.State.Run.{ok, NeverReturns}
use cmocka.Alloc.{allocate_size_for, pointer_in, test_free, find_block}
use cmocka.Alloc.{remove_block, memset, malloc_alignment, malloc_guard_size}
use cmocka.Alloc.{malloc_guard_pattern, malloc_free_pattern}
use cmocka.Alloc.Layout.{block_layout}
use cmocka.Alloc.Guards.{IsIntact, test_free_cases}
use cmocka.State.Run.{◌>>=◌}
use cmocka.Alloc.{test_malloc, fail_if_blocks_allocated, check_point_allocated_blocks}
use cmocka.Alloc.Leaks.{test_malloc-test_free}
use cmocka.Alloc.{test_realloc}
use cmocka.Alloc.Leaks.{allocated}
use cmocka.Alloc.Realloc.{test_realloc-data}
use cmocka.Alloc.CheckPoints.{IsDistinct, fail_if_blocks_allocated_iff}
use cmocka.Tests.{start, nowhere, file}

abbrev info : MallocBlockInfoData
info = record { ptr = 128; block = 32; allocated_size = 135; size = 8; location = nowhere }

-- A heap with that block, whose memory holds the guard pattern everywhere.
abbrev with_block : Global
with_block = record start { allocated_blocks = info ∷ [] }

test_free_cases_example :
    (IsIntact with_block (info.ptr - malloc_guard_size) malloc_guard_size
      → IsIntact with_block (info.ptr + info.size) malloc_guard_size
      → test_free 128 file 4 with_block
        ≡ ok tt (record with_block {
          allocated_blocks = remove_block info.ptr with_block.allocated_blocks;
          mem = memset info.block malloc_free_pattern info.allocated_size with_block.mem;
        }))
    × ((a : ℕ)
        → ((info.ptr - malloc_guard_size ≤ a)
            × (a < info.ptr - malloc_guard_size + malloc_guard_size))
          ⊎ ((info.ptr + info.size ≤ a) × (a < info.ptr + info.size + malloc_guard_size))
        → with_block.mem a ≢ malloc_guard_pattern
        → NeverReturns (test_free 128 file 4 with_block))
unfolding find_block
test_free_cases_example = test_free_cases info file 4 with_block 128 (λ e. cc) refl

block_layout_example :
    (pointer_in 64 32 % malloc_alignment ≡ 0)
    × (32 + 64 + malloc_guard_size ≤ pointer_in 64 32)
    × (pointer_in 64 32 + 8 + malloc_guard_size ≤ 32 + allocate_size_for 64 8)
unfolding allocate_size_for
block_layout_example = block_layout 64 8 32 (omega arith) (omega arith) (omega arith)

test_malloc-test_free_example :
    (g' : Global) × ((test_malloc 8 file 4 512 >>= λ ptr. test_free ptr file 5) with_block
      ≡ ok tt g')
    × (g'.allocated_blocks ≡ info ∷ [])
    × ((a : ℕ) → (a < 512) ⊎ (512 + allocate_size_for 64 8 ≤ a) → g'.mem a ≡ with_block.mem a)
unfolding find_block pointer_in allocate_size_for
test_malloc-test_free_example =
    test_malloc-test_free 8 file 4 512 with_block file 5
      ((λ e. cc), omega arith, omega arith, omega arith) refl

fail_if_blocks_allocated_iff_example :
    (info ∷ [] ≡ []
      → fail_if_blocks_allocated (check_point_allocated_blocks start) file with_block
        ≡ ok tt with_block)
    × (info ∷ [] ≢ []
        → NeverReturns
            (fail_if_blocks_allocated (check_point_allocated_blocks start) file with_block))
unfolding IsDistinct
fail_if_blocks_allocated_iff_example =
    fail_if_blocks_allocated_iff file start with_block (info ∷ []) tt refl

test_realloc-data_example :
    (ptr : ℕ) × (g' : Global) × (test_realloc 128 16 file 4 512 with_block ≡ ok ptr g')
    × ((i : ℕ) → i < 8 → i < 16 → g'.mem (ptr + i) ≡ with_block.mem (128 + i))
    × (g'.allocated_blocks ≡ remove_block 128 (allocated 16 file 4 512 with_block).allocated_blocks)
unfolding find_block allocate_size_for
test_realloc-data_example =
    test_realloc-data 16 file 4 512 with_block info
      ((λ e. cc), omega arith, omega arith, omega arith) (λ e. cc) (λ e. cc) refl
      (omega arith, omega arith) (inr (omega arith)) (λ a p q. refl) (λ a p q. refl)
