-- ===== src/Alloc.antt =====
-- The allocator of src/cmocka.c: _test_malloc, _test_calloc, _test_free, _test_realloc over guarded blocks,
-- and the check points that find leaks. What the C library's `malloc` returned is an argument, `block`
-- (0 for NULL); sizes are `size_t`, so that sums are taken modulo 2^64.
pub mod Layout
pub mod Guards
pub mod Leaks
pub mod CheckPoints
pub mod Realloc
use cmocka.Prelude.{
  ℕ, zero, suc, ◌+◌, ◌-◌, ◌*◌, ◌/◌, ◌%◌, ◌^◌, Bool, true, false, not, ◌&&◌, Option, none,
}
use cmocka.Prelude.{
  some, List, [], ◌∷◌, ◌++◌, CString, if◌then◌else◌, ltb, leb, ◌==◌, codes, length,
}
use cmocka.State.{Global, MallocBlockInfoData, str, nat}
use cmocka.State.Run.{M, Outcome, ok, undefined, pure, ◌>>=◌, ◌>>◌, modify, gets, when}
use cmocka.Report.{cmocka_print_error, exit_test, fail}
use cmocka.Mocks.{set_source_location, file_of, assert_true}

abbrev pub malloc_guard_size : ℕ
malloc_guard_size = 16

abbrev pub malloc_guard_pattern : ℕ
malloc_guard_pattern = 0xEF

abbrev pub malloc_alloc_pattern : ℕ
malloc_alloc_pattern = 0xBA

abbrev pub malloc_free_pattern : ℕ
malloc_free_pattern = 0xCD

abbrev pub malloc_alignment : ℕ
malloc_alignment = 16

abbrev pub size_mod : ℕ
size_mod = 2 ^ 64

-- ALIGN_DOWN
unfoldable pub align_down : ℕ → ℕ → ℕ
align_down x a = x / a * a

unfoldable pub memset : ℕ → ℕ → ℕ → (ℕ → ℕ) → ℕ → ℕ
memset p v n mem a = if leb p a && ltb a (p + n) then v else mem a

unfoldable pub memcpy : ℕ → ℕ → ℕ → (ℕ → ℕ) → ℕ → ℕ
memcpy to from n mem a = if leb to a && ltb a (to + n) then mem (from + (a - to)) else mem a

-- The size that is asked of the C library for `size` bytes, and the address given out in `block`.
unfoldable pub allocate_size_for : ℕ → ℕ → ℕ
allocate_size_for info_size size =
    (size + malloc_guard_size * 2 + info_size + malloc_alignment) % size_mod

unfoldable pub pointer_in : ℕ → ℕ → ℕ
unfolding align_down
pointer_in info_size block =
    align_down (block + malloc_guard_size + info_size + malloc_alignment) malloc_alignment

-- The three memsets of _test_malloc.
unfoldable pub initialize_block : ℕ → ℕ → (ℕ → ℕ) → ℕ → ℕ
unfolding memset
initialize_block ptr size mem = memset ptr malloc_alloc_pattern size (
    memset (ptr + size) malloc_guard_pattern malloc_guard_size
      (memset (ptr - malloc_guard_size) malloc_guard_pattern malloc_guard_size mem))

unfoldable pub test_malloc : ℕ → CString → ℕ → ℕ → M ℕ
unfolding assert_true allocate_size_for pointer_in initialize_block
test_malloc size file line block = do
  g ← gets (λ g. g)
  let allocate_size = allocate_size_for g.libc.info_size size
  assert_true 2687 (ltb size allocate_size) (codes "allocate_size > size")
  assert_true 2690 (not (block == 0)) (codes "block")
  let ptr = pointer_in g.libc.info_size block
  let location = set_source_location file line
  let info : MallocBlockInfoData = record {
    ptr = ptr;
    block = block;
    allocated_size = allocate_size;
    size = size;
    location = location;
  }
  modify (λ g. record g {
    mem = initialize_block ptr size g.mem;
    allocated_blocks = g.allocated_blocks ++ info ∷ [];
  })
  pure ptr

-- `size > 0 && number_of_elements > SIZE_MAX / size`
unfoldable pub product_overflows : ℕ → ℕ → Bool
product_overflows number_of_elements size =
    ltb 0 size && ltb ((size_mod - 1) / size) number_of_elements

unfoldable pub test_calloc : ℕ → ℕ → CString → ℕ → ℕ → M ℕ
unfolding test_malloc product_overflows memset
test_calloc number_of_elements size file line block =
    if product_overflows number_of_elements size then pure 0 else (do
      ptr ← test_malloc (number_of_elements * size % size_mod) file line block
      when (not (ptr == 0))
          (modify λ g. record g { mem = memset ptr 0 (number_of_elements * size % size_mod) g.mem })
      pure ptr)

-- The information in front of a block, and the list without its node.
unfoldable pub find_block : ℕ → List MallocBlockInfoData → Option MallocBlockInfoData
find_block ptr [] = none
find_block ptr (info ∷ blocks) = if info.ptr == ptr then some info else find_block ptr blocks

unfoldable pub remove_block : ℕ → List MallocBlockInfoData → List MallocBlockInfoData
remove_block ptr [] = []
remove_block ptr (info ∷ blocks) =
    if info.ptr == ptr then blocks else info ∷ remove_block ptr blocks

-- The inner loop over a guard: `rounds` bytes from `guard` on.
unfoldable pub check_guard : ℕ → ℕ → MallocBlockInfoData → CString → ℕ → M (Unit {0})
unfolding cmocka_print_error fail
check_guard zero guard info file line = pure tt
check_guard (suc rounds) guard info file line = do
  g ← gets (λ g. g)
  when (not (g.mem guard == malloc_guard_pattern)) (do
    cmocka_print_error
        "%s:%u: error: Guard block of %p size=%lu is corrupt\n%s:%u: note: allocated here at %p\n"
        (str file
          ∷ nat line
          ∷ nat info.ptr
          ∷ nat info.size
          ∷ str (file_of info.location)
          ∷ nat info.location.line
          ∷ nat guard
          ∷ [])
    fail file line)
  check_guard rounds (guard + 1) info file line

unfoldable undefined_behaviour {ℓ} : {A : Type ℓ} → M A
undefined_behaviour g = undefined

-- From the guards on. A pointer that no block was given out for is read out of bounds.
unfoldable pub free_block : Option MallocBlockInfoData → CString → ℕ → M (Unit {0})
unfolding check_guard remove_block memset undefined_behaviour
free_block none file line = undefined_behaviour
free_block (some info) file line = do
  check_guard malloc_guard_size (info.ptr - malloc_guard_size) info file line
  check_guard malloc_guard_size (info.ptr + info.size) info file line
  modify λ g. record g {
    allocated_blocks = remove_block info.ptr g.allocated_blocks;
    mem = memset info.block malloc_free_pattern info.allocated_size g.mem;
  }

unfoldable pub test_free : ℕ → CString → ℕ → M (Unit {0})
unfolding free_block find_block
test_free ptr file line =
    if ptr == 0
    then pure tt
    else (do g ← gets (λ g. g); free_block (find_block ptr g.allocated_blocks) file line)

-- The number of bytes that are carried over.
abbrev pub copied_size : ℕ → ℕ → ℕ
copied_size old_size size = if ltb old_size size then old_size else size

unfoldable pub move_block : Option MallocBlockInfoData → ℕ → CString → ℕ → ℕ → M ℕ
unfolding test_malloc test_free memcpy undefined_behaviour
move_block none size file line block = undefined_behaviour
move_block (some info) size file line block = do
  new_block ← test_malloc size file line block
  if new_block == 0 then pure 0 else do
    modify λ g. record g { mem = memcpy new_block info.ptr (copied_size info.size size) g.mem }
    test_free info.ptr file line
    pure new_block

unfoldable pub test_realloc : ℕ → ℕ → CString → ℕ → ℕ → M ℕ
unfolding move_block
test_realloc ptr size file line block =
    if ptr == 0
    then test_malloc size file line block
    else if size == 0
    then (test_free ptr file line >>= λ _. pure 0)
    else (do g ← gets (λ g. g); move_block (find_block ptr g.allocated_blocks) size file line block)

-- A check point is a node of the block list: its head, or the node of the block with that address.
pub data CheckPoint : Type 0 where
  head : CheckPoint
  node : ℕ → CheckPoint

abbrev pub last_node : CheckPoint → List MallocBlockInfoData → CheckPoint
last_node point [] = point
last_node point (info ∷ blocks) = last_node (node info.ptr) blocks

abbrev pub check_point_allocated_blocks : Global → CheckPoint
check_point_allocated_blocks g = last_node head g.allocated_blocks

unfoldable pub after_node : ℕ → List MallocBlockInfoData → Option (List MallocBlockInfoData)
after_node ptr [] = none
after_node ptr (info ∷ blocks) = if info.ptr == ptr then some blocks else after_node ptr blocks

-- The blocks behind a check point; none where its block has been freed.
unfoldable pub blocks_after :
    CheckPoint → List MallocBlockInfoData → Option (List MallocBlockInfoData)
unfolding after_node
blocks_after head blocks = some blocks
blocks_after (node ptr) blocks = after_node ptr blocks

-- The loop of display_allocated_blocks; the head line comes with the first block.
unfoldable pub display_blocks : Bool → List MallocBlockInfoData → M (Unit {0})
unfolding cmocka_print_error
display_blocks first [] = pure tt
display_blocks first (info ∷ blocks) = do
  when first (cmocka_print_error "Blocks allocated...\n" [])
  cmocka_print_error "%s:%u: note: block %p allocated here\n"
      (str (file_of info.location) ∷ nat info.location.line ∷ nat info.block ∷ [])
  display_blocks false blocks

-- The loop of free_allocated_blocks, whose `free` is test_free.
unfoldable pub free_blocks : List MallocBlockInfoData → M (Unit {0})
unfolding test_free
free_blocks [] = pure tt
free_blocks (info ∷ blocks) = test_free info.ptr (codes "cmocka.c") 0 >> free_blocks blocks

-- fail_if_blocks_allocated, over the blocks behind its check point.
unfoldable pub fail_if_leaked : Option (List MallocBlockInfoData) → CString → M (Unit {0})
unfolding display_blocks free_blocks cmocka_print_error exit_test undefined_behaviour
fail_if_leaked none test_name = undefined_behaviour
fail_if_leaked (some blocks) test_name = do
  display_blocks true blocks
  when (ltb 0 (length blocks)) (do
    free_blocks blocks
    cmocka_print_error "ERROR: %s leaked %zu block(s)\n" (str test_name ∷ nat (length blocks) ∷ [])
    exit_test true)

unfoldable pub fail_if_blocks_allocated : CheckPoint → CString → M (Unit {0})
unfolding fail_if_leaked blocks_after
fail_if_blocks_allocated check_point test_name = do
  g ← gets (λ g. g)
  fail_if_leaked (blocks_after check_point g.allocated_blocks) test_name
