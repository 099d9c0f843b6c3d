-- ===== src/Alloc/CheckPoints.antt =====
-- Check points of the block list, and the leak check at the end of a test.
use cmocka.Prelude.{ltb, length, ◌≡◌, ◌≢◌, refl, true}
use cmocka.Prelude.{none, some, List, [], ◌∷◌, ◌++◌, CString, arith}
use cmocka.Report.{cmocka_print_error}
use cmocka.State.{Global, MallocBlockInfoData}
use cmocka.State.Run.{ok, NeverReturns}
use cmocka.Report.Ends.{exit_test-NeverReturns, continue-NeverReturns}
use cmocka.Alloc.{find_block, head, node, last_node, blocks_after, after_node}
use cmocka.Alloc.{
  check_point_allocated_blocks, fail_if_leaked, display_blocks, free_blocks,
  fail_if_blocks_allocated,
}

-- No two blocks of the list are at one address.
unfoldable pub IsDistinct : List MallocBlockInfoData → Type 0
IsDistinct [] = Unit
IsDistinct (info ∷ blocks) = (find_block info.ptr blocks ≡ none) × IsDistinct blocks

-- A node further on is looked for past an element with another address.
skip_first :
    (info b : MallocBlockInfoData) (bs rest : List MallocBlockInfoData)
    → find_block info.ptr (b ∷ bs) ≡ none
    → blocks_after (last_node (node b.ptr) bs) (info ∷ rest)
      ≡ blocks_after (last_node (node b.ptr) bs) rest
unfolding blocks_after after_node find_block
skip_first info b [] rest fresh = ground arith
skip_first info b (c ∷ bs) rest fresh = skip_first info c bs rest (ground arith)

module _ (behind : List MallocBlockInfoData) where
  last_node_after :
      (b : MallocBlockInfoData) (bs : List MallocBlockInfoData)
      → IsDistinct (b ∷ bs)
      → blocks_after (last_node (node b.ptr) bs) ((b ∷ bs) ++ behind) ≡ some behind
  unfolding blocks_after after_node IsDistinct
  last_node_after b [] distinct = ground arith
  last_node_after b (c ∷ bs) (fresh, distinct) =
      rw (skip_first b c bs ((c ∷ bs) ++ behind) fresh) (last_node_after c bs distinct)

  blocks_after-last_node :
      (blocks : List MallocBlockInfoData)
      → IsDistinct blocks
      → blocks_after (last_node head blocks) (blocks ++ behind) ≡ some behind
  unfolding blocks_after
  blocks_after-last_node [] distinct = refl
  blocks_after-last_node (b ∷ bs) distinct = last_node_after b bs distinct

module _ (test_name : CString) (g : Global) where
  fail_if_leaked-none : fail_if_leaked (some []) test_name g ≡ ok tt g
  unfolding fail_if_leaked
  fail_if_leaked-none = refl

  fail_if_leaked-NeverReturns :
      (info : MallocBlockInfoData) (blocks : List MallocBlockInfoData)
      → NeverReturns (fail_if_leaked (some (info ∷ blocks)) test_name g)
  unfolding fail_if_leaked
  fail_if_leaked-NeverReturns info blocks =
      let some_left : ltb 0 (length (info ∷ blocks)) ≡ true = ground arith in
      continue-NeverReturns (display_blocks true (info ∷ blocks) g) _ λ _ g₁. rw some_left (
        continue-NeverReturns (free_blocks (info ∷ blocks) g₁) _ λ _ g₂.
          continue-NeverReturns (cmocka_print_error _ _ g₂) _ λ _ g₃. exit_test-NeverReturns g₃)

-- When the blocks at the check point are at distinct addresses and the list of blocks now is those
-- blocks and others behind them, the leak check returns and changes nothing if there are no others,
-- and does not return if there are.
pub fail_if_blocks_allocated_iff :
    (test_name : CString) (start g : Global) (leaked : List MallocBlockInfoData)
    → IsDistinct start.allocated_blocks
    → g.allocated_blocks ≡ start.allocated_blocks ++ leaked
    → (leaked ≡ []
        → fail_if_blocks_allocated (check_point_allocated_blocks start) test_name g ≡ ok tt g)
      × (leaked ≢ []
          → NeverReturns
              (fail_if_blocks_allocated (check_point_allocated_blocks start) test_name g))
unfolding fail_if_blocks_allocated
fail_if_blocks_allocated_iff test_name start g leaked distinct grown =
    let behind : blocks_after (check_point_allocated_blocks start) g.allocated_blocks
        ≡ some leaked =
      rw grown (blocks_after-last_node leaked start.allocated_blocks distinct) in
    (λ e. rw (behind, e) (fail_if_leaked-none test_name g), λ ne. rw behind (left leaked ne))
  where
    left :
        (blocks : List MallocBlockInfoData)
        → blocks ≢ []
        → NeverReturns (fail_if_leaked (some blocks) test_name g)
    left [] ne = absurd (ne refl)
    left (info ∷ blocks) ne = fail_if_leaked-NeverReturns test_name g info blocks
