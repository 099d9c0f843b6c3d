-- ===== src/Examples/Allocate.antt =====
-- example/allocate_module.c: three functions that misuse memory.
pub mod Caught
use cmocka.Prelude.{ℕ, ◌+◌, ◌-◌, CString, codes, if◌then◌else◌, ◌==◌}
use cmocka.State.{Global}
use cmocka.State.Run.{M, modify, ◌>>=◌, ◌>>◌}
use cmocka.Alloc.{test_malloc, test_free}

abbrev pub file : CString
file = codes "allocate_module.c"

abbrev pub sizeof_int : ℕ
sizeof_int = 4

-- A byte that the program writes.
abbrev pub store : ℕ → ℕ → M (Unit {0})
store address byte = modify λ g. record g { mem = λ a. if a == address then byte else g.mem a }

-- `block` is what malloc returned.
module _ (block : ℕ) where
  unfoldable pub leak_memory : M (Unit {0})
  unfolding test_malloc
  leak_memory = do
    temporary ← test_malloc sizeof_int file 41 block
    store temporary 0
    store (temporary + 1) 0
    store (temporary + 2) 0
    store (temporary + 3) 0

  unfoldable pub buffer_overflow : M (Unit {0})
  unfolding test_malloc test_free
  buffer_overflow = do
    memory ← test_malloc sizeof_int file 46 block
    store (memory + sizeof_int) b'!'
    test_free memory file 48

  unfoldable pub buffer_underflow : M (Unit {0})
  unfolding test_malloc test_free
  buffer_underflow = do
    memory ← test_malloc sizeof_int file 52 block
    store (memory - 1) b'!'
    test_free memory file 54
