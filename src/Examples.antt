-- ===== src/Examples.antt =====
-- The modules of example/: allocate_module.c and assert_module.c as they are built for a test, with
-- `assert` as mock_assert and the allocation functions of the library; calculator.c and assert_macro.c as
-- they are.
pub mod Allocate
pub mod Calculator
pub mod Assert
pub mod Status
