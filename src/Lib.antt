-- ===== src/Lib.antt =====
-- cmocka, the unit testing framework for C: src/cmocka.c with the types of include/cmocka.h, the static
-- analyser's model of it and the example programs.
--
-- The parts and their files:
-- State: the structs ListNode, SymbolValue, SymbolMapValue, SourceLocation, CheckParameterEvent,
--   FuncOrderingValue and MallocBlockInfoData, and the static variables of src/cmocka.c as the record
--   `Global`. State/Run: functions over that record. A function's outcome is a value with the new
--   state, a longjmp to the test's or to the assertion's buffer, an exit, an abort, or undefined
--   behaviour.
-- Report: cmocka_print_error with its message buffer, _fail, _skip, _stop, exit_test, mock_assert,
--   exception_handler and _additional_msg. Report/Output: cm_get_output.
--   Report/Settings: cmocka_set_message_output, cmocka_set_test_filter and cmocka_set_skip_filter.
-- Glob: c_strmatch; Glob/Matches describes what a pattern means without it.
-- Symbols: the nested symbol maps behind mock values and expectations (add_symbol_value,
--   get_symbol_value, remove_always_return_values, check_for_leftover_values). Symbols/Queue says what a
--   map stands for: a queue of counted values for each path of names.
-- Mocks: _will_return, _mock, initialize_testing and teardown_testing. Mocks/Calls:
--   _expect_function_call and _function_called. Mocks/Leftover: has_leftover_values and
--   fail_if_leftover_values; Symbols/Cleanup and Mocks/Settled are about them, with Report/Quiet on
--   functions that only print.
-- Lists: the nodes of the doubly linked lists at their addresses, and list_initialize, list_add_value,
--   list_add, list_remove, list_remove_free, list_free, list_empty, list_find and list_first over them.
--   Lists/Ring says when the links of nodes make a list. The other parts take such a list as a List.
-- Replace: c_strreplace over the bytes of its buffer, and cmprepare_xml_attribute_string.
--   Replace/Found and Replace/Escape describe what they are to produce without them.
-- Floats: the comparisons and assertions on float and double values.
-- Xml: cmprintf_group_finish_xml, whose lines go to a file, to stdout or to stderr. The finish lines of a
--   group in Runner/Print leave it out. Xml/Suite says what the elements of a report are.
-- Compare, Compare/Memory: the *_display_error comparisons with their messages.
-- Expect: the _expect_* functions, the callbacks that they store and _check_expected.
-- Asserts: the _assert_* functions.
-- Alloc: _test_malloc, _test_calloc, _test_realloc, _test_free, check points and the leak check.
--   Alloc/Layout, Alloc/Guards, Alloc/Leaks, Alloc/Realloc and Alloc/CheckPoints: the layout of a block,
--   its guards, a block from its allocation to its end, a block that moves, and the leak check.
-- Runner: cmocka_run_one_test_or_fixture, cmocka_run_group_fixture and cmocka_run_one_tests.
--   Runner/Verdict and Runner/Jumped: the status of a test whose function returns, or jumps.
--   Runner/Single and Runner/Skipping: a setup that skips, and the test behind it.
--   Runner/Group: _cmocka_run_group_tests. Runner/Print: the standard, TAP and subunit output.
--   Runner/Plain: what a test's function does; Runner/Fixtures, Runner/Regular and Runner/GroupFixtures:
--   a setup and a teardown around it, or around a group; Runner/Loop and Runner/Exit: the loop over the
--   tests and what a group returns. Runner/Steady and Report/Steady say what output leaves alone.
-- Clock: cm_tspecdiff and cm_secdiff; the doubles of C are a parameter.
-- Signals: the signal handlers around a test; Signals/Windows: exception_filter.
-- Contracts: expect_assert_failure of include/cmocka.h.
-- Coverity: the static analyser's model of the assertions, coverity/coverity_assert_model.c.
--   Coverity/Agrees and Coverity/Departs hold it against Asserts and Floats, with Compare/Memory/Areas.
-- Examples: the modules of example/: Examples/Allocate (allocate_module.c), Examples/Calculator
--   (calculator.c), Examples/Assert (assert_module.c) and Examples/Status (assert_macro.c).
-- Tests: the theorems at concrete states.
--
-- Mocks and Expect keep their values in symbol maps; every check that fails goes through
-- cmocka_print_error to _fail or exit_test, whose jump the runner catches; the runner sets up the state
-- of each test and looks for leftover values and blocks at its end.
--
-- A `const char *` is the list of its bytes, an `Option` of it where it may be NULL. An integer of type
-- uintmax_t or size_t is a natural number, one of type intmax_t an integer; sizes wrap at 2 ^ 64 where
-- the code relies on it. Memory is a function from addresses to bytes. The C library enters as the
-- record `Libc`: the environment variables, the formatter, whether an allocation succeeds, and the size of
-- the allocator's bookkeeping struct; the address of a new block is an argument of _test_malloc. The
-- operators on floating-point numbers are the record `Arithmetic`, in Clock the record `Doubles`. Most
-- loops are structural recursion on lists or on the number of bytes. The loops of list_find, list_free
-- and c_strreplace run on fuel, where more than the number of nodes, or than the bytes of the string,
-- is enough; cmprepare_xml_attribute_string passes on the size of its buffer.
--
-- Not modelled: where the runner reads the clock, the check for a debugger, the tests of the
-- repository, and the macros of include/cmocka.h that only pass file, line and names on.
pub mod Prelude
pub mod Glob
pub mod State
pub mod Report
pub mod Symbols
pub mod Mocks
pub mod Compare
pub mod Expect
pub mod Alloc
pub mod Runner
pub mod Asserts
pub mod Lists
pub mod Replace
pub mod Tests
pub mod Floats
pub mod Xml
pub mod Coverity
pub mod Examples
pub mod Contracts
pub mod Clock
pub mod Signals
