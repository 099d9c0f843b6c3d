-- ===== src/State.antt =====
-- The static variables of src/cmocka.c as one record, and the objects that they hold.
pub mod Run
use cmocka.Prelude.{ℕ, Bool, true, false, Option, none, some, List, [], String, CString}
use cmocka.Prelude.Int.{ℤ}

-- `file` is NULL in a location that is not set.
pub record SourceLocation : Type 0 where
  pub file : Option CString
  pub line : ℕ

-- A list node: `value` is the object that its `void *` points to. The order of the nodes is that of
-- the list that holds them.
pub record ListNode {ℓ} (V : Type ℓ) : Type ℓ where
  pub value : V
  pub refcount : ℤ

-- `symbol_values_list_head` is the list of the values, or of the next level's symbols.
pub record SymbolMapValue {ℓ} (C : Type ℓ) : Type ℓ where
  pub symbol_name : CString
  pub symbol_values_list_head : C

-- The 64 bits of the union and, where they are a pointer, the bytes that it points to.
pub record CMockaValueData : Type 0 where
  pub word : ℕ
  pub pointee : List ℕ

pub record SymbolValue : Type 0 where
  pub name : Option CString
  pub location : SourceLocation
  pub value : CMockaValueData

-- `check_value` with its `check_value_data`: one constructor for each callback of the file, and one for
-- a callback of the test's own.
pub data Check : Type 0 where
  check_value check_not_value : CMockaValueData → Check
  check_string check_not_string : CMockaValueData → Check
  check_memory check_not_memory : List ℕ → Check
  check_in_range check_not_in_range : ℕ → ℕ → Check
  check_int_in_set : List ℤ → Check
  check_uint_in_set check_not_in_set : List ℕ → Check
  check_any : Check
  check_custom : (CMockaValueData → CMockaValueData → Bool) → CMockaValueData → Check

pub record CheckParameterEvent : Type 0 where
  pub location : SourceLocation
  pub parameter_name : CString
  pub check : Check

pub record FuncOrderingValue : Type 0 where
  pub location : SourceLocation
  pub function : CString

-- What stands in front of a block's first guard. `ptr` is the address that the client got.
pub record MallocBlockInfoData : Type 0 where
  pub ptr : ℕ
  pub block : ℕ
  pub allocated_size : ℕ
  pub size : ℕ
  pub location : SourceLocation

-- An argument of a printed message; a floating-point number is given by its bits as a double.
pub data Arg : Type 0 where
  str : CString → Arg
  int : ℤ → Arg
  nat : ℕ → Arg
  float_bits : ℕ → Arg

-- What the code takes from the C library and the environment: `getenv`, the formatter, whether a
-- request for so many bytes succeeds, `sizeof(struct MallocBlockInfoData)`, and the `int` that is read
-- where a pointer is stored.
pub record Libc : Type 0 where
  pub test_abort : Option CString
  pub message_output : Option CString
  pub format : String → List Arg → CString
  pub alloc_ok : ℕ → Bool
  pub info_size : ℕ
  pub int_of_pointer : Option CString → ℕ

pub data Stream : Type 0 where
  stdout stderr : Stream

-- The flags are C's `int` and `bool` variables that hold 0 or 1. `state_cell` is what `*state` holds
-- while a test or a fixture runs, and `mem` the bytes of the heap.
pub record Global : Type 0 where
  pub libc : Libc
  pub running_test : Bool
  pub expecting_assert : Bool
  pub last_failed_assert : Option CString
  pub skip_test : Bool
  pub stop_test : Bool
  pub error_message_enabled : Bool
  pub error_message : Option CString
  pub function_result_map : List (SymbolMapValue (List (ListNode SymbolValue)))
  pub last_mock_value_location : SourceLocation
  pub function_parameter_map :
      List (SymbolMapValue (List (SymbolMapValue (List (ListNode CheckParameterEvent)))))
  pub last_parameter_location : SourceLocation
  pub call_ordering : List (ListNode FuncOrderingValue)
  pub last_call_ordering_location : SourceLocation
  pub allocated_blocks : List MallocBlockInfoData
  pub mem : ℕ → ℕ
  pub msg_output : ℕ
  pub env_checked : Bool
  pub test_filter_pattern : Option CString
  pub skip_filter_pattern : Option CString
  pub version_printed : Bool
  pub state_cell : ℕ
  pub printed : List (Stream × CString)
