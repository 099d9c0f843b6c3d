-- ===== src/Tests.antt =====
-- The theorems at concrete states of src/cmocka.c.
mod Queues
mod Matching
mod Memory
mod Running
mod Groups
mod Programs
mod Analysis
mod Expecting
mod Nodes
mod Buffers
mod Numbers
mod Reports
use cmocka.Prelude.{ℕ, Bool, true, false, none, some, List, [], ◌∷◌, CString, codes}
use cmocka.State.{Global, SourceLocation, CMockaValueData}

abbrev pub nowhere : SourceLocation
nowhere = record { file = none; line = 0 }

-- The static variables at the start of a program, with a formatter that prints nothing.
abbrev pub start : Global
start = record {
  libc = record {
    test_abort = none;
    message_output = none;
    format = λ format args. [];
    alloc_ok = λ size. true;
    info_size = 64;
    int_of_pointer = λ text. 0;
  };
  running_test = true;
  expecting_assert = false;
  last_failed_assert = none;
  skip_test = false;
  stop_test = false;
  error_message_enabled = true;
  error_message = none;
  function_result_map = [];
  last_mock_value_location = nowhere;
  function_parameter_map = [];
  last_parameter_location = nowhere;
  call_ordering = [];
  last_call_ordering_location = nowhere;
  allocated_blocks = [];
  mem = λ address. 0xEF;
  msg_output = 1;
  env_checked = false;
  test_filter_pattern = none;
  skip_filter_pattern = none;
  version_printed = false;
  state_cell = 0;
  printed = [];
}

abbrev pub word : ℕ → CMockaValueData
word n = record { word = n; pointee = [] }

abbrev pub file : CString
file = codes "test.c"
