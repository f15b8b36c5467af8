-- ===== src/Message/Ty.antt =====
-- The `TYPE_*` constants of src/tasks/scheduler_message.rs, in their order, then those that
-- src/tasks/post_message_payload.rs and src/tasks/worker_message.rs add: the texts are numbers.
use wasmer_js.Prelude.{ℕ}

abbrev pub close : ℕ
close = 0

abbrev pub spawn_async : ℕ
spawn_async = 1

abbrev pub spawn_blocking : ℕ
spawn_blocking = 2

abbrev pub worker_idle : ℕ
worker_idle = 3

abbrev pub worker_busy : ℕ
worker_busy = 4

abbrev pub cache_module : ℕ
cache_module = 5

abbrev pub spawn_with_module : ℕ
spawn_with_module = 6

abbrev pub spawn_with_module_and_memory : ℕ
spawn_with_module_and_memory = 7

abbrev pub host_exec_start : ℕ
host_exec_start = 8

abbrev pub host_exec_read : ℕ
host_exec_read = 9

abbrev pub host_exec_write : ℕ
host_exec_write = 10

abbrev pub host_exec_close_stdin : ℕ
host_exec_close_stdin = 11

abbrev pub host_exec_try_read : ℕ
host_exec_try_read = 12

abbrev pub host_exec_poll : ℕ
host_exec_poll = 13

abbrev pub host_exec_signal : ℕ
host_exec_signal = 14

abbrev pub host_exec_child_output : ℕ
host_exec_child_output = 15

abbrev pub host_exec_start_response : ℕ
host_exec_start_response = 16

abbrev pub host_exec_read_response : ℕ
host_exec_read_response = 17

abbrev pub busy : ℕ
busy = 18

abbrev pub idle : ℕ
idle = 19

abbrev pub scheduler : ℕ
scheduler = 20
