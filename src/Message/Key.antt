-- ===== src/Message/Key.antt =====
-- The constants of src/tasks/scheduler_message.rs and src/tasks/post_message_payload.rs that name
-- fields, the same texts in both, and the prefixes that take an index.
use wasmer_js.Prelude.{ℕ}
use wasmer_js.Message.Object.{Field, plain, indexed}

abbrev pub memory : Field
memory = plain 1

abbrev pub module_hash : Field
module_hash = plain 2

abbrev pub wasm : Field
wasm = plain 3

abbrev pub ptr : Field
ptr = plain 4

abbrev pub worker_id : Field
worker_id = plain 5

abbrev pub request_id : Field
request_id = plain 6

abbrev pub request_json : Field
request_json = plain 7

abbrev pub session_id : Field
session_id = plain 8

abbrev pub payload : Field
payload = plain 9

abbrev pub signal : Field
signal = plain 10

abbrev pub child_id : Field
child_id = plain 11

abbrev pub msg_type : Field
msg_type = plain 12

abbrev pub count : Field
count = plain 13

abbrev pub error : Field
error = plain 14

abbrev pub stdin_offset : Field
stdin_offset = plain 15

abbrev pub stdin_size : Field
stdin_size = plain 16

abbrev pub stdout_offset : Field
stdout_offset = plain 17

abbrev pub stdout_size : Field
stdout_size = plain 18

abbrev pub stderr_offset : Field
stderr_offset = plain 19

abbrev pub stderr_size : Field
stderr_size = plain 20

abbrev pub fd : ℕ → Field
fd i = indexed 0 i

abbrev pub is_tx : ℕ → Field
is_tx i = indexed 1 i

abbrev pub offset : ℕ → Field
offset i = indexed 2 i

abbrev pub size : ℕ → Field
size i = indexed 3 i
