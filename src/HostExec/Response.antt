-- ===== src/HostExec/Response.antt =====
-- The response buffer of a worker, 65536 bytes shared with the scheduler. The scheduler writes a
-- response (src/tasks/scheduler.rs, `send_host_exec_*`), and the worker that waits on the status word
-- reads it (src/runtime.rs, `host_exec_read`, `host_exec_try_read`, `host_exec_poll`).
pub mod RoundTrip
pub mod Limits
pub mod Wakeup
use wasmer_js.Prelude.{
  ℕ, ◌+◌, ◌-◌, ◌%◌, ◌^◌, List, Option, none, some, Bool, ltb, ◌==◌, if◌then◌else◌,
}
use wasmer_js.Memory.{Memory, load, store, word_mod, View, copy_in, copy_out}

abbrev pub host_exec_buffer_size : ℕ
host_exec_buffer_size = 65536

abbrev pub msg_type_stdout : ℕ
msg_type_stdout = 1

abbrev pub msg_type_stderr : ℕ
msg_type_stderr = 2

abbrev pub msg_type_exit : ℕ
msg_type_exit = 3

-- The whole buffer as bytes.
abbrev pub buffer_view : View
buffer_view = record { base = 0; count = host_exec_buffer_size }

-- The addresses of the words: the status, the message's type, its length or exit code, the session.
abbrev pub status_at : ℕ
status_at = 0

abbrev pub type_at : ℕ
type_at = 4

abbrev pub length_at : ℕ
length_at = 8

abbrev pub session_at : ℕ
session_at = 12

abbrev pub data_at : ℕ
data_at = 16

-- The data bytes, if any.
unfoldable pub write_bytes : Memory → Option (List ℕ) → Memory
write_bytes m none = m
write_bytes m (some bytes) = copy_in m buffer_view data_at bytes

-- What `send_host_exec_read_response` does to the buffer of the worker that it finds. `as i32` keeps
-- the low 32 bits of the session.
unfoldable pub write_read_response : Memory → ℕ → ℕ → ℕ → Option (List ℕ) → Memory
write_read_response m session_id msg_type data_or_exit_code bytes =
    let m₁ = store m type_at msg_type in
    let m₂ = store m₁ length_at data_or_exit_code in
    let m₃ = store m₂ session_at (session_id % word_mod) in store (write_bytes m₃ bytes) status_at 1

-- `send_host_exec_try_read_no_data`.
unfoldable pub write_no_data : Memory → ℕ → Memory
write_no_data m session_id = store (store m session_at (session_id % word_mod)) status_at 2

-- `send_host_exec_poll_response`.
unfoldable pub write_poll_response : Memory → ℕ → Bool → Memory
write_poll_response m session_id is_ready =
    store (store m session_at (session_id % word_mod)) status_at (if is_ready then 1 else 2)

-- `HostExecOutput`.
pub data Output : Type 0 where
  exit : ℕ → Output
  stdout stderr : List ℕ → Output
  raw : ℕ → List ℕ → Output

pub data ReadResult : Type 0 where
  output : Output → ReadResult
  session_mismatch : ℕ → ℕ → ReadResult

-- `i32 as u64` extends the sign.
abbrev pub sign_extend : ℕ → ℕ
sign_extend w = if ltb w 2147483648 then w else w + (18446744073709551616 - word_mod)

-- The match on the message's type that the two reads share.
unfoldable pub read_output : Memory → Output
read_output m =
    let msg_type = load m type_at in
    let data_len_or_exit_code = load m length_at in
    let bytes = copy_out m buffer_view data_at data_len_or_exit_code in
    if msg_type == msg_type_exit
    then exit data_len_or_exit_code
    else if msg_type == msg_type_stdout
    then stdout bytes
    else if msg_type == msg_type_stderr
    then stderr bytes
    else raw msg_type bytes

-- What `host_exec_read` makes of the buffer once it is woken.
unfoldable pub read_response : Memory → ℕ → ReadResult
read_response m session =
    let response_session = sign_extend (load m session_at) in
    if response_session == session
    then output (read_output m)
    else session_mismatch session response_session

-- `host_exec_try_read`, which does not look at the session.
unfoldable pub try_read_response : Memory → Option Output
try_read_response m = if load m status_at == 2 then none else some (read_output m)

-- `host_exec_poll`.
unfoldable pub poll_response : Memory → Bool
poll_response m = load m status_at == 1
