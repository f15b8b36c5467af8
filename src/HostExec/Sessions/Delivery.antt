-- ===== src/HostExec/Sessions/Delivery.antt =====
-- The order of the output: what a session's command emits reaches the worker that reads the session
-- in the order in which it was emitted.
pub mod Queued
pub mod Waiting
pub mod Order
pub mod Exit
use wasmer_js.Prelude.{
  ℕ, ◌≡◌, ◌≢◌, List, [], ◌∷◌, ◌++◌, Option, none, some, Bool, true, false, ◌==◌, if◌then◌else◌,
}
use wasmer_js.HostExec.Response.{msg_type_stdout, msg_type_stderr}
use wasmer_js.HostExec.Sessions.{
  msg_type_spawn_request, msg_type_spawn_stdin, msg_type_spawn_close_stdin, msg_type_spawn_kill,
  Chunk, ReadComplete, Sessions, Effect, read_reply, no_data_reply, poll_reply, call_bytes,
  call_number, call_none, Reaction, to_le_bytes, to_le_bytes64, host_exec_read, host_exec_try_read,
  host_exec_poll, read_complete, receive, on_stdout, on_stderr, request_spawn, spawn_write_stdin,
  spawn_close_stdin, spawn_kill, resolve, reject,
}

-- What happens to the sessions: the callbacks of a command and its end, the requests of the workers,
-- and the scheduler's receipt of the next `HostExecReadComplete`.
pub data Event : Type 0 where
  emit_stdout emit_stderr : ℕ → List ℕ → Event
  ask_spawn : ℕ → ℕ → List ℕ → Option (ℕ × ℕ × ℕ) → Event
  ask_stdin : ℕ → ℕ → List ℕ → Event
  ask_close_stdin : ℕ → ℕ → Event
  ask_kill : ℕ → ℕ → ℕ → Event
  finish : ℕ → ℕ → Event
  fail : ℕ → Event
  read try_read poll : ℕ → ℕ → Event
  deliver : Event

unfoldable pub step : Sessions → Event → Reaction
step s (emit_stdout session bytes) = (on_stdout s session bytes, [])
step s (emit_stderr session bytes) = (on_stderr s session bytes, [])
step s (ask_spawn session child_id json_bytes callbacks) =
    (request_spawn s session child_id json_bytes callbacks, [])
step s (ask_stdin session child_id bytes) = (spawn_write_stdin s session child_id bytes, [])
step s (ask_close_stdin session child_id) = (spawn_close_stdin s session child_id, [])
step s (ask_kill session child_id signal) = (spawn_kill s session child_id signal, [])
step s (finish session code) = (resolve s session code, [])
step s (fail session) = (reject s session, [])
step s (read worker session) = host_exec_read s worker session
step s (try_read worker session) = host_exec_try_read s worker session
step s (poll worker session) = host_exec_poll s worker session
step s deliver = receive s s.mailbox

abbrev pub only : Bool → Chunk → List Chunk
only true c = c ∷ []
only false c = []

-- The chunks of a session that an event emits, and those that an effect hands to a worker.
abbrev pub emitted : Event → ℕ → List Chunk
emitted (emit_stdout j bytes) id = only (id == j) (msg_type_stdout, bytes)
emitted (emit_stderr j bytes) id = only (id == j) (msg_type_stderr, bytes)
emitted (ask_spawn j child json_bytes callbacks) id =
    only (id == j) (msg_type_spawn_request, json_bytes)
emitted (ask_stdin j child bytes) id =
    only (id == j) (msg_type_spawn_stdin, to_le_bytes64 child ++ bytes)
emitted (ask_close_stdin j child) id =
    only (id == j) (msg_type_spawn_close_stdin, to_le_bytes64 child)
emitted (ask_kill j child signal) id =
    only (id == j) (msg_type_spawn_kill, to_le_bytes64 child ++ to_le_bytes signal)
emitted _ id = []

abbrev pub handed : Effect → ℕ → List Chunk
handed (read_reply worker j msg_type word (some bytes)) id = only (id == j) (msg_type, bytes)
handed _ id = []

abbrev pub all_handed : List Effect → ℕ → List Chunk
all_handed [] id = []
all_handed (e ∷ es) id = handed e id ++ all_handed es id

-- The chunks of a session on their way to a worker, and those that wait in its queue.
abbrev pub in_flight : List ReadComplete → ℕ → List Chunk
in_flight [] id = []
in_flight (m ∷ rest) id = handed (read_complete m) id ++ in_flight rest id

abbrev pub queued : Option (List Chunk) → List Chunk
queued none = []
queued (some q) = q

abbrev pub undelivered : Sessions → ℕ → List Chunk
undelivered s id = in_flight s.mailbox id ++ queued (s.output_queues id)

-- A pending read is for its own session, and there is nothing that it could have been answered with.
abbrev pub IsWaiting : Sessions → ℕ → Option (ℕ × ℕ) → Type 0
IsWaiting s j none = Unit
IsWaiting s j (some (worker, k)) =
    (k ≡ j) × (queued (s.output_queues j) ≡ []) × (s.results j ≡ none)

abbrev pub IsSound : Sessions → Type 0
IsSound s =
    (j worker k : ℕ)
    → s.pending_reads j ≡ some (worker, k)
    → (k ≡ j) × (queued (s.output_queues j) ≡ []) × (s.results j ≡ none)

-- A worker asks for a session's output only once the last answer has come.
abbrev pub IsOrderly : Sessions → Event → Type 0
IsOrderly s (read worker j) = in_flight s.mailbox j ≡ []
IsOrderly s (try_read worker j) = in_flight s.mailbox j ≡ []
IsOrderly s _ = Unit
