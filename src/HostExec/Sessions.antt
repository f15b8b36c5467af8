-- ===== src/HostExec/Sessions.antt =====
-- The host_exec sessions of the scheduler (src/tasks/scheduler.rs): what `execute` does for the
-- messages of a worker about a session, and what the callbacks of `create_host_exec_context` and the
-- end of the handler's promise do. The scheduler runs on one thread, so each of them is one step.
-- A reply to a worker and a call of a JS function are effects; the module Response says what a reply
-- does to the worker's buffer.
pub mod Input
pub mod Delivery
use wasmer_js.Prelude.{
  ℕ, ◌+◌, ◌*◌, ◌/◌, ◌%◌, List, [], ◌∷◌, ◌++◌, Option, none, some, Bool, true, false, ◌||◌, ◌&&◌,
  ◌==◌, leb, if◌then◌else◌, length, HashMap, insert, remove, empty,
}
use wasmer_js.Memory.{word_mod}
use wasmer_js.HostExec.Response.{msg_type_stdout, msg_type_stderr, msg_type_exit}

abbrev pub msg_type_spawn_request : ℕ
msg_type_spawn_request = 10

abbrev pub msg_type_spawn_stdin : ℕ
msg_type_spawn_stdin = 11

abbrev pub msg_type_spawn_close_stdin : ℕ
msg_type_spawn_close_stdin = 12

abbrev pub msg_type_spawn_kill : ℕ
msg_type_spawn_kill = 13

abbrev pub msg_type_child_stdout : ℕ
msg_type_child_stdout = 20

abbrev pub msg_type_child_stderr : ℕ
msg_type_child_stderr = 21

abbrev pub msg_type_child_exit : ℕ
msg_type_child_exit = 22

-- A message's type and its bytes.
abbrev pub Chunk : Type 0
Chunk = ℕ × List ℕ

-- `SchedulerMessage::HostExecReadComplete`.
pub record ReadComplete : Type 0 where
  pub worker_id : ℕ
  pub session_id : ℕ
  pub msg_type : ℕ
  pub bytes : List ℕ

-- The maps of the scheduler's thread, and the `HostExecReadComplete` messages that stand in its
-- channel. A JS function is a number, an exit code the bit pattern of its `i32`.
pub record Sessions : Type 0 where
  pub results : HashMap ℕ
  pub pending_reads : HashMap (ℕ × ℕ)
  pub output_queues : HashMap (List Chunk)
  pub stdin_writers : HashMap (ℕ × ℕ)
  pub signal_handlers : HashMap ℕ
  pub child_output_handlers : HashMap (ℕ × ℕ × ℕ)
  pub mailbox : List ReadComplete

pub data Effect : Type 0 where
  read_reply : ℕ → ℕ → ℕ → ℕ → Option (List ℕ) → Effect
  no_data_reply : ℕ → ℕ → Effect
  poll_reply : ℕ → ℕ → Bool → Effect
  call_bytes : ℕ → List ℕ → Effect
  call_number : ℕ → ℕ → Effect
  call_none : ℕ → Effect

abbrev pub Reaction : Type 0
Reaction = Sessions × List Effect

-- `to_le_bytes` of a 32-bit and of a 64-bit word.
abbrev pub to_le_bytes : ℕ → List ℕ
to_le_bytes n = n % 256 ∷ n / 256 % 256 ∷ n / 65536 % 256 ∷ n / 16777216 % 256 ∷ []

abbrev pub to_le_bytes64 : ℕ → List ℕ
to_le_bytes64 n = to_le_bytes (n % word_mod) ++ to_le_bytes (n / word_mod % word_mod)

-- `data.len() >= 4` and `i32::from_le_bytes` of the first four bytes.
abbrev pub from_le_bytes : List ℕ → Option ℕ
from_le_bytes (a ∷ b ∷ c ∷ d ∷ rest) = some (a + 256 * b + 65536 * c + 16777216 * d)
from_le_bytes _ = none

-- A chunk as the response that carries it.
abbrev pub chunk_reply : ℕ → ℕ → Chunk → Effect
chunk_reply worker session (msg_type, bytes) =
    read_reply worker session msg_type (length bytes % word_mod) (some bytes)

abbrev pub pop_front : List Chunk → Option (Chunk × List Chunk)
pop_front [] = none
pop_front (c ∷ q) = some (c, q)

-- `OUTPUT_QUEUES.get_mut(&session_id).and_then(|q| q.pop_front())`.
abbrev pub pop_queue : Option (List Chunk) → Option (Chunk × List Chunk)
pop_queue none = none
pop_queue (some q) = pop_front q

-- `OUTPUT_QUEUES.entry(session_id).or_default().push_back(chunk)`.
abbrev pub push_queue : Option (List Chunk) → Chunk → List Chunk
push_queue none c = c ∷ []
push_queue (some q) c = q ++ (c ∷ [])

-- What the two reads have in common: queued data first, the exit code once there is none, and
-- otherwise what the caller does.
unfoldable pub answer_read :
    Sessions → ℕ → ℕ → Option (Chunk × List Chunk) → Option ℕ → Reaction → Reaction
answer_read s worker session (some (c, q)) result otherwise = (
  record s { output_queues = insert s.output_queues session q },
  chunk_reply worker session c ∷ [],
)
answer_read s worker session none (some code) otherwise = (
  record s { results = remove s.results session; output_queues = remove s.output_queues session },
  read_reply worker session msg_type_exit code none ∷ [],
)
answer_read s worker session none none otherwise = otherwise

-- `HostExecRead`.
unfoldable pub host_exec_read : Sessions → ℕ → ℕ → Reaction
host_exec_read s worker session =
    answer_read s worker session (pop_queue (s.output_queues session)) (s.results session)
      (record s { pending_reads = insert s.pending_reads session (worker, session) }, [])

-- `HostExecTryRead`.
unfoldable pub host_exec_try_read : Sessions → ℕ → ℕ → Reaction
host_exec_try_read s worker session =
    answer_read s worker session (pop_queue (s.output_queues session)) (s.results session)
      (s, no_data_reply worker session ∷ [])

abbrev pub has_data : Option (List Chunk) → Bool
has_data none = false
has_data (some []) = false
has_data (some (c ∷ q)) = true

abbrev pub has_result : Option ℕ → Bool
has_result none = false
has_result (some code) = true

-- `HostExecPoll`.
unfoldable pub host_exec_poll : Sessions → ℕ → ℕ → Reaction
host_exec_poll s worker session = (
  s,
  poll_reply worker session (has_data (s.output_queues session) || has_result (s.results session))
      ∷ [],
)

-- `HostExecReadComplete`.
abbrev pub exit_reply : ReadComplete → Option ℕ → Effect
exit_reply m none = chunk_reply m.worker_id m.session_id (m.msg_type, m.bytes)
exit_reply m (some code) =
    if m.msg_type == msg_type_exit
    then read_reply m.worker_id m.session_id msg_type_exit code none
    else chunk_reply m.worker_id m.session_id (m.msg_type, m.bytes)

abbrev pub read_complete : ReadComplete → Effect
read_complete m = exit_reply m (from_le_bytes m.bytes)

-- The scheduler takes the next `HostExecReadComplete` out of its channel.
unfoldable pub receive : Sessions → List ReadComplete → Reaction
receive s [] = (s, [])
receive s (m ∷ rest) = (record s { mailbox = rest }, read_complete m ∷ [])

-- A message to the scheduler, which is alive, for the read that was waiting.
abbrev pub wake : Sessions → ℕ → ℕ × ℕ → Chunk → Sessions
wake s session (worker, read_session) (msg_type, bytes) = record s {
  pending_reads = remove s.pending_reads session;
  mailbox =
      s.mailbox
      ++ (record {
        worker_id = worker;
        session_id = read_session;
        msg_type = msg_type;
        bytes = bytes;
      }
          ∷ []);
}

-- `onStdout` and `onStderr`: a waiting read gets the data, otherwise it is queued.
unfoldable pub send_or_queue : Sessions → ℕ → Option (ℕ × ℕ) → Chunk → Sessions
send_or_queue s session (some reader) c = wake s session reader c
send_or_queue s session none c = record s {
  output_queues = insert s.output_queues session (push_queue (s.output_queues session) c);
}

unfoldable pub on_stdout : Sessions → ℕ → List ℕ → Sessions
on_stdout s session bytes =
    send_or_queue s session (s.pending_reads session) (msg_type_stdout, bytes)

unfoldable pub on_stderr : Sessions → ℕ → List ℕ → Sessions
on_stderr s session bytes =
    send_or_queue s session (s.pending_reads session) (msg_type_stderr, bytes)

-- What the four `spawn*` callbacks end with: the chunk is queued, and a waiting read gets the front
-- of the queue.
unfoldable pub wake_with : Sessions → ℕ → Option (ℕ × ℕ) → Option (Chunk × List Chunk) → Sessions
wake_with s session none front = s
wake_with s session (some reader) none = record s { pending_reads = remove s.pending_reads session }
wake_with s session (some reader) (some (c, q)) =
    wake (record s { output_queues = insert s.output_queues session q }) session reader c

unfoldable pub queue_and_wake : Sessions → ℕ → Chunk → Sessions
queue_and_wake s session c =
    let q = push_queue (s.output_queues session) c in
    wake_with (record s { output_queues = insert s.output_queues session q }) session
      (s.pending_reads session) (pop_front q)

-- `requestSpawn`, with the request in JSON and the child's callbacks, if all three are functions.
unfoldable pub request_spawn : Sessions → ℕ → ℕ → List ℕ → Option (ℕ × ℕ × ℕ) → Sessions
request_spawn s session child_id json_bytes none =
    queue_and_wake s session (msg_type_spawn_request, json_bytes)
request_spawn s session child_id json_bytes (some callbacks) =
    queue_and_wake
      (record s { child_output_handlers = insert s.child_output_handlers child_id callbacks })
      session (msg_type_spawn_request, json_bytes)

unfoldable pub spawn_write_stdin : Sessions → ℕ → ℕ → List ℕ → Sessions
spawn_write_stdin s session child_id bytes =
    queue_and_wake s session (msg_type_spawn_stdin, to_le_bytes64 child_id ++ bytes)

unfoldable pub spawn_close_stdin : Sessions → ℕ → ℕ → Sessions
spawn_close_stdin s session child_id =
    queue_and_wake s session (msg_type_spawn_close_stdin, to_le_bytes64 child_id)

unfoldable pub spawn_kill : Sessions → ℕ → ℕ → ℕ → Sessions
spawn_kill s session child_id signal =
    queue_and_wake s session (msg_type_spawn_kill, to_le_bytes64 child_id ++ to_le_bytes signal)

-- The handler's promise is resolved with an exit code; `settle` of it is rejected with code 1.
unfoldable pub settled : Sessions → ℕ → Option (ℕ × ℕ) → ℕ → Sessions
settled s session none code = s
settled s session (some reader) code = wake s session reader (msg_type_exit, to_le_bytes code)

unfoldable pub resolve : Sessions → ℕ → ℕ → Sessions
resolve s session code =
    settled (record s { results = insert s.results session code }) session (s.pending_reads session)
      code

unfoldable pub reject : Sessions → ℕ → Sessions
reject s session = resolve s session 1
