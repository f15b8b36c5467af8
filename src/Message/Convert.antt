-- ===== src/Message/Convert.antt =====
-- `SchedulerMessage::into_js` and `try_from_js` of src/tasks/scheduler_message.rs.
pub mod Pipes
pub mod RoundTrip
use wasmer_js.Prelude.{
  ℕ, zero, suc, ◌+◌, List, [], ◌∷◌, Option, none, some, Bool, true, false, ◌==◌, if◌then◌else◌,
  length,
}
use wasmer_js.Message.{
  SubprocessStdioBuffers, ForkPipeBuffers, SchedulerMessage, spawn_async, spawn_blocking,
  worker_busy, worker_idle, host_exec_start, host_exec_read, host_exec_read_complete,
  host_exec_write, host_exec_close_stdin, host_exec_try_read, host_exec_poll, host_exec_signal,
  host_exec_child_output, close,
}
use wasmer_js.Message
use wasmer_js.Message.Ty
use wasmer_js.Message.Key
use wasmer_js.Message.Object.{
  JsValue, undefined, string, number, big, object, boolean, bytes, Field, plain, indexed, Object,
  type_field, set, serializer, ◌>>=◌, as_string, as_number, as_bool, as_box, as_object, as_bytes,
}

-- The texts of a `ModuleHash` and their parsers, and whether a `SpawnWasm` says that its memory is
-- shared: third-party code.
pub record Texts : Type 0 where
  pub print_hash : ℕ → ℕ
  pub sha256_parse_hex : ℕ → Option ℕ
  pub xxhash_parse_hex : ℕ → Option ℕ
  pub has_shared_memory : ℕ → Bool

-- The four fields of a pipe.
unfoldable pub set_pipe : Object → ℕ → ℕ × Bool × ℕ × ℕ → Object
set_pipe o i (fd, is_tx, offset, size) =
    set
      (set (set (set o (Key.fd i) (number fd)) (Key.is_tx i) (boolean is_tx)) (Key.offset i)
        (number offset))
      (Key.size i) (number size)

-- The loop over the pipes of a fork.
unfoldable pub set_pipes : Object → ℕ → List (ℕ × Bool × ℕ × ℕ) → Object
set_pipes o i [] = o
set_pipes o i (pipe ∷ rest) = set_pipes (set_pipe o i pipe) (suc i) rest

unfoldable pub set_memory : Object → Option ℕ → Object
set_memory o none = o
set_memory o (some memory) = set o Key.memory (object memory)

unfoldable pub set_fork_pipes : Object → Option ForkPipeBuffers → Object
set_fork_pipes o none = o
set_fork_pipes o (some pipes) =
    set_pipes (set o Key.count (number (length pipes.buffers))) 0 pipes.buffers

-- The three fields that most messages of a worker about a session begin with.
abbrev pub about_session : ℕ → ℕ → ℕ → ℕ → Object
about_session ty worker request session =
    set (set (set (serializer ty) Key.worker_id (number worker)) Key.request_id (big request))
      Key.session_id (big session)

-- `into_js`; `none` is the panic of `unreachable!`.
unfoldable pub into_js : Texts → SchedulerMessage → Option Object
into_js t close = some (serializer Ty.close)
into_js t (spawn_async task) = some (set (serializer Ty.spawn_async) Key.ptr (big task))
into_js t (spawn_blocking task) = some (set (serializer Ty.spawn_blocking) Key.ptr (big task))
into_js t (worker_idle id) = some (set (serializer Ty.worker_idle) Key.worker_id (number id))
into_js t (worker_busy id) = some (set (serializer Ty.worker_busy) Key.worker_id (number id))
into_js t (SchedulerMessage.cache_module hash wasm) = some (
    set (set (serializer Ty.cache_module) Key.module_hash (string (t.print_hash hash))) Key.wasm
      (object wasm))
into_js t (SchedulerMessage.spawn_with_module wasm task) =
    some (set (set (serializer Ty.spawn_with_module) Key.wasm (object wasm)) Key.ptr (big task))
into_js t (SchedulerMessage.spawn_with_module_and_memory wasm memory spawn_wasm stdio fork_pipes) =
    some (
      set_fork_pipes
        (set_memory
          (set (set (serializer Ty.spawn_with_module_and_memory) Key.wasm (object wasm)) Key.ptr
            (big spawn_wasm))
          memory)
        fork_pipes)
into_js t (host_exec_start worker request json) = some (
    set
      (set (set (serializer Ty.host_exec_start) Key.worker_id (number worker)) Key.request_id
        (big request))
      Key.request_json (bytes json))
into_js t (host_exec_read worker request session) =
    some (about_session Ty.host_exec_read worker request session)
into_js t (host_exec_write worker request session xs) =
    some (set (about_session Ty.host_exec_write worker request session) Key.payload (bytes xs))
into_js t (host_exec_close_stdin worker request session) =
    some (about_session Ty.host_exec_close_stdin worker request session)
into_js t (host_exec_try_read worker request session) =
    some (about_session Ty.host_exec_try_read worker request session)
into_js t (host_exec_poll worker request session) =
    some (about_session Ty.host_exec_poll worker request session)
into_js t (host_exec_signal worker request session signal) =
    some (set (about_session Ty.host_exec_signal worker request session) Key.signal (number signal))
into_js t (host_exec_child_output worker request session child msg_type xs) = some (
    set
      (set
        (set (about_session Ty.host_exec_child_output worker request session) Key.child_id
          (big child))
        Key.msg_type (number msg_type))
      Key.payload (bytes xs))
into_js t (host_exec_read_complete worker session msg_type xs) = none

-- The loop that reads the pipes of a fork back.
unfoldable pub get_pipes : Object → ℕ → ℕ → Option (List (ℕ × Bool × ℕ × ℕ))
get_pipes o i zero = some []
get_pipes o i (suc n) = do
  fd ← as_number (o (Key.fd i))
  is_tx ← as_bool (o (Key.is_tx i))
  offset ← as_number (o (Key.offset i))
  size ← as_number (o (Key.size i))
  rest ← get_pipes o (suc i) n
  some ((fd, is_tx, offset, size) ∷ rest)

abbrev pub with_pipes : Option (List (ℕ × Bool × ℕ × ℕ)) → Option (Option ForkPipeBuffers)
with_pipes none = none
with_pipes (some buffers) = some (some (record { buffers = buffers; all_fds_debug = 0 }))

-- `if let Ok(count) = de.serde(FORK_PIPE_COUNT)`. The empty text is 0.
unfoldable pub get_fork_pipes : Object → Option ℕ → Option (Option ForkPipeBuffers)
get_fork_pipes o none = some none
get_fork_pipes o (some n) = with_pipes (get_pipes o 0 n)

-- `Memory::from_jsvalue(..).ok()`, for a memory that is one.
unfoldable pub get_memory : Object → Bool → Option ℕ
get_memory o false = none
get_memory o true = as_object (o Key.memory)

abbrev pub or_parse : Option ℕ → Option ℕ → Option ℕ
or_parse (some hash) other = some hash
or_parse none other = other

unfoldable pub parse_hash : Texts → ℕ → Option ℕ
parse_hash t text = or_parse (t.sha256_parse_hex text) (t.xxhash_parse_hex text)

-- The three fields that most messages begin with, and what is made of them.
abbrev pub read_session : Object → (ℕ → ℕ → ℕ → Option SchedulerMessage) → Option SchedulerMessage
read_session o f = do
  worker ← as_number (o Key.worker_id)
  request ← as_number (o Key.request_id)
  session ← as_number (o Key.session_id)
  f worker request session

abbrev pub read_spawn : Texts → Object → Option SchedulerMessage
read_spawn t o = do
  spawn_wasm ← as_box (o Key.ptr)
  wasm ← as_object (o Key.wasm)
  fork_pipes ← get_fork_pipes o (as_number (o Key.count))
  some (
      SchedulerMessage.spawn_with_module_and_memory wasm
        (get_memory o (t.has_shared_memory spawn_wasm)) spawn_wasm none fork_pipes)

-- The match on the message's type. There is no arm for `close`.
unfoldable pub read_fields : Texts → Object → ℕ → Option SchedulerMessage
read_fields t o ty =
    if ty == Ty.spawn_async
    then (do task ← as_box (o Key.ptr); some (spawn_async task))
    else if ty == Ty.spawn_blocking
    then (do task ← as_box (o Key.ptr); some (spawn_blocking task))
    else if ty == Ty.worker_idle
    then (do id ← as_number (o Key.worker_id); some (worker_idle id))
    else if ty == Ty.worker_busy
    then (do id ← as_number (o Key.worker_id); some (worker_busy id))
    else if ty == Ty.cache_module
    then (do
      text ← as_string (o Key.module_hash)
      hash ← parse_hash t text
      wasm ← as_object (o Key.wasm)
      some (SchedulerMessage.cache_module hash wasm))
    else if ty == Ty.spawn_with_module
    then (do
      wasm ← as_object (o Key.wasm)
      task ← as_box (o Key.ptr)
      some (SchedulerMessage.spawn_with_module wasm task))
    else if ty == Ty.spawn_with_module_and_memory
    then read_spawn t o
    else if ty == Ty.host_exec_start
    then (do
      worker ← as_number (o Key.worker_id)
      request ← as_number (o Key.request_id)
      json ← as_bytes (o Key.request_json)
      some (host_exec_start worker request json))
    else if ty == Ty.host_exec_read
    then read_session o (λ w r s. some (host_exec_read w r s))
    else if ty == Ty.host_exec_write
    then read_session o (λ w r s. do xs ← as_bytes (o Key.payload); some (host_exec_write w r s xs))
    else if ty == Ty.host_exec_close_stdin
    then read_session o (λ w r s. some (host_exec_close_stdin w r s))
    else if ty == Ty.host_exec_try_read
    then read_session o (λ w r s. some (host_exec_try_read w r s))
    else if ty == Ty.host_exec_poll
    then read_session o (λ w r s. some (host_exec_poll w r s))
    else if ty == Ty.host_exec_signal
    then read_session o
        (λ w r s. do signal ← as_number (o Key.signal); some (host_exec_signal w r s signal))
    else if ty == Ty.host_exec_child_output
    then read_session o (λ w r s. do
      child ← as_number (o Key.child_id)
      msg_type ← as_number (o Key.msg_type)
      xs ← as_bytes (o Key.payload)
      some (host_exec_child_output w r s child msg_type xs))
    else none

unfoldable pub try_from_js : Texts → Object → Option SchedulerMessage
try_from_js t o = do ty ← as_string (o type_field); read_fields t o ty
