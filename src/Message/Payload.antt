-- ===== src/Message/Payload.antt =====
-- `PostMessagePayload::into_js` and `try_from_js` of src/tasks/post_message_payload.rs: what the
-- scheduler sends to a worker.
pub mod RoundTrip
use wasmer_js.Prelude.{ℕ, Option, none, some, ◌==◌, if◌then◌else◌}
use wasmer_js.Message.{
  SubprocessStdioBuffers, ForkPipeBuffers, PostMessagePayload, async, blocking, thunk,
  spawn_with_module, spawn_with_module_and_memory, cache_module, host_exec_start_response,
  host_exec_read_response, StartResult, started, not_started, ReadReply, data_read, read_error,
}
use wasmer_js.Message.Ty
use wasmer_js.Message.Key
use wasmer_js.Message.Object.{
  JsValue, undefined, string, number, big, object, bytes, Object, type_field, set, serializer,
  ◌>>=◌, as_string, as_number, as_box, as_object, as_bytes,
}
use wasmer_js.Message.Convert.{Texts, set_fork_pipes, get_fork_pipes, parse_hash}

-- `Option<Memory>` as a value.
abbrev pub memory_value : Option ℕ → JsValue
memory_value none = undefined
memory_value (some memory) = object memory

-- The offsets and sizes of a subprocess's streams, if it has them.
unfoldable pub set_stdio : Object → Option SubprocessStdioBuffers → Object
set_stdio o none = o
set_stdio o (some stdio) =
    set
      (set
        (set
          (set
            (set (set o Key.stdin_offset (number stdio.stdin_offset)) Key.stdin_size
              (number stdio.stdin_size))
            Key.stdout_offset (number stdio.stdout_offset))
          Key.stdout_size (number stdio.stdout_size))
        Key.stderr_offset (number stdio.stderr_offset))
      Key.stderr_size (number stdio.stderr_size)

abbrev set_start : Object → StartResult → Object
set_start o (started session) = set o Key.session_id (big session)
set_start o (not_started error) = set o Key.error (string error)

abbrev set_reply : Object → ReadReply → Object
set_reply o (data_read msg_type xs) =
    set (set o Key.msg_type (number msg_type)) Key.payload (bytes xs)
set_reply o (read_error error) = set o Key.error (string error)

-- The fields that the spawn of a module begins with.
abbrev spawn_base : ℕ → Option ℕ → ℕ → Object
spawn_base wasm memory spawn_wasm =
    set
      (set (set (serializer Ty.spawn_with_module_and_memory) Key.ptr (big spawn_wasm)) Key.wasm
        (object wasm))
      Key.memory (memory_value memory)

unfoldable pub into_js : Texts → PostMessagePayload → Object
into_js t (async task) = set (serializer Ty.spawn_async) Key.ptr (big task)
into_js t (blocking (thunk task)) = set (serializer Ty.spawn_blocking) Key.ptr (big task)
into_js t (blocking (spawn_with_module wasm task)) =
    set (set (serializer Ty.spawn_with_module) Key.ptr (big task)) Key.wasm (object wasm)
into_js t (blocking (spawn_with_module_and_memory wasm memory spawn_wasm stdio fork_pipes)) =
    set_fork_pipes (set_stdio (spawn_base wasm memory spawn_wasm) stdio) fork_pipes
into_js t (cache_module hash wasm) =
    set (set (serializer Ty.cache_module) Key.module_hash (string (t.print_hash hash))) Key.wasm
      (object wasm)
into_js t (host_exec_start_response request result) =
    set_start (set (serializer Ty.host_exec_start_response) Key.request_id (big request)) result
into_js t (host_exec_read_response request result) =
    set_reply (set (serializer Ty.host_exec_read_response) Key.request_id (big request)) result

-- All six numbers, or no streams.
unfoldable pub get_stdio : Object → Option SubprocessStdioBuffers
get_stdio o = do
  stdin_offset ← as_number (o Key.stdin_offset)
  stdin_size ← as_number (o Key.stdin_size)
  stdout_offset ← as_number (o Key.stdout_offset)
  stdout_size ← as_number (o Key.stdout_size)
  stderr_offset ← as_number (o Key.stderr_offset)
  stderr_size ← as_number (o Key.stderr_size)
  some (record {
    stdin_offset = stdin_offset;
    stdin_size = stdin_size;
    stdout_offset = stdout_offset;
    stdout_size = stdout_size;
    stderr_offset = stderr_offset;
    stderr_size = stderr_size;
  })

-- `if let Ok(session_id) = ..`, else the error's text.
abbrev read_start : Object → Option ℕ → Option StartResult
read_start o (some session) = some (started session)
read_start o none = do error ← as_string (o Key.error); some (not_started error)

abbrev read_reply : Object → Option ℕ → Option ReadReply
read_reply o (some msg_type) = do xs ← as_bytes (o Key.payload); some (data_read msg_type xs)
read_reply o none = do error ← as_string (o Key.error); some (read_error error)

-- The match on the message's type.
unfoldable pub read_fields : Texts → Object → ℕ → Option PostMessagePayload
read_fields t o ty =
    if ty == Ty.spawn_async
    then (do task ← as_box (o Key.ptr); some (async task))
    else if ty == Ty.spawn_blocking
    then (do task ← as_box (o Key.ptr); some (blocking (thunk task)))
    else if ty == Ty.cache_module
    then (do
      wasm ← as_object (o Key.wasm)
      text ← as_string (o Key.module_hash)
      hash ← parse_hash t text
      some (cache_module hash wasm))
    else if ty == Ty.spawn_with_module
    then (do
      task ← as_box (o Key.ptr)
      wasm ← as_object (o Key.wasm)
      some (blocking (spawn_with_module wasm task)))
    else if ty == Ty.spawn_with_module_and_memory
    then (do
      wasm ← as_object (o Key.wasm)
      spawn_wasm ← as_box (o Key.ptr)
      fork_pipes ← get_fork_pipes o (as_number (o Key.count))
      some (
          blocking (
            spawn_with_module_and_memory wasm (as_object (o Key.memory)) spawn_wasm (get_stdio o)
              fork_pipes)))
    else if ty == Ty.host_exec_start_response
    then (do
      request ← as_number (o Key.request_id)
      result ← read_start o (as_number (o Key.session_id))
      some (host_exec_start_response request result))
    else if ty == Ty.host_exec_read_response
    then (do
      request ← as_number (o Key.request_id)
      result ← read_reply o (as_number (o Key.msg_type))
      some (host_exec_read_response request result))
    else none

unfoldable pub try_from_js : Texts → Object → Option PostMessagePayload
try_from_js t o = do ty ← as_string (o type_field); read_fields t o ty
