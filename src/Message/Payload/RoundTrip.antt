-- ===== src/Message/Payload/RoundTrip.antt =====
-- What a payload is after its way from the scheduler to a worker.
use wasmer_js.Prelude.{ℕ, ◌≡◌, refl, ap, ◌∙◌, Option, none, some}
use wasmer_js.Message.{
  SubprocessStdioBuffers, ForkPipeBuffers, PostMessagePayload, async, blocking, thunk,
  spawn_with_module, spawn_with_module_and_memory, cache_module, host_exec_start_response,
  host_exec_read_response, started, not_started, data_read, read_error,
}
use wasmer_js.Message.Object.{
  undefined, number, string, big, object, plain, Object, set, serializer, ◌>>=◌, as_object,
}
use wasmer_js.Message.Ty
use wasmer_js.Message.Key
use wasmer_js.Message.Convert.{Texts, set_fork_pipes, parse_hash}
use wasmer_js.Message.Convert.Pipes.{without_debug, set_fork_pipes_plain, get_fork_pipes-set}
use wasmer_js.Message.Payload.{
  memory_value, set_stdio, spawn_base, into_js, get_stdio, read_fields, try_from_js,
}

-- A hash must be read back as it was printed.
abbrev pub IsReadable : Texts → PostMessagePayload → Type 0
IsReadable t (cache_module hash wasm) = parse_hash t (t.print_hash hash) ≡ some hash
IsReadable t _ = Unit

-- What arrives: all of the payload but the text for debugging.
abbrev pub arrived : PostMessagePayload → PostMessagePayload
arrived (blocking (spawn_with_module_and_memory wasm memory spawn_wasm stdio fork_pipes)) =
    blocking (spawn_with_module_and_memory wasm memory spawn_wasm stdio (without_debug fork_pipes))
arrived msg = msg

-- The six fields of a subprocess's streams.
record HasStdio (o : Object) (stdio : SubprocessStdioBuffers) : Type 0 where
  at_stdin : o Key.stdin_offset ≡ number stdio.stdin_offset
  of_stdin : o Key.stdin_size ≡ number stdio.stdin_size
  at_stdout : o Key.stdout_offset ≡ number stdio.stdout_offset
  of_stdout : o Key.stdout_size ≡ number stdio.stdout_size
  at_stderr : o Key.stderr_offset ≡ number stdio.stderr_offset
  of_stderr : o Key.stderr_size ≡ number stdio.stderr_size

get_stdio-eq :
    (o : Object) (stdio : SubprocessStdioBuffers) → HasStdio o stdio → get_stdio o ≡ some stdio
unfolding get_stdio
get_stdio-eq o stdio h =
    rw (h.at_stdin, h.of_stdin, h.at_stdout, h.of_stdout, h.at_stderr, h.of_stderr)

-- The streams are read back behind the pipes of a fork.
get_stdio-set :
    (wasm : ℕ) (memory : Option ℕ) (spawn_wasm : ℕ) (stdio : Option SubprocessStdioBuffers)
    (fork_pipes : Option ForkPipeBuffers)
    → get_stdio (set_fork_pipes (set_stdio (spawn_base wasm memory spawn_wasm) stdio) fork_pipes)
      ≡ stdio
unfolding set_stdio set serializer
get_stdio-set wasm memory spawn_wasm none fork_pipes =
    unfold get_stdio in
    rw (set_fork_pipes_plain (spawn_base wasm memory spawn_wasm) fork_pipes 15 refl)
get_stdio-set wasm memory spawn_wasm (some stdio) fork_pipes =
    get_stdio-eq (set_fork_pipes o fork_pipes) stdio (record {
      at_stdin = set_fork_pipes_plain o fork_pipes 15 refl;
      of_stdin = set_fork_pipes_plain o fork_pipes 16 refl;
      at_stdout = set_fork_pipes_plain o fork_pipes 17 refl;
      of_stdout = set_fork_pipes_plain o fork_pipes 18 refl;
      at_stderr = set_fork_pipes_plain o fork_pipes 19 refl;
      of_stderr = set_fork_pipes_plain o fork_pipes 20 refl;
    })
  where
    o : Object
    o = set_stdio (spawn_base wasm memory spawn_wasm) (some stdio)

spawn_fields :
    (wasm : ℕ) (memory : Option ℕ) (spawn_wasm : ℕ) (stdio : Option SubprocessStdioBuffers)
    → let o = set_stdio (spawn_base wasm memory spawn_wasm) stdio in
      (o (plain 0) ≡ string Ty.spawn_with_module_and_memory)
      × (o Key.ptr ≡ big spawn_wasm)
      × (o Key.wasm ≡ object wasm)
      × (o Key.memory ≡ memory_value memory)
      × (o Key.count ≡ undefined)
unfolding set_stdio set serializer
spawn_fields wasm memory spawn_wasm none = (refl, refl, refl, refl, refl)
spawn_fields wasm memory spawn_wasm (some stdio) = (refl, refl, refl, refl, refl)

as_object-memory : (memory : Option ℕ) → as_object (memory_value memory) ≡ memory
as_object-memory none = refl
as_object-memory (some memory) = refl

-- A payload whose hash, if it has one, is parsed as it was printed, is read back from the object
-- that it was written to, with the memory, the subprocess's streams and the pipes of a fork that it
-- had, and less the text for debugging.
pub try_from_js-into_js_payload :
    (t : Texts) (msg : PostMessagePayload)
    → IsReadable t msg
    → try_from_js t (into_js t msg) ≡ some (arrived msg)
unfolding into_js try_from_js read_fields set serializer
try_from_js-into_js_payload t (async task) h = refl
try_from_js-into_js_payload t (blocking (thunk task)) h = refl
try_from_js-into_js_payload t (blocking (spawn_with_module wasm task)) h = refl
try_from_js-into_js_payload t
      (blocking (spawn_with_module_and_memory wasm memory spawn_wasm stdio fork_pipes)) h =
    let o = set_stdio (spawn_base wasm memory spawn_wasm) stdio in
    let f = spawn_fields wasm memory spawn_wasm stdio in
    let kept = set_fork_pipes_plain o fork_pipes in
    rw (
      kept 0 refl ∙ f.0,
      kept 3 refl ∙ f.2,
      kept 4 refl ∙ f.1,
      get_fork_pipes-set o fork_pipes f.4,
      kept 1 refl ∙ f.3,
      get_stdio-set wasm memory spawn_wasm stdio fork_pipes,
      as_object-memory memory,
    )
try_from_js-into_js_payload t (cache_module hash wasm) h =
    ap (λ o. o >>= λ hash. some (cache_module hash wasm)) h
try_from_js-into_js_payload t (host_exec_start_response request (started session)) h = refl
try_from_js-into_js_payload t (host_exec_start_response request (not_started error)) h = refl
try_from_js-into_js_payload t (host_exec_read_response request (data_read msg_type xs)) h = refl
try_from_js-into_js_payload t (host_exec_read_response request (read_error error)) h = refl
