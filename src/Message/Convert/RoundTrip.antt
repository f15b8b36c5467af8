-- ===== src/Message/Convert/RoundTrip.antt =====
-- What a message is after its way from a worker to the scheduler.
use wasmer_js.Prelude.{ℕ, ◌≡◌, refl, ap, ◌∙◌, Option, none, some, Bool, true, false, arith}
use wasmer_js.Message.{
  ForkPipeBuffers, SchedulerMessage, spawn_async, spawn_blocking, worker_busy, worker_idle,
  host_exec_start, host_exec_read, host_exec_read_complete, host_exec_write, host_exec_close_stdin,
  host_exec_try_read, host_exec_poll, host_exec_signal, host_exec_child_output, close,
}
use wasmer_js.Message.Object.{
  undefined, string, big, object, plain, Object, set, serializer, ◌>>=◌, as_object,
}
use wasmer_js.Message.Ty
use wasmer_js.Message.Key
use wasmer_js.Message.Convert.Pipes.{without_debug, set_fork_pipes_plain, get_fork_pipes-set}
use wasmer_js.Message.Convert.{
  Texts, set_memory, set_fork_pipes, into_js, get_memory, parse_hash, read_fields, try_from_js,
}

abbrev pub is_some : Option ℕ → Bool
is_some none = false
is_some (some n) = true

-- What can be sent: the internal message cannot, `close` is not understood, a hash must be read back
-- as it was printed, and a memory goes along exactly if the spawned module's memory is shared.
abbrev pub IsSendable : Texts → SchedulerMessage → Type 0
IsSendable t close = (false ≡ true)
IsSendable t (host_exec_read_complete worker session msg_type xs) = (false ≡ true)
IsSendable t (SchedulerMessage.cache_module hash wasm) =
    parse_hash t (t.print_hash hash) ≡ some hash
IsSendable t
      (SchedulerMessage.spawn_with_module_and_memory wasm memory spawn_wasm stdio fork_pipes) =
    t.has_shared_memory spawn_wasm ≡ is_some memory
IsSendable t _ = Unit

-- What arrives: all of the message but the streams of a subprocess and the text for debugging.
abbrev pub received : SchedulerMessage → SchedulerMessage
received (SchedulerMessage.spawn_with_module_and_memory wasm memory spawn_wasm stdio fork_pipes) =
    SchedulerMessage.spawn_with_module_and_memory wasm memory spawn_wasm none
      (without_debug fork_pipes)
received msg = msg

-- The object of a spawned module, and its fields read back.
abbrev spawn_start : ℕ → Option ℕ → ℕ → Object
spawn_start wasm memory spawn_wasm =
    set_memory
      (set (set (serializer Ty.spawn_with_module_and_memory) Key.wasm (object wasm)) Key.ptr
        (big spawn_wasm))
      memory

spawn_base_fields :
    (wasm : ℕ) (memory : Option ℕ) (spawn_wasm : ℕ)
    → let o = spawn_start wasm memory spawn_wasm in
      (o (plain 0) ≡ string Ty.spawn_with_module_and_memory)
      × (o Key.ptr ≡ big spawn_wasm)
      × (o Key.wasm ≡ object wasm)
      × (o Key.count ≡ undefined)
unfolding set_memory set serializer
spawn_base_fields wasm none spawn_wasm = (refl, refl, refl, refl)
spawn_base_fields wasm (some m) spawn_wasm = (refl, refl, refl, refl)

get_memory-set :
    (wasm : ℕ) (memory : Option ℕ) (spawn_wasm : ℕ) (fork_pipes : Option ForkPipeBuffers)
    → get_memory (set_fork_pipes (spawn_start wasm memory spawn_wasm) fork_pipes) (is_some memory)
      ≡ memory
unfolding get_memory set_memory set serializer
get_memory-set wasm none spawn_wasm fork_pipes = refl
get_memory-set wasm (some m) spawn_wasm fork_pipes =
    ap as_object (set_fork_pipes_plain (spawn_start wasm (some m) spawn_wasm) fork_pipes 1 refl)

-- A message that is neither `Close` nor the internal one, whose hash, if it has one, is parsed as
-- it was printed, and which, if it spawns a module, has a memory exactly if the module shares one:
-- it is read back from the object that it was written to, less the streams of a subprocess and the
-- text for debugging.
pub try_from_js-into_js :
    (t : Texts) (msg : SchedulerMessage)
    → IsSendable t msg
    → (into_js t msg >>= try_from_js t) ≡ some (received msg)
unfolding into_js try_from_js read_fields set serializer
try_from_js-into_js t close h = absurd (ground (arith, h))
try_from_js-into_js t (spawn_async task) h = refl
try_from_js-into_js t (spawn_blocking task) h = refl
try_from_js-into_js t (worker_idle id) h = refl
try_from_js-into_js t (worker_busy id) h = refl
try_from_js-into_js t (SchedulerMessage.cache_module hash wasm) h =
    ap (λ o. o >>= λ hash. some (SchedulerMessage.cache_module hash wasm)) h
try_from_js-into_js t (SchedulerMessage.spawn_with_module wasm task) h = refl
try_from_js-into_js t
      (SchedulerMessage.spawn_with_module_and_memory wasm memory spawn_wasm stdio fork_pipes) h =
    let o = spawn_start wasm memory spawn_wasm in
    let f = spawn_base_fields wasm memory spawn_wasm in
    let kept = set_fork_pipes_plain o fork_pipes in
    rw (
      kept 0 refl ∙ f.0,
      kept 4 refl ∙ f.1,
      kept 3 refl ∙ f.2,
      get_fork_pipes-set o fork_pipes f.3,
      h,
      get_memory-set wasm memory spawn_wasm fork_pipes,
    )
try_from_js-into_js t (host_exec_start worker request json) h = refl
try_from_js-into_js t (host_exec_read worker request session) h = refl
try_from_js-into_js t (host_exec_read_complete worker session msg_type xs) h =
    absurd (ground (arith, h))
try_from_js-into_js t (host_exec_write worker request session xs) h = refl
try_from_js-into_js t (host_exec_close_stdin worker request session) h = refl
try_from_js-into_js t (host_exec_try_read worker request session) h = refl
try_from_js-into_js t (host_exec_poll worker request session) h = refl
try_from_js-into_js t (host_exec_signal worker request session signal) h = refl
try_from_js-into_js t (host_exec_child_output worker request session child msg_type xs) h = refl
