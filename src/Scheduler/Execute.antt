-- ===== src/Scheduler/Execute.antt =====
-- `SchedulerState::execute` (src/tasks/scheduler.rs): the message that the scheduler takes out of its
-- channel, and the replies that it writes to the buffer of a worker.
pub mod Reply
pub mod Identity
pub mod Receive
pub mod Counter
use wasmer_js.Prelude.{
  ℕ, List, [], ◌∷◌, ◌++◌, Option, none, some, Bool, true, false, ◌==◌, if◌then◌else◌,
}
use wasmer_js.Memory.{Memory}
use wasmer_js.Message.{
  PostMessagePayload, async, blocking, thunk, host_exec_start_response, SchedulerMessage,
  StartResult,
}
use wasmer_js.HostExec.Response.{write_read_response, write_no_data, write_poll_response}
use wasmer_js.HostExec.Sessions.{
  Sessions, Effect, read_reply, no_data_reply, poll_reply, call_bytes, call_number, call_none,
  Reaction, read_complete,
}
use wasmer_js.HostExec.Start.{Host, host_exec_start}
use wasmer_js.HostExec.Sessions
use wasmer_js.HostExec.Sessions.Input
use wasmer_js.Message
use wasmer_js.Scheduler.{
  WorkerHandle, SchedulerState, worker_busy, worker_idle, close, send, post_message, cache,
}

-- The scheduler's state, the sessions' maps, and the calls of JS functions so far.
pub record State : Type 0 where
  pub workers : SchedulerState
  pub sessions : Sessions
  pub calls : List Effect

abbrev pub behind : WorkerHandle → Bool × List WorkerHandle → Bool × List WorkerHandle
behind w (found, ws) = (found, w ∷ ws)

-- The first worker with the id, among the idle and then the busy ones, with what is done to its
-- buffer; `false` where no worker has the id.
unfoldable pub update : List WorkerHandle → ℕ → (Memory → Memory) → Bool × List WorkerHandle
update [] id f = (false, [])
update (w ∷ ws) id f =
    let others = update ws id f in
    if w.id == id
    then (true, record w { host_exec_buffer = f w.host_exec_buffer } ∷ ws)
    else behind w others

unfoldable pub respond : SchedulerState → ℕ → (Memory → Memory) → Bool × SchedulerState
respond s id f =
    let (idle_found, idle) = update s.idle id f in
    let (busy_found, busy) = update s.busy id f in
    if idle_found then (true, record s { idle = idle }) else (busy_found, record s { busy = busy })

-- `send_host_exec_read_response`, `send_host_exec_try_read_no_data`, `send_host_exec_poll_response`.
unfoldable pub apply : State → Effect → Bool × State
apply s (read_reply worker session msg_type word bytes) =
    let (fine, w) =
      respond s.workers worker (λ m. write_read_response m session msg_type word bytes) in
    (fine, record s { workers = w })
apply s (no_data_reply worker session) =
    let (fine, w) = respond s.workers worker (λ m. write_no_data m session) in
    (fine, record s { workers = w })
apply s (poll_reply worker session is_ready) =
    let (fine, w) = respond s.workers worker (λ m. write_poll_response m session is_ready) in
    (fine, record s { workers = w })
apply s call = (true, record s { calls = s.calls ++ (call ∷ []) })

-- Each message has one effect at most.
unfoldable pub react : State → Reaction → Bool × State
react s (sessions, []) = (true, record s { sessions = sessions })
react s (sessions, e ∷ es) = apply (record s { sessions = sessions }) e

-- `send_to_worker`: the first worker with the id gets the message.
abbrev pub delivered :
    WorkerHandle → List WorkerHandle → Option WorkerHandle → Option (Bool × List WorkerHandle)
delivered w ws none = some (false, w ∷ ws)
delivered w ws (some v) = some (true, v ∷ ws)

abbrev pub behind_found :
    WorkerHandle → Option (Bool × List WorkerHandle) → Option (Bool × List WorkerHandle)
behind_found w none = none
behind_found w (some (fine, ws)) = some (fine, w ∷ ws)

abbrev pub either_queue :
    SchedulerState
    → Option (Bool × List WorkerHandle)
    → Option (Bool × List WorkerHandle)
    → Bool × SchedulerState
either_queue s (some (fine, idle)) other = (fine, record s { idle = idle })
either_queue s none (some (fine, busy)) = (fine, record s { busy = busy })
either_queue s none none = (false, s)

module _ (posts : ℕ → PostMessagePayload → Bool) (starts : ℕ → Bool) (host : Host) where
  unfoldable pub post_to :
      List WorkerHandle → ℕ → PostMessagePayload → Option (Bool × List WorkerHandle)
  post_to [] id msg = none
  post_to (w ∷ ws) id msg =
      let others = post_to ws id msg in
      if w.id == id then delivered w ws (send posts starts w msg) else behind_found w others

  unfoldable pub send_to_worker : SchedulerState → ℕ → PostMessagePayload → Bool × SchedulerState
  send_to_worker s id msg = either_queue s (post_to s.idle id msg) (post_to s.busy id msg)

  abbrev pub on_workers : State → Bool × SchedulerState → Bool × State
  on_workers s (fine, w) = (fine, record s { workers = w })

  unfoldable pub execute : State → SchedulerMessage → Bool × State
  execute s Message.close = (true, record s { workers = close s.workers })
  execute s (Message.spawn_async task) =
      on_workers s (post_message posts starts s.workers (async task))
  execute s (Message.spawn_blocking task) =
      on_workers s (post_message posts starts s.workers (blocking (thunk task)))
  execute s (Message.SchedulerMessage.cache_module hash wasm) =
      on_workers s (cache posts starts s.workers hash wasm)
  execute s (Message.SchedulerMessage.spawn_with_module wasm task) = on_workers s (
      post_message posts starts s.workers
        (blocking (Message.BlockingJob.spawn_with_module wasm task)))
  execute s
        (Message.SchedulerMessage.spawn_with_module_and_memory wasm memory spawn_wasm stdio
          fork_pipes) =
      on_workers s (
        post_message posts starts s.workers (
          blocking (
            Message.BlockingJob.spawn_with_module_and_memory wasm memory spawn_wasm stdio
              fork_pipes)))
  execute s (Message.worker_busy id) = (true, record s { workers = worker_busy s.workers id })
  execute s (Message.worker_idle id) = (true, record s { workers = worker_idle s.workers id })
  execute s (Message.host_exec_start worker request json) =
      let (result, sessions) = host_exec_start host s.sessions request json in
      on_workers (record s { sessions = sessions })
        (send_to_worker s.workers worker (host_exec_start_response request result))
  execute s (Message.host_exec_read worker request session) =
      react s (Sessions.host_exec_read s.sessions worker session)
  execute s (Message.host_exec_read_complete worker session msg_type bytes) = apply s (
      read_complete
        (record { worker_id = worker; session_id = session; msg_type = msg_type; bytes = bytes }))
  execute s (Message.host_exec_write worker request session bytes) =
      react s (Input.host_exec_write s.sessions session bytes)
  execute s (Message.host_exec_close_stdin worker request session) =
      react s (Input.host_exec_close_stdin s.sessions session)
  execute s (Message.host_exec_try_read worker request session) =
      react s (Sessions.host_exec_try_read s.sessions worker session)
  execute s (Message.host_exec_poll worker request session) =
      react s (Sessions.host_exec_poll s.sessions worker session)
  execute s (Message.host_exec_signal worker request session signal) =
      react s (Input.host_exec_signal s.sessions session signal)
  execute s (Message.host_exec_child_output worker request session child_id msg_type bytes) =
      react s (Input.host_exec_child_output s.sessions child_id msg_type bytes)
