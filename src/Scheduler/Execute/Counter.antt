-- ===== src/Scheduler/Execute/Counter.antt =====
-- The counter of the ids over all the messages that the scheduler executes.
use wasmer_js.Prelude.{
  ℕ, ◌+◌, ◌≤◌, ◌<◌, ◌≡◌, refl, List, [], ◌∷◌, Option, none, some, Bool, true, false, if◌then◌else◌,
  arith, length,
}
use wasmer_js.Memory.{Memory, word_mod}
use wasmer_js.Message.{PostMessagePayload, SchedulerMessage, would_block}
use wasmer_js.Message
use wasmer_js.HostExec.Start.{Host}
use wasmer_js.HostExec.Response.{write_read_response, write_no_data, write_poll_response}
use wasmer_js.HostExec.Sessions.{
  Effect, Reaction, read_reply, no_data_reply, poll_reply, call_bytes, call_number, call_none,
}
use wasmer_js.Scheduler.{
  WorkerHandle, SchedulerState, worker_busy, worker_idle, close, start_worker,
  next_available_worker, send_to, post_message,
}
use wasmer_js.Scheduler.Ids.{IsUnique}
use wasmer_js.Scheduler.Ids.Cached.{next_id-cache}
use wasmer_js.Scheduler.Ids.Post.{next_id-file_worker}
use wasmer_js.Scheduler.Execute.{
  State, update, respond, apply, react, either_queue, post_to, send_to_worker, execute,
}
use wasmer_js.Scheduler.Execute.Identity.{execute-IsUnique}
use wasmer_js.Scheduler.Execute.Receive.{execute_all}

next_id-respond :
    (s : SchedulerState) (id : ℕ) (f : Memory → Memory) → (respond s id f).1.next_id ≡ s.next_id
unfolding respond
next_id-respond s id f = go (update s.idle id f) (update s.busy id f)
  where
    go :
        (a b : Bool × List WorkerHandle)
        → let r : Bool × SchedulerState =
            if a.0 then (true, record s { idle = a.1 }) else (b.0, record s { busy = b.1 }) in
          r.1.next_id ≡ s.next_id
    go (true, a) b = refl
    go (false, a) b = refl

next_id-apply : (s : State) (e : Effect) → (apply s e).1.workers.next_id ≡ s.workers.next_id
unfolding apply
next_id-apply s (read_reply worker session msg_type word bytes) =
    next_id-respond s.workers worker (λ m. write_read_response m session msg_type word bytes)
next_id-apply s (no_data_reply worker session) =
    next_id-respond s.workers worker (λ m. write_no_data m session)
next_id-apply s (poll_reply worker session is_ready) =
    next_id-respond s.workers worker (λ m. write_poll_response m session is_ready)
next_id-apply s (call_bytes f bytes) = refl
next_id-apply s (call_number f n) = refl
next_id-apply s (call_none f) = refl

next_id-react : (s : State) (r : Reaction) → (react s r).1.workers.next_id ≡ s.workers.next_id
unfolding react
next_id-react s (sessions, []) = refl
next_id-react s (sessions, e ∷ es) = next_id-apply (record s { sessions = sessions }) e

module _ (posts : ℕ → PostMessagePayload → Bool) (starts : ℕ → Bool) where
  next_id-next_available_worker :
      (s : SchedulerState) (ws : List WorkerHandle)
      → (next_available_worker posts starts s ws).1.next_id ≤ s.next_id + 1
  unfolding next_available_worker start_worker
  next_id-next_available_worker s [] = omega arith
  next_id-next_available_worker s (w ∷ ws) = omega arith

  next_id-post_message :
      (s : SchedulerState) (msg : PostMessagePayload)
      → (post_message posts starts s msg).1.next_id ≤ s.next_id + 1
  unfolding post_message
  next_id-post_message s msg =
      let r = next_available_worker posts starts s s.idle in
      omega (
        arith,
        next_id-file_worker posts starts r.1 (would_block msg) (send_to posts starts r.0 msg),
        next_id-next_available_worker s s.idle,
      )

module _ (posts : ℕ → PostMessagePayload → Bool) (starts : ℕ → Bool) (host : Host) where
  next_id-send_to_worker :
      (s : SchedulerState) (id : ℕ) (msg : PostMessagePayload)
      → (send_to_worker posts starts host s id msg).1.next_id ≡ s.next_id
  unfolding send_to_worker
  next_id-send_to_worker s id msg =
      go (post_to posts starts host s.idle id msg) (post_to posts starts host s.busy id msg)
    where
      go : (a b : Option (Bool × List WorkerHandle)) → (either_queue s a b).1.next_id ≡ s.next_id
      go (some (fine, ws)) b = refl
      go none (some (fine, ws)) = refl
      go none none = refl

  next_id-execute :
      (s : State) (msg : SchedulerMessage)
      → (execute posts starts host s msg).1.workers.next_id ≤ s.workers.next_id + 1
  unfolding execute
  next_id-execute s Message.close = unfold close in omega arith
  next_id-execute s (Message.spawn_async task) = next_id-post_message posts starts s.workers _
  next_id-execute s (Message.spawn_blocking task) = next_id-post_message posts starts s.workers _
  next_id-execute s (Message.SchedulerMessage.cache_module hash wasm) =
      omega (arith, next_id-cache posts starts s.workers hash wasm)
  next_id-execute s (Message.SchedulerMessage.spawn_with_module wasm task) =
      next_id-post_message posts starts s.workers _
  next_id-execute s
        (Message.SchedulerMessage.spawn_with_module_and_memory wasm memory spawn_wasm stdio
          fork_pipes) =
      next_id-post_message posts starts s.workers _
  next_id-execute s (Message.worker_busy id) = unfold worker_busy in omega arith
  next_id-execute s (Message.worker_idle id) = unfold worker_idle in omega arith
  next_id-execute s (Message.host_exec_start worker request json) =
      omega (arith, next_id-send_to_worker s.workers worker _)
  next_id-execute s (Message.host_exec_read worker request session) =
      omega (arith, next_id-react s _)
  next_id-execute s (Message.host_exec_read_complete worker session msg_type bytes) =
      omega (arith, next_id-apply s _)
  next_id-execute s (Message.host_exec_write worker request session bytes) =
      omega (arith, next_id-react s _)
  next_id-execute s (Message.host_exec_close_stdin worker request session) =
      omega (arith, next_id-react s _)
  next_id-execute s (Message.host_exec_try_read worker request session) =
      omega (arith, next_id-react s _)
  next_id-execute s (Message.host_exec_poll worker request session) =
      omega (arith, next_id-react s _)
  next_id-execute s (Message.host_exec_signal worker request session signal) =
      omega (arith, next_id-react s _)
  next_id-execute s
        (Message.host_exec_child_output worker request session child_id msg_type bytes) =
      omega (arith, next_id-react s _)

  -- Over any messages, no more than there are ids left: no two workers have the same id after them
  -- and the ids given out are below the counter, if this was so before.
  pub execute_all-IsUnique :
      (s : State) (msgs : List SchedulerMessage)
      → IsUnique s.workers
      → s.workers.next_id + length msgs < word_mod
      → IsUnique (execute_all posts starts host s msgs).workers
  unfolding execute_all
  execute_all-IsUnique s [] h small = h
  execute_all-IsUnique s (msg ∷ rest) h small =
      execute_all-IsUnique (execute posts starts host s msg).1 rest
        (execute-IsUnique posts starts host s msg h (omega (arith, small)))
        (omega (arith, small, next_id-execute s msg))
