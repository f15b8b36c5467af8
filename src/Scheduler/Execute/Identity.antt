-- ===== src/Scheduler/Execute/Identity.antt =====
-- What `execute` does to the identities of the workers.
use wasmer_js.Prelude.{
  ℕ, ◌+◌, ◌≤◌, ◌<◌, ◌≡◌, refl, List, [], ◌∷◌, Option, none, some, Bool, true, false, ◌==◌,
  if◌then◌else◌, arith,
}
use wasmer_js.Memory.{Memory, word_mod}
use wasmer_js.Message.{PostMessagePayload, SchedulerMessage, StartResult}
use wasmer_js.Message
use wasmer_js.HostExec.Start.{Host}
use wasmer_js.HostExec.Response.{write_read_response, write_no_data, write_poll_response}
use wasmer_js.HostExec.Sessions.{
  Effect, Reaction, read_reply, no_data_reply, poll_reply, call_bytes, call_number, call_none,
}
use wasmer_js.Scheduler.{WorkerHandle, SchedulerState, worker_busy, worker_idle, close, send, cache}
use wasmer_js.Scheduler.Ids.{count, IsUnique, held, count-worker_busy, count-worker_idle}
use wasmer_js.Scheduler.Ids.Post.{held-send, post_message-IsUnique}
use wasmer_js.Scheduler.Ids.Cached.{next_id-cache, count-cache}
use wasmer_js.Scheduler.Execute.{
  State, behind, update, respond, apply, react, delivered, behind_found, either_queue, post_to,
  send_to_worker, execute,
}

count-update :
    (ws : List WorkerHandle) (id : ℕ) (f : Memory → Memory) (i : ℕ)
    → count i (update ws id f).1 ≡ count i ws
unfolding update
count-update [] id f i = refl
count-update (w ∷ ws) id f i = go (w.id == id) (update ws id f) (count-update ws id f i)
  where
    go :
        (b : Bool) (r : Bool × List WorkerHandle)
        → count i r.1 ≡ count i ws
        → let t : Bool × List WorkerHandle =
            if b
            then (true, record w { host_exec_buffer = f w.host_exec_buffer } ∷ ws)
            else behind w r in
          count i t.1 ≡ count i (w ∷ ws)
    go true r h = refl
    go false (x, vs) h = omega (arith, h)

abbrev count_found : ℕ → Option (Bool × List WorkerHandle) → List WorkerHandle → ℕ
count_found i none ws = count i ws
count_found i (some (fine, vs)) ws = count i vs

respond-IsUnique :
    (s : SchedulerState) (id : ℕ) (f : Memory → Memory) → IsUnique s → IsUnique (respond s id f).1
unfolding respond
respond-IsUnique s id f (one, none_yet) =
    go (update s.idle id f) (update s.busy id f) (count-update s.idle id f)
      (count-update s.busy id f)
  where
    go :
        (a b : Bool × List WorkerHandle)
        → ((i : ℕ) → count i a.1 ≡ count i s.idle)
        → ((i : ℕ) → count i b.1 ≡ count i s.busy)
        → let r : Bool × SchedulerState =
            if a.0 then (true, record s { idle = a.1 }) else (b.0, record s { busy = b.1 }) in
          IsUnique r.1
    go (true, a) b h k = (λ i. omega (arith, h i, one i), λ i l. omega (arith, h i, none_yet i l))
    go (false, a) b h k = (λ i. omega (arith, k i, one i), λ i l. omega (arith, k i, none_yet i l))

apply-IsUnique : (s : State) (e : Effect) → IsUnique s.workers → IsUnique (apply s e).1.workers
unfolding apply
apply-IsUnique s (read_reply worker session msg_type word bytes) h =
    respond-IsUnique s.workers worker (λ m. write_read_response m session msg_type word bytes) h
apply-IsUnique s (no_data_reply worker session) h =
    respond-IsUnique s.workers worker (λ m. write_no_data m session) h
apply-IsUnique s (poll_reply worker session is_ready) h =
    respond-IsUnique s.workers worker (λ m. write_poll_response m session is_ready) h
apply-IsUnique s (call_bytes f bytes) h = h
apply-IsUnique s (call_number f n) h = h
apply-IsUnique s (call_none f) h = h

react-IsUnique : (s : State) (r : Reaction) → IsUnique s.workers → IsUnique (react s r).1.workers
unfolding react
react-IsUnique s (sessions, []) h = h
react-IsUnique s (sessions, e ∷ es) h = apply-IsUnique (record s { sessions = sessions }) e h

module _ (posts : ℕ → PostMessagePayload → Bool) (starts : ℕ → Bool) (host : Host) where
  count-delivered :
      (w : WorkerHandle) (ws : List WorkerHandle) (o : Option WorkerHandle) (i : ℕ)
      → held i o ≤ held i (some w)
      → count_found i (delivered w ws o) ws ≤ count i (w ∷ ws)
  count-delivered w ws none i h = omega arith
  count-delivered w ws (some v) i h = omega (arith, h)

  count-post_to :
      (ws : List WorkerHandle) (id : ℕ) (msg : PostMessagePayload) (i : ℕ)
      → count_found i (post_to posts starts host ws id msg) ws ≤ count i ws
  unfolding post_to
  count-post_to [] id msg i = omega arith
  count-post_to (w ∷ ws) id msg i =
      go (w.id == id) (post_to posts starts host ws id msg) (count-post_to ws id msg i)
        (send posts starts w msg) (held-send posts starts w msg i)
    where
      go :
          (b : Bool) (r : Option (Bool × List WorkerHandle))
          → count_found i r ws ≤ count i ws
          → (o : Option WorkerHandle) → held i o ≤ held i (some w)
          → count_found i (if b then delivered w ws o else behind_found w r) (w ∷ ws)
            ≤ count i (w ∷ ws)
      go true r h none k = omega arith
      go true r h (some v) k = omega (arith, k)
      go false none h o k = omega arith
      go false (some (fine, vs)) h o k = omega (arith, h)

  send_to_worker-IsUnique :
      (s : SchedulerState) (id : ℕ) (msg : PostMessagePayload)
      → IsUnique s
      → IsUnique (send_to_worker posts starts host s id msg).1
  unfolding send_to_worker
  send_to_worker-IsUnique s id msg (one, none_yet) =
      go (post_to posts starts host s.idle id msg) (post_to posts starts host s.busy id msg)
        (count-post_to s.idle id msg) (count-post_to s.busy id msg)
    where
      go :
          (a b : Option (Bool × List WorkerHandle))
          → ((i : ℕ) → count_found i a s.idle ≤ count i s.idle)
          → ((i : ℕ) → count_found i b s.busy ≤ count i s.busy)
          → IsUnique (either_queue s a b).1
      go (some (fine, ws)) b h k =
          (λ i. omega (arith, h i, one i), λ i l. omega (arith, h i, none_yet i l))
      go none (some (fine, ws)) h k =
          (λ i. omega (arith, k i, one i), λ i l. omega (arith, k i, none_yet i l))
      go none none h k = (one, none_yet)

  cache-IsUnique :
      (s : SchedulerState) (hash wasm : ℕ)
      → IsUnique s
      → IsUnique (cache posts starts s hash wasm).1
  cache-IsUnique s hash wasm (one, none_yet) = (
    λ i. omega (arith, count-cache posts starts s hash wasm i, one i),
    λ i l. omega (
      arith,
      count-cache posts starts s hash wasm i,
      none_yet i,
      next_id-cache posts starts s hash wasm,
      l,
    ),
  )

  close-IsUnique : (s : SchedulerState) → IsUnique s → IsUnique (close s)
  unfolding close
  close-IsUnique s (one, none_yet) = (λ i. omega (arith, one i), λ i l. omega (arith, none_yet i l))

  -- Where no two workers have the same id and the counter of the ids does not wrap round, no two
  -- workers have the same id after any message, and the ids given out stay below the counter.
  pub execute-IsUnique :
      (s : State) (msg : SchedulerMessage)
      → IsUnique s.workers
      → s.workers.next_id + 1 < word_mod
      → IsUnique (execute posts starts host s msg).1.workers
  unfolding execute
  execute-IsUnique s Message.close h small = close-IsUnique s.workers h
  execute-IsUnique s (Message.spawn_async task) h small =
      post_message-IsUnique posts starts s.workers _ h small
  execute-IsUnique s (Message.spawn_blocking task) h small =
      post_message-IsUnique posts starts s.workers _ h small
  execute-IsUnique s (Message.SchedulerMessage.cache_module hash wasm) h small =
      cache-IsUnique s.workers hash wasm h
  execute-IsUnique s (Message.SchedulerMessage.spawn_with_module wasm task) h small =
      post_message-IsUnique posts starts s.workers _ h small
  execute-IsUnique s
        (Message.SchedulerMessage.spawn_with_module_and_memory wasm memory spawn_wasm stdio
          fork_pipes)
        h small =
      post_message-IsUnique posts starts s.workers _ h small
  execute-IsUnique s (Message.worker_busy id) h small =
      unfold worker_busy in
      (
        λ i. omega (arith, count-worker_busy s.workers id i, h.0 i),
        λ i l. omega (arith, count-worker_busy s.workers id i, h.1 i l),
      )
  execute-IsUnique s (Message.worker_idle id) h small =
      unfold worker_idle in
      (
        λ i. omega (arith, count-worker_idle s.workers id i, h.0 i),
        λ i l. omega (arith, count-worker_idle s.workers id i, h.1 i l),
      )
  execute-IsUnique s (Message.host_exec_start worker request json) h small =
      send_to_worker-IsUnique s.workers worker _ h
  execute-IsUnique s (Message.host_exec_read worker request session) h small = react-IsUnique s _ h
  execute-IsUnique s (Message.host_exec_read_complete worker session msg_type bytes) h small =
      apply-IsUnique s _ h
  execute-IsUnique s (Message.host_exec_write worker request session bytes) h small =
      react-IsUnique s _ h
  execute-IsUnique s (Message.host_exec_close_stdin worker request session) h small =
      react-IsUnique s _ h
  execute-IsUnique s (Message.host_exec_try_read worker request session) h small =
      react-IsUnique s _ h
  execute-IsUnique s (Message.host_exec_poll worker request session) h small = react-IsUnique s _ h
  execute-IsUnique s (Message.host_exec_signal worker request session signal) h small =
      react-IsUnique s _ h
  execute-IsUnique s (Message.host_exec_child_output worker request session child_id msg_type bytes)
        h small =
      react-IsUnique s _ h
