-- ===== src/Scheduler.antt =====
-- The scheduler's workers (src/tasks/scheduler.rs, `SchedulerState`; src/tasks/worker_handle.rs,
-- `WorkerHandle`). What JavaScript may refuse, `postMessage` to a worker and the start of one, are
-- parameters.
pub mod Ids
pub mod Execute
pub mod Modules
pub mod Blocking
use wasmer_js.Prelude.{
  ℕ, ◌+◌, ◌%◌, List, [], ◌∷◌, ◌++◌, Option, none, some, Bool, true, false, ◌==◌, ltb, if◌then◌else◌,
}
use wasmer_js.Memory.{Memory, word_mod}
use wasmer_js.Message.{
  PostMessagePayload, async, blocking, cache_module, host_exec_start_response, would_block, thunk,
  spawn_with_module, spawn_with_module_and_memory, BlockingJob, StartResult,
}

-- `WorkerHandle`, with what was posted to the worker so far and its response buffer.
pub record WorkerHandle : Type 0 where
  pub id : ℕ
  pub inbox : List PostMessagePayload
  pub host_exec_buffer : Memory

-- `SchedulerState` and the static counter `NEXT_ID` of `start_worker`. A module is a number, and the
-- `BTreeMap` a list of pairs in the order of the hashes.
pub record SchedulerState : Type 0 where
  pub idle : List WorkerHandle
  pub busy : List WorkerHandle
  pub cached_modules : List (ℕ × ℕ)
  pub next_id : ℕ

abbrev pub new : ℕ → SchedulerState
new next_id = record { idle = []; busy = []; cached_modules = []; next_id = next_id }

-- `BTreeMap::insert`.
unfoldable pub insert_module : List (ℕ × ℕ) → ℕ → ℕ → List (ℕ × ℕ)
insert_module [] hash wasm = (hash, wasm) ∷ []
insert_module ((h, m) ∷ rest) hash wasm =
    let later = insert_module rest hash wasm in
    if hash == h
    then (hash, wasm) ∷ rest
    else if ltb hash h
    then (hash, wasm) ∷ (h, m) ∷ rest
    else (h, m) ∷ later

abbrev pub keep :
    WorkerHandle
    → Option (WorkerHandle × List WorkerHandle)
    → Option (WorkerHandle × List WorkerHandle)
keep w none = none
keep w (some (v, vs)) = some (v, w ∷ vs)

-- `move_worker`: the first worker with the id and the queue without it, and the two queues after.
unfoldable pub remove_worker : ℕ → List WorkerHandle → Option (WorkerHandle × List WorkerHandle)
remove_worker id [] = none
remove_worker id (w ∷ rest) =
    let later = remove_worker id rest in if w.id == id then some (w, rest) else keep w later

unfoldable pub move_to :
    Option (WorkerHandle × List WorkerHandle)
    → List WorkerHandle
    → List WorkerHandle
    → List WorkerHandle × List WorkerHandle
move_to none from to = (from, to)
move_to (some (w, rest)) from to = (rest, to ++ (w ∷ []))

abbrev pub move_worker :
    ℕ → List WorkerHandle → List WorkerHandle → List WorkerHandle × List WorkerHandle
move_worker id from to = move_to (remove_worker id from) from to

-- `SchedulerMessage::WorkerBusy` and `WorkerIdle`.
unfoldable pub worker_busy : SchedulerState → ℕ → SchedulerState
worker_busy s id =
    let (idle, busy) = move_worker id s.idle s.busy in record s { idle = idle; busy = busy }

unfoldable pub worker_idle : SchedulerState → ℕ → SchedulerState
worker_idle s id =
    let (busy, idle) = move_worker id s.busy s.idle in record s { idle = idle; busy = busy }

-- `SchedulerMessage::Close`.
unfoldable pub close : SchedulerState → SchedulerState
close s = record s { idle = [] }

abbrev pub and_then :
    Option WorkerHandle → (WorkerHandle → Option WorkerHandle) → Option WorkerHandle
and_then none f = none
and_then (some w) f = f w

-- What the loop of `CacheModule` makes of a worker and of those behind it.
abbrev pub sent :
    WorkerHandle
    → List WorkerHandle
    → Option WorkerHandle
    → Bool × List WorkerHandle
    → Bool × List WorkerHandle
sent w ws none others = (false, w ∷ ws)
sent w ws (some v) (fine, vs) = (fine, v ∷ vs)

-- `posts` tells whether `postMessage` accepts a message for a worker, `starts` whether a worker with
-- an id can be started.
module _ (posts : ℕ → PostMessagePayload → Bool) (starts : ℕ → Bool) where
  -- `WorkerHandle::send`.
  unfoldable pub send : WorkerHandle → PostMessagePayload → Option WorkerHandle
  send w msg = if posts w.id msg then some (record w { inbox = w.inbox ++ (msg ∷ []) }) else none

  -- The loop over the cached modules in `start_worker`, whose first failure ends it.
  unfoldable pub prime : WorkerHandle → List (ℕ × ℕ) → Option WorkerHandle
  prime w [] = some w
  prime w ((hash, wasm) ∷ rest) = and_then (send w (cache_module hash wasm)) (λ v. prime v rest)

  unfoldable pub start_worker : SchedulerState → Option WorkerHandle × SchedulerState
  start_worker s = (
    if starts s.next_id
        then prime (record { id = s.next_id; inbox = []; host_exec_buffer = λ a. 0 })
            s.cached_modules
        else none,
    record s { next_id = (s.next_id + 1) % word_mod },
  )

  unfoldable pub next_available_worker :
      SchedulerState → List WorkerHandle → Option WorkerHandle × SchedulerState
  next_available_worker s [] = start_worker s
  next_available_worker s (w ∷ rest) = (some w, record s { idle = rest })

  -- The end of `post_message`, once the message was sent or not: the handle of a worker that did not
  -- take it is dropped.
  unfoldable pub file_worker : SchedulerState → Bool → Option WorkerHandle → Bool × SchedulerState
  file_worker s blocks none = (false, s)
  file_worker s true (some w) = (true, record s { busy = s.busy ++ (w ∷ []) })
  file_worker s false (some w) = (true, record s { idle = s.idle ++ (w ∷ []) })

  abbrev pub send_to : Option WorkerHandle → PostMessagePayload → Option WorkerHandle
  send_to none msg = none
  send_to (some w) msg = send w msg

  -- `post_message`, with whether it succeeded.
  unfoldable pub post_message : SchedulerState → PostMessagePayload → Bool × SchedulerState
  post_message s msg =
      let (worker, s') = next_available_worker s s.idle in
      file_worker s' (would_block msg) (send_to worker msg)

  -- A loop that sends a message to each worker, and stops at the first that does not take it.
  unfoldable pub send_all : List WorkerHandle → PostMessagePayload → Bool × List WorkerHandle
  send_all [] msg = (true, [])
  send_all (w ∷ ws) msg = sent w ws (send w msg) (send_all ws msg)

  -- `SchedulerMessage::CacheModule`.
  unfoldable pub cache : SchedulerState → ℕ → ℕ → Bool × SchedulerState
  cache s hash wasm =
      let s' = record s { cached_modules = insert_module s.cached_modules hash wasm } in
      let (fine, idle) = send_all s.idle (cache_module hash wasm) in
      let (also, busy) = send_all s.busy (cache_module hash wasm) in
      if fine
      then (also, record s' { idle = idle; busy = busy })
      else (false, record s' { idle = idle })
