-- ===== src/Worker/Overlap.antt =====
-- Messages that a worker handles at the same time. `handle` of src/tasks/thread_pool_worker.rs is
-- asynchronous, and src-js/worker.js calls it for each message as it comes: where one call awaits
-- something, others begin and go on.
pub mod Marks
pub mod Alone
use wasmer_js.Prelude.{ℕ, zero, suc, List, [], ◌∷◌, ◌++◌, Option, none, some}
use wasmer_js.Message.{
  PostMessagePayload, async, blocking, cache_module, host_exec_start_response,
  host_exec_read_response, thunk, spawn_with_module, spawn_with_module_and_memory,
}
use wasmer_js.Message.Object.{Object}
use wasmer_js.Message.Convert.{Texts}
use wasmer_js.Message.Payload.{try_from_js}
use wasmer_js.Message.Worker.{mark_busy, mark_idle}
use wasmer_js.Worker.{
  ran_async, ran_blocking, ran_with_module, began, executed, emitted, World, act, busy, reconnect,
}

-- What a call of `handle` awaits: the end of a closure, the trigger of a `SpawnWasm`, which comes with
-- its module and its memory, and the end of its execution, meanwhile with the guard of `busy`.
pub data Task : Type 0 where
  running_async : ℕ → Task
  beginning : ℕ → ℕ → Option ℕ → Task
  executing : ℕ → Task

pub record State : Type 0 where
  pub world : World
  pub tasks : List Task

abbrev pub await_task : World → List Task → Task → State
await_task w tasks task = record { world = w; tasks = tasks ++ (task ∷ []) }

-- `handle` up to where it awaits something or ends.
unfoldable pub begin_payload : State → Option PostMessagePayload → State
begin_payload s none = s
begin_payload s (some (async task)) =
    await_task (act s.world (ran_async task ∷ [])) s.tasks (running_async task)
begin_payload s (some (blocking (thunk task))) = record s {
  world = act s.world (busy (ran_blocking task ∷ []));
}
begin_payload s (some (blocking (spawn_with_module wasm task))) = record s {
  world = act s.world (busy (ran_with_module wasm task ∷ []));
}
begin_payload s
      (some (blocking (spawn_with_module_and_memory wasm memory spawn_wasm stdio fork_pipes))) =
    await_task (reconnect s.world spawn_wasm fork_pipes) s.tasks (beginning spawn_wasm wasm memory)
begin_payload s (some (cache_module hash wasm)) = s
begin_payload s (some (host_exec_start_response request result)) = s
begin_payload s (some (host_exec_read_response request result)) = s

-- The rest of `handle`, up to the next `await` or the end; where the execution ends, also with an
-- error, the guard is dropped. The other calls are behind it.
unfoldable pub resume : World → List Task → Task → State
resume w others (running_async task) = record { world = w; tasks = others }
resume w others (beginning spawn_wasm wasm memory) = record {
  world = act w (began spawn_wasm ∷ emitted mark_busy ∷ executed spawn_wasm wasm memory ∷ []);
  tasks = executing spawn_wasm ∷ others;
}
resume w others (executing spawn_wasm) = record {
  world = act w (emitted mark_idle ∷ []);
  tasks = others;
}

abbrev pub behind : Task → Option (Task × List Task) → Option (Task × List Task)
behind task none = none
behind task (some (found, others)) = some (found, task ∷ others)

-- The `n`-th call that awaits something, and the others.
unfoldable pub take_task : ℕ → List Task → Option (Task × List Task)
take_task n [] = none
take_task zero (task ∷ rest) = some (task, rest)
take_task (suc n) (task ∷ rest) = behind task (take_task n rest)

pub data Event : Type 0 where
  arrived : Object → Event
  resumed : ℕ → Event

abbrev pub resume_taken : State → Option (Task × List Task) → State
resume_taken s none = s
resume_taken s (some (task, others)) = resume s.world others task

unfoldable pub step : Texts → State → Event → State
step t s (arrived o) = begin_payload s (try_from_js t o)
step t s (resumed n) = resume_taken s (take_task n s.tasks)

unfoldable pub run : Texts → State → List Event → State
run t s [] = s
run t s (event ∷ events) = run t (step t s event) events
