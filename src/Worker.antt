-- ===== src/Worker.antt =====
-- What a worker does with the messages of the scheduler: `ThreadPoolWorker` of
-- src/tasks/thread_pool_worker.rs. Here a message is handled from its start to its end; Overlap has
-- messages whose handling overlaps. The trigger of a `SpawnWasm` changes no pipe.
pub mod Forked
pub mod Overlap
use wasmer_js.Prelude.{ℕ, List, [], ◌∷◌, ◌++◌, Option, none, some, Bool, true, false}
use wasmer_js.Memory.{Memory}
use wasmer_js.Message.{
  PostMessagePayload, async, blocking, cache_module, host_exec_start_response,
  host_exec_read_response, BlockingJob, thunk, spawn_with_module, spawn_with_module_and_memory,
  ForkPipeBuffers,
}
use wasmer_js.Message.Object.{Object}
use wasmer_js.Message.Convert.{Texts}
use wasmer_js.Message.Payload.{try_from_js}
use wasmer_js.Message.Worker.{WorkerMessage, mark_busy, mark_idle}
use wasmer_js.Channel.{put}
use wasmer_js.Fork.{WasiEnv, reconnect_fork_pipes}

-- What the worker does, in order: a closure is called, with the module it is given, a `SpawnWasm`
-- awaits its trigger and is executed with a module and a memory, a mark is emitted.
pub data Action : Type 0 where
  ran_async ran_blocking : ℕ → Action
  ran_with_module : ℕ → ℕ → Action
  began : ℕ → Action
  executed : ℕ → ℕ → Option ℕ → Action
  emitted : WorkerMessage → Action

-- The environments that the `SpawnWasm`s have, the memory that the pipes are in, and the actions.
pub record World : Type 0 where
  pub envs : ℕ → WasiEnv
  pub memory : Memory
  pub actions : List Action

abbrev pub act : World → List Action → World
act w done = record w { actions = w.actions ++ done }

-- `busy`, whose guard marks the worker idle when it is dropped, also where the job fails. An error of
-- `emit` is ignored.
abbrev pub busy : List Action → List Action
busy job = emitted mark_busy ∷ (job ++ (emitted mark_idle ∷ []))

-- The pipes of a fork are reconnected in the environment of the `SpawnWasm`.
unfoldable pub reconnect : World → ℕ → Option ForkPipeBuffers → World
reconnect w spawn_wasm fork_pipes =
    let (env, memory) = reconnect_fork_pipes (w.envs spawn_wasm) w.memory fork_pipes in
    record w { envs = put w.envs spawn_wasm env; memory = memory }

module _ (t : Texts) (executes : ℕ → Bool) where
  -- `execute_blocking`, with whether it succeeds: whether `ReadySpawnWasm::execute` does is a
  -- parameter.
  unfoldable pub execute_blocking : World → BlockingJob → Bool × World
  execute_blocking w (thunk task) = (true, act w (busy (ran_blocking task ∷ [])))
  execute_blocking w (spawn_with_module wasm task) =
      (true, act w (busy (ran_with_module wasm task ∷ [])))
  execute_blocking w (spawn_with_module_and_memory wasm memory spawn_wasm stdio fork_pipes) = (
    executes spawn_wasm,
    act (reconnect w spawn_wasm fork_pipes)
        (began spawn_wasm ∷ busy (executed spawn_wasm wasm memory ∷ [])),
  )

  -- `execute_async` and the other arms of `handle`.
  unfoldable pub execute_payload : World → Option PostMessagePayload → Bool × World
  unfolding execute_blocking
  execute_payload w none = (false, w)
  execute_payload w (some (async task)) = (true, act w (ran_async task ∷ []))
  execute_payload w (some (blocking job)) = execute_blocking w job
  execute_payload w (some (cache_module hash wasm)) = (true, w)
  execute_payload w (some (host_exec_start_response request result)) = (true, w)
  execute_payload w (some (host_exec_read_response request result)) = (true, w)

  unfoldable pub handle : World → Object → Bool × World
  unfolding execute_payload
  handle w o = execute_payload w (try_from_js t o)
