-- ===== src/Worker/Overlap/Alone.antt =====
-- A message whose handling nothing comes between.
use wasmer_js.Prelude.{ℕ, ◌≡◌, refl, ap, List, [], ◌∷◌, Option, none, some, Bool, append_assoc}
use wasmer_js.Message.{
  PostMessagePayload, async, blocking, cache_module, host_exec_start_response,
  host_exec_read_response, thunk, spawn_with_module, spawn_with_module_and_memory,
}
use wasmer_js.Message.Object.{Object}
use wasmer_js.Message.Convert.{Texts}
use wasmer_js.Message.Payload.{try_from_js}
use wasmer_js.Message.Worker.{mark_busy, mark_idle}
use wasmer_js.Worker.{
  Action, World, began, executed, emitted, reconnect, execute_blocking, execute_payload, handle,
}
use wasmer_js.Worker.Overlap.{State, begin_payload, resume, take_task, arrived, resumed, step, run}

-- Its steps are `handle`.
run-handle :
    (t : Texts) (executes : ℕ → Bool) (w : World) (o : Object)
    → run t (record { world = w; tasks = [] }) (arrived o ∷ resumed 0 ∷ resumed 0 ∷ [])
      ≡ record { world = (handle t executes w o).1; tasks = [] }
unfolding run step handle begin_payload resume take_task execute_payload execute_blocking reconnect
run-handle t executes w o = go (try_from_js t o)
  where
    go :
        (msg : Option PostMessagePayload)
        → step t
            (step t (begin_payload (record { world = w; tasks = [] }) msg) (resumed 0))
            (resumed 0)
          ≡ record { world = (execute_payload t executes w msg).1; tasks = [] }
    go none = refl
    go (some (async task)) = refl
    go (some (blocking (thunk task))) = refl
    go (some (blocking (spawn_with_module wasm task))) = refl
    go (some (blocking (spawn_with_module_and_memory wasm memory spawn stdio fork_pipes))) =
        let ready = reconnect w spawn fork_pipes in
        let begun : List Action =
          began spawn ∷ emitted mark_busy ∷ executed spawn wasm memory ∷ [] in
        ap
          (λ (q : List Action).
            (let s : State = record { world = record ready { actions = q }; tasks = [] } in s))
          (append_assoc ready.actions begun (emitted mark_idle ∷ []))
    go (some (cache_module hash wasm)) = refl
    go (some (host_exec_start_response request result)) = refl
    go (some (host_exec_read_response request result)) = refl
