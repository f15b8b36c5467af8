-- ===== src/Worker/Forked.antt =====
-- The way of a forked process's pipes: extracted, sent to a worker, and reconnected there.
use wasmer_js.Prelude.{
  ℕ, ◌<◌, ◌≡◌, refl, ap, fun_ext, List, ◌∷◌, [], Option, none, some, Bool, arith,
}
use wasmer_js.Message.{
  SubprocessStdioBuffers, ForkPipeBuffers, blocking, spawn_with_module_and_memory,
}
use wasmer_js.Message.Convert.{Texts}
use wasmer_js.Message.Convert.Pipes.{without_debug}
use wasmer_js.Message.Payload.{into_js}
use wasmer_js.Message.Payload.RoundTrip.{try_from_js-into_js_payload}
use wasmer_js.Channel.{put}
use wasmer_js.Fork.{WasiEnv, Buffer, extract_pipe_buffers, fork_pipes, reconnect_fork_pipes}
use wasmer_js.Fork.Unchanged.{All, IsMap, IsLive, reconnect-fork_pipes}
use wasmer_js.Worker.{World, act, busy, began, executed, reconnect, handle}

without_debug-fork_pipes :
    (into_vec : List Buffer → List Buffer) (env : WasiEnv) (all_fds_debug : ℕ)
    → without_debug (fork_pipes into_vec env all_fds_debug) ≡ fork_pipes into_vec env 0
unfolding fork_pipes
without_debug-fork_pipes into_vec env all_fds_debug = go (extract_pipe_buffers env)
  where
    sent : ℕ → List Buffer → Option ForkPipeBuffers
    sent text bs = elim bs [
      | [] ↦ none
      | buffer ∷ rest ↦ some (record { buffers = into_vec (buffer ∷ rest); all_fds_debug = text })
    ]

    go : (bs : List Buffer) → without_debug (sent all_fds_debug bs) ≡ sent 0 bs
    go [] = refl
    go (b ∷ bs) = refl

put_same : (envs : ℕ → WasiEnv) (spawn : ℕ) → put envs spawn (envs spawn) ≡ envs
put_same envs spawn = fun_ext λ i. ground arith

reconnect-same :
    (w : World) (spawn : ℕ) (pipes : Option ForkPipeBuffers)
    → reconnect_fork_pipes (w.envs spawn) w.memory pipes ≡ (w.envs spawn, w.memory)
    → reconnect w spawn pipes ≡ w
unfolding reconnect
reconnect-same w spawn pipes h = rw (h, put_same w.envs spawn)

-- A process with pipes is forked: its descriptors are a map, the memory consists of bytes, its pipes
-- are as the code makes them and have their writers counted. The worker that handles what was sent
-- for it, whatever order its pipes came in, changes none of its descriptors and no byte of the
-- memory, marks itself busy after the trigger, runs it with its module and memory, and marks itself
-- idle, whether or not this fails.
pub handle-forked :
    (into_vec : List Buffer → List Buffer)
    → ((P : Buffer → Type 0) (bs : List Buffer) → All P bs → All P (into_vec bs))
    → (t : Texts) (executes : ℕ → Bool) (w : World) (wasm : ℕ) (memory : Option ℕ) (spawn : ℕ)
      (stdio : Option SubprocessStdioBuffers) (all_fds_debug : ℕ)
    → IsMap (w.envs spawn)
    → ((c : ℕ) → w.memory c < 256)
    → ((inode : ℕ) → IsLive w.memory ((w.envs spawn).kinds inode))
    → let pipes = fork_pipes into_vec (w.envs spawn) all_fds_debug in
      handle t executes w
        (into_js t (blocking (spawn_with_module_and_memory wasm memory spawn stdio pipes)))
      ≡ (executes spawn, act w (began spawn ∷ busy (executed spawn wasm memory ∷ [])))
unfolding handle
handle-forked into_vec same t executes w wasm memory spawn stdio all_fds_debug is_map bytes live =
    rw
      (
        try_from_js-into_js_payload t
            (blocking (
              spawn_with_module_and_memory wasm memory spawn stdio
                (fork_pipes into_vec (w.envs spawn) all_fds_debug)))
            tt,
        without_debug-fork_pipes into_vec (w.envs spawn) all_fds_debug,
      )
      (ap (λ w'. (executes spawn, act w' (began spawn ∷ busy (executed spawn wasm memory ∷ []))))
        (reconnect-same w spawn (fork_pipes into_vec (w.envs spawn) 0)
          (reconnect-fork_pipes into_vec same (w.envs spawn) w.memory 0 is_map bytes live)))
