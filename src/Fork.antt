-- ===== src/Fork.antt =====
-- The pipes that a forked process keeps: `extract_pipe_buffers` and `reconnect_pipe_buffers` of
-- src/pipes/extract.rs, and what src/tasks/task_wasm.rs makes of them. The locks of the descriptors
-- are not poisoned, and the pool is initialised.
pub mod Unchanged
pub mod Copy
use wasmer_js.Prelude.{ℕ, List, [], ◌∷◌, Option, none, some, Bool, true, false, ◌==◌, if◌then◌else◌}
use wasmer_js.Memory.{Memory}
use wasmer_js.Message.{ForkPipeBuffers}
use wasmer_js.Pipe.{SharedPipeTx, SharedPipeRx}
use wasmer_js.Pipe.Ends.{tx_from_pool_offset, rx_from_pool_offset, drop_tx}

-- What an inode is, as far as pipes go: an end of a virtual pipe, which is `none` where it is no
-- `SharedPipeTx` or `SharedPipeRx`, or something else.
pub data Kind : Type 0 where
  virtual_pipe_tx : Option SharedPipeTx → Kind
  virtual_pipe_rx : Option SharedPipeRx → Kind
  other : Kind

-- The descriptors of a `WasiEnv` with their inodes, which descriptors share, and what the inodes are.
pub record WasiEnv : Type 0 where
  pub fd_map : List (ℕ × ℕ)
  pub kinds : ℕ → Kind

-- A descriptor, whether it is a transmit end, and the pipe's place and size.
abbrev pub Buffer : Type 0
Buffer = ℕ × Bool × ℕ × ℕ

-- The body of the loop of `extract_pipe_buffers`.
unfoldable pub extract_one : ℕ → Kind → List Buffer → List Buffer
extract_one fd (virtual_pipe_tx (some tx)) rest = (fd, true, tx.pool_offset, tx.buffer_size) ∷ rest
extract_one fd (virtual_pipe_rx (some rx)) rest = (fd, false, rx.pool_offset, rx.buffer_size) ∷ rest
extract_one fd (virtual_pipe_tx none) rest = rest
extract_one fd (virtual_pipe_rx none) rest = rest
extract_one fd other rest = rest

-- `extract_pipe_buffers`. The keys of the map are the descriptors, no two of which are the same.
unfoldable pub extract : List (ℕ × ℕ) → (ℕ → Kind) → List Buffer
extract [] kinds = []
extract ((fd, inode) ∷ rest) kinds = extract_one fd (kinds inode) (extract rest kinds)

unfoldable pub extract_pipe_buffers : WasiEnv → List Buffer
extract_pipe_buffers env = extract env.fd_map env.kinds

-- What `to_scheduler_message` sends along: `into_vec` gives the map's entries in an order that
-- nobody has fixed, and is an argument.
unfoldable pub fork_pipes : (List Buffer → List Buffer) → WasiEnv → ℕ → Option ForkPipeBuffers
fork_pipes into_vec env all_fds_debug = elim (extract_pipe_buffers env) [
  | [] ↦ none
  | buffer ∷ rest ↦
      some (record { buffers = into_vec (buffer ∷ rest); all_fds_debug = all_fds_debug })
]

-- `fd_map.get`.
unfoldable pub get_fd : List (ℕ × ℕ) → ℕ → Option ℕ
get_fd [] fd = none
get_fd ((fd', inode) ∷ rest) fd = if fd' == fd then some inode else get_fd rest fd

-- The drop of the pipe that stood in an inode.
abbrev pub drop_old : Memory → Option SharedPipeTx → Memory
drop_old m none = m
drop_old m (some tx) = drop_tx m tx

-- The match on the kind: the new end is made, and then the old one dropped.
unfoldable pub reconnect_kind : Memory → Kind → Bool → ℕ → ℕ → Kind × Memory
reconnect_kind m (virtual_pipe_tx old) true pool_offset buffer_size =
    let (tx, m') = tx_from_pool_offset m pool_offset buffer_size in
    (virtual_pipe_tx (some tx), drop_old m' old)
reconnect_kind m (virtual_pipe_rx old) false pool_offset buffer_size =
    (virtual_pipe_rx (some (rx_from_pool_offset pool_offset buffer_size)), m)
reconnect_kind m (virtual_pipe_tx old) false pool_offset buffer_size = (virtual_pipe_tx old, m)
reconnect_kind m (virtual_pipe_rx old) true pool_offset buffer_size = (virtual_pipe_rx old, m)
reconnect_kind m other is_tx pool_offset buffer_size = (other, m)

abbrev pub set_kind : (ℕ → Kind) → ℕ → Kind → ℕ → Kind
set_kind kinds inode kind i = if i == inode then kind else kinds i

unfoldable pub reconnect_inode : WasiEnv → Memory → Option ℕ → Bool → ℕ → ℕ → WasiEnv × Memory
reconnect_inode env m none is_tx pool_offset buffer_size = (env, m)
reconnect_inode env m (some inode) is_tx pool_offset buffer_size =
    let (kind, m') = reconnect_kind m (env.kinds inode) is_tx pool_offset buffer_size in
    (record env { kinds = set_kind env.kinds inode kind }, m')

-- `reconnect_pipe_buffers`, and `SpawnWasm::reconnect_fork_pipes`, which only rebuilds the map.
unfoldable pub reconnect_pipe_buffers : WasiEnv → Memory → List Buffer → WasiEnv × Memory
reconnect_pipe_buffers env m [] = (env, m)
reconnect_pipe_buffers env m ((fd, is_tx, pool_offset, buffer_size) ∷ rest) =
    let (env', m') = reconnect_inode env m (get_fd env.fd_map fd) is_tx pool_offset buffer_size in
    reconnect_pipe_buffers env' m' rest

unfoldable pub reconnect_fork_pipes : WasiEnv → Memory → Option ForkPipeBuffers → WasiEnv × Memory
reconnect_fork_pipes env m none = (env, m)
reconnect_fork_pipes env m (some pipes) = reconnect_pipe_buffers env m pipes.buffers
