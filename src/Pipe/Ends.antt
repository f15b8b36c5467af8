-- ===== src/Pipe/Ends.antt =====
-- How the ends of a pipe come to be and go, in src/pipes/mod.rs: `with_capacity`, the three
-- `from_pool_offset`, `Drop`. The fifth header word counts the transmit ends.
pub mod Fresh
pub mod Count
use wasmer_js.Prelude.{ℕ, ◌+◌, Bool, List, Option, none, some, ◌==◌, if◌then◌else◌}
use wasmer_js.Memory.{Memory, load, store, add32, sub32}
use wasmer_js.Pool.{allocate_from_pool, get_pool_int32_view}
use wasmer_js.Pipe.{
  SharedPipeTx, SharedPipeRx, header_size, write_pos_at, read_pos_at, closed_at, notify_at,
  tx_count_at, close,
}

pub record SharedPipe : Type 0 where
  pub tx : SharedPipeTx
  pub rx : SharedPipeRx

-- The two ends over one region of the pool, with no access to the header:
-- `SharedPipe::from_pool_offset`.
unfoldable pub from_pool_offset : ℕ → ℕ → SharedPipe
from_pool_offset offset size = record {
  tx = record { pool_offset = offset; buffer_size = size; data_capacity = sub32 size header_size };
  rx = record { pool_offset = offset; buffer_size = size; data_capacity = sub32 size header_size };
}

-- The stores that initialise the header.
unfoldable pub init_header : Memory → ℕ → Memory
init_header m offset =
    let m₁ = store m (write_pos_at offset) 0 in
    let m₂ = store m₁ (read_pos_at offset) 0 in
    let m₃ = store m₂ (closed_at offset) 0 in
    let m₄ = store m₃ (notify_at offset) 0 in store m₄ (tx_count_at offset) 1

-- What `with_capacity` does with the allocator's answer.
unfoldable pub connect : Bool → ℕ → Option ℕ × Memory → Option (SharedPipe × Memory)
connect ready size (none, m) = none
connect ready size (some offset, m) = elim (get_pool_int32_view ready offset 5) [
  | none ↦ none
  | some view ↦ some (from_pool_offset offset size, init_header m view)
]

-- `SharedPipe::with_capacity`; `none` is a panic. `ready` and `rivals` are the allocator's.
unfoldable pub with_capacity : Bool → Memory → ℕ → List ℕ → Option (SharedPipe × Memory)
unfolding connect from_pool_offset init_header
with_capacity ready m size rivals = connect ready size (allocate_from_pool ready m size rivals)

-- `SharedPipeTx::from_pool_offset` counts the new end.
unfoldable pub tx_from_pool_offset : Memory → ℕ → ℕ → SharedPipeTx × Memory
tx_from_pool_offset m offset size = (
  record { pool_offset = offset; buffer_size = size; data_capacity = sub32 size header_size },
  store m (tx_count_at offset) (add32 (load m (tx_count_at offset)) 1),
)

-- `SharedPipeRx::from_pool_offset`.
unfoldable pub rx_from_pool_offset : ℕ → ℕ → SharedPipeRx
rx_from_pool_offset offset size = record {
  pool_offset = offset;
  buffer_size = size;
  data_capacity = sub32 size header_size;
}

-- `Drop for SharedPipeTx`; that of `SharedPipeRx` does nothing.
unfoldable pub drop_tx : Memory → SharedPipeTx → Memory
drop_tx m tx =
    let prev_count = load m (tx_count_at tx.pool_offset) in
    let m' = store m (tx_count_at tx.pool_offset) (sub32 prev_count 1) in
    if prev_count == 1 then close m' tx.pool_offset else m'

-- Dropping a `SharedPipe` drops both its ends.
unfoldable pub drop_pipe : Memory → SharedPipe → Memory
unfolding drop_tx
drop_pipe m p = drop_tx m p.tx
