-- ===== src/Pipe.antt =====
-- `SharedPipeTx` and `SharedPipeRx` of src/pipes/mod.rs: a ring buffer in the shared pool, behind a
-- header of five words. Each operation is one step over the shared memory here; Interleaved takes them
-- apart. What the other workers do between the rounds of a loop is an argument (the module Poll).
pub mod Ring
pub mod Space
pub mod Queue
pub mod Chunks
pub mod Write
pub mod Read
pub mod Close
pub mod Stream
pub mod Ends
pub mod Poll
pub mod Interleaved
use wasmer_js.Prelude.{
  ℕ, ◌+◌, ◌-◌, ◌%◌, min, Bool, true, false, not, List, [], ◌∷◌, ◌++◌, Option, none, some, ltb, leb,
  ◌==◌, if◌then◌else◌, length, take, drop,
}
use wasmer_js.Memory.{Memory, load, store, add32, sub32, View, copy_in, copy_out}

abbrev pub header_size : ℕ
header_size = 20

abbrev pub default_pipe_buffer_size : ℕ
default_pipe_buffer_size = 65536

-- The addresses of the header's words, for a pipe at a pool offset.
abbrev pub write_pos_at : ℕ → ℕ
write_pos_at offset = offset

abbrev pub read_pos_at : ℕ → ℕ
read_pos_at offset = offset + 4

abbrev pub closed_at : ℕ → ℕ
closed_at offset = offset + 8

abbrev pub notify_at : ℕ → ℕ
notify_at offset = offset + 12

abbrev pub tx_count_at : ℕ → ℕ
tx_count_at offset = offset + 16

-- `SharedPipeTx` and `SharedPipeRx` have the same three fields. `data_capacity` is
-- `buffer_size - HEADER_SIZE`.
pub record SharedPipeTx : Type 0 where
  pub pool_offset : ℕ
  pub buffer_size : ℕ
  pub data_capacity : ℕ

pub record SharedPipeRx : Type 0 where
  pub pool_offset : ℕ
  pub buffer_size : ℕ
  pub data_capacity : ℕ

-- The kinds of `io::Error` that the pipe raises.
pub data ErrorKind : Type 0 where
  broken_pipe would_block invalid_input : ErrorKind

pub data Result {ℓ} (A : Type ℓ) : Type ℓ where
  ok : A → Result A
  err : ErrorKind → Result A

abbrev pub data_view : ℕ → ℕ → View
data_view offset capacity = record { base = offset + header_size; count = capacity }

-- `SharedPipeTx::is_closed` and `SharedPipeRx::is_closed`.
unfoldable pub is_closed : Memory → ℕ → Bool
is_closed m offset = not (load m (closed_at offset) == 0)

unfoldable pub free_space : Memory → SharedPipeTx → ℕ
free_space m tx =
    let write_pos = load m (write_pos_at tx.pool_offset) in
    let read_pos = load m (read_pos_at tx.pool_offset) in
    let capacity = tx.data_capacity in
    if leb read_pos write_pos
    then sub32 (sub32 capacity (sub32 write_pos read_pos)) 1
    else sub32 (sub32 read_pos write_pos) 1

-- The two copy loops of `write_data`, the second from the start of the buffer.
unfoldable pub write_chunks : Memory → SharedPipeTx → ℕ → ℕ → List ℕ → Memory
write_chunks m tx write_pos to_write bytes =
    let view = data_view tx.pool_offset tx.data_capacity in
    let first_chunk_size = min (sub32 tx.data_capacity write_pos) to_write in
    let second_chunk_size = sub32 to_write first_chunk_size in
    copy_in (copy_in m view write_pos (take first_chunk_size bytes)) view 0
      (take second_chunk_size (drop first_chunk_size bytes))

-- `Atomics.notify` changes no memory.
unfoldable pub write_data : Memory → SharedPipeTx → List ℕ → Result ℕ × Memory
unfolding is_closed free_space write_chunks
write_data m tx [] = if is_closed m tx.pool_offset then (err broken_pipe, m) else (ok 0, m)
write_data m tx (x ∷ xs) =
    if is_closed m tx.pool_offset
    then (err broken_pipe, m)
    else let free = free_space m tx in
      if free == 0
      then (err would_block, m)
      else let to_write = min (length (x ∷ xs)) free in
        let write_pos = load m (write_pos_at tx.pool_offset) in
        (
          ok to_write,
          store (write_chunks m tx write_pos to_write (x ∷ xs)) (write_pos_at tx.pool_offset)
              (add32 write_pos to_write % tx.data_capacity),
        )

-- `SharedPipeTx::close` and `SharedPipeRx::close`.
unfoldable pub close : Memory → ℕ → Memory
close m offset = store m (closed_at offset) 1

unfoldable pub data_available : Memory → SharedPipeRx → ℕ
data_available m rx =
    let write_pos = load m (write_pos_at rx.pool_offset) in
    let read_pos = load m (read_pos_at rx.pool_offset) in
    let capacity = rx.data_capacity in
    if leb read_pos write_pos
    then sub32 write_pos read_pos
    else add32 (sub32 capacity read_pos) write_pos

-- The two copy loops of `try_read`: the bytes that go to the front of the caller's buffer.
unfoldable pub read_chunks : Memory → SharedPipeRx → ℕ → ℕ → List ℕ
read_chunks m rx read_pos to_read =
    let view = data_view rx.pool_offset rx.data_capacity in
    let first_chunk_size = min (sub32 rx.data_capacity read_pos) to_read in
    let second_chunk_size = sub32 to_read first_chunk_size in
    copy_out m view read_pos first_chunk_size ++ copy_out m view 0 second_chunk_size

-- The caller's buffer is passed in, and comes back with the bytes read at its front. `none` says
-- that the read would block, `some 0` with no data in the pipe is the end of the file.
unfoldable pub try_read : Memory → SharedPipeRx → List ℕ → Option ℕ × List ℕ × Memory
unfolding is_closed data_available read_chunks
try_read m rx buf =
    let available = data_available m rx in
    if available == 0
    then (if is_closed m rx.pool_offset then (some 0, buf, m) else (none, buf, m))
    else let to_read = min (length buf) available in
      let read_pos = load m (read_pos_at rx.pool_offset) in
      (
        some to_read,
        read_chunks m rx read_pos to_read ++ drop to_read buf,
        store m (read_pos_at rx.pool_offset) (add32 read_pos to_read % rx.data_capacity),
      )
