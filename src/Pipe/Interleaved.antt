-- ===== src/Pipe/Interleaved.antt =====
-- A writer and a reader of one pipe, each in the middle of its `write_data` or `try_read` of
-- src/pipes/mod.rs while the other goes on. A call looks at the header, copies, and stores its
-- position, in three steps. One worker writes, and one reads.
pub mod Sound
pub mod Writes
pub mod Stream
pub mod Alone
use wasmer_js.Prelude.{
  ℕ, ◌%◌, min, List, [], ◌∷◌, ◌++◌, Option, none, some, ◌==◌, if◌then◌else◌, length, take,
}
use wasmer_js.Memory.{Memory, load, store, add32}
use wasmer_js.Pipe.{
  SharedPipeTx, SharedPipeRx, write_pos_at, read_pos_at, is_closed, free_space, data_available,
  write_chunks, read_chunks, close,
}

-- Where the call is, with its `write_pos` or `read_pos`, its `to_write` or `to_read`, and its bytes.
pub data Writer : Type 0 where
  idle : Writer
  writing written : ℕ → ℕ → List ℕ → Writer

pub data Reader : Type 0 where
  idle : Reader
  reading : ℕ → ℕ → Reader
  has_read : ℕ → ℕ → List ℕ → Reader

-- The bytes of the writes and of the reads that have come to their end are the logs.
pub record State : Type 0 where
  pub memory : Memory
  pub writer : Writer
  pub reader : Reader
  pub accepted : List ℕ
  pub received : List ℕ

-- What `write_data` does up to the copy: `none` where it returns.
unfoldable pub look_write : Memory → SharedPipeTx → List ℕ → Option (ℕ × ℕ)
look_write m tx bytes =
    if is_closed m tx.pool_offset
    then none
    else let to_write = min (length bytes) (free_space m tx) in
      if to_write == 0 then none else some (load m (write_pos_at tx.pool_offset), to_write)

unfoldable pub commit_write : Memory → SharedPipeTx → ℕ → ℕ → Memory
commit_write m tx write_pos to_write =
    store m (write_pos_at tx.pool_offset) (add32 write_pos to_write % tx.data_capacity)

-- What `try_read` does up to the copy, for a buffer of a length.
unfoldable pub look_read : Memory → SharedPipeRx → ℕ → Option (ℕ × ℕ)
look_read m rx buf_len =
    let available = data_available m rx in
    if available == 0
    then none
    else some (load m (read_pos_at rx.pool_offset), min buf_len available)

unfoldable pub commit_read : Memory → SharedPipeRx → ℕ → ℕ → Memory
commit_read m rx read_pos to_read =
    store m (read_pos_at rx.pool_offset) (add32 read_pos to_read % rx.data_capacity)

-- The next step of the writer, which begins a write of the given bytes where it is idle.
abbrev pub begin_write : Option (ℕ × ℕ) → List ℕ → Writer
begin_write none bytes = idle
begin_write (some (w, n)) bytes = writing w n bytes

unfoldable pub step_writer : SharedPipeTx → List ℕ → State → Writer → State
step_writer tx bytes s idle = record s { writer = begin_write (look_write s.memory tx bytes) bytes }
step_writer tx bytes s (writing w n xs) = record s {
  memory = write_chunks s.memory tx w n xs;
  writer = written w n xs;
}
step_writer tx bytes s (written w n xs) = record s {
  memory = commit_write s.memory tx w n;
  writer = idle;
  accepted = s.accepted ++ take n xs;
}

-- The next step of the reader, with the length of its buffer.
abbrev pub begin_read : Option (ℕ × ℕ) → Reader
begin_read none = idle
begin_read (some (r, n)) = reading r n

unfoldable pub step_reader : SharedPipeRx → ℕ → State → Reader → State
step_reader rx buf_len s idle = record s { reader = begin_read (look_read s.memory rx buf_len) }
step_reader rx buf_len s (reading r n) = record s {
  reader = has_read r n (read_chunks s.memory rx r n);
}
step_reader rx buf_len s (has_read r n xs) = record s {
  memory = commit_read s.memory rx r n;
  reader = idle;
  received = s.received ++ xs;
}

-- Whose step it is.
pub data Turn : Type 0 where
  write_turn : List ℕ → Turn
  read_turn : ℕ → Turn
  close_turn : Turn

unfoldable pub step : SharedPipeTx → SharedPipeRx → State → Turn → State
step tx rx s (write_turn bytes) = step_writer tx bytes s s.writer
step tx rx s (read_turn buf_len) = step_reader rx buf_len s s.reader
step tx rx s close_turn = record s { memory = close s.memory tx.pool_offset }

unfoldable pub run : SharedPipeTx → SharedPipeRx → State → List Turn → State
run tx rx s [] = s
run tx rx s (turn ∷ turns) = run tx rx (step tx rx s turn) turns

-- Both ends at rest.
abbrev pub at_rest : Memory → State
at_rest m = record {
  memory = m;
  writer = Writer.idle;
  reader = Reader.idle;
  accepted = [];
  received = [];
}
