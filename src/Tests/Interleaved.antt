-- ===== src/Tests/Interleaved.antt =====
-- A writer and a reader of one ring, each in the middle of its call while the other goes on.
use wasmer_js.Prelude.{◌≡◌, refl, List, [], ◌∷◌, ◌++◌, arith}
use wasmer_js.Memory.{Memory, load, store, copy_in, copy_out, set_index, get_index}
use wasmer_js.Pipe.{
  close, is_closed, free_space, data_available, write_chunks, read_chunks, write_data, try_read,
}
use wasmer_js.Pipe.Space.{IsPipe, tx_end, rx_end, contents}
use wasmer_js.Pipe.Interleaved.{
  Turn, write_turn, read_turn, close_turn, run, at_rest, step, step_writer, step_reader, look_write,
  look_read, commit_write, commit_read,
}
use wasmer_js.Pipe.Interleaved.Stream.{run_interleaved}
use wasmer_js.Pipe.Interleaved.Alone.{
  three_writes, three_reads, write_result, read_result, run_alone,
}

-- Eight bytes at offset 4, of which the last and the first are held.
abbrev ring : Memory
ring = store (store (store (store (λ a. 0) 4 1) 8 7) 31 65) 24 66

ring-IsPipe : IsPipe ring 4 8
unfolding load store
ring-IsPipe = record {
  positive = omega arith;
  inside = omega arith;
  write_in = omega arith;
  read_in = omega arith;
}

-- The reader looks before the writer copies, and is done before the writer is.
abbrev turns : List Turn
turns =
    write_turn (1 ∷ 2 ∷ [])
    ∷ read_turn 4
    ∷ write_turn []
    ∷ close_turn
    ∷ read_turn 0
    ∷ read_turn 0
    ∷ write_turn []
    ∷ read_turn 3
    ∷ []

turns_taken : (run (tx_end 4 8) (rx_end 4 8) (at_rest ring) turns).received ≡ 65 ∷ 66 ∷ []
unfolding run step step_writer step_reader look_write look_read commit_write commit_read load store
    is_closed free_space data_available write_chunks read_chunks close copy_in copy_out set_index
    get_index
turns_taken = refl

run_interleaved_example :
    (run (tx_end 4 8) (rx_end 4 8) (at_rest ring) turns).received
      ++ contents (run (tx_end 4 8) (rx_end 4 8) (at_rest ring) turns).memory 4 8
    ≡ contents ring 4 8 ++ (run (tx_end 4 8) (rx_end 4 8) (at_rest ring) turns).accepted
run_interleaved_example = run_interleaved 4 8 ring turns ring-IsPipe

ring_alone :
    let writes = run (tx_end 4 8) (rx_end 4 8) (at_rest ring) (three_writes (9 ∷ [])) in
    let reads = run (tx_end 4 8) (rx_end 4 8) (at_rest ring) (three_reads 1) in
    ((writes.accepted, writes.memory)
      ≡ write_result (9 ∷ []) (write_data ring (tx_end 4 8) (9 ∷ [])))
    × ((reads.received, reads.memory) ≡ read_result (try_read ring (rx_end 4 8) (0 ∷ [])))
ring_alone = run_alone ring 4 8 (9 ∷ []) (0 ∷ []) ring-IsPipe
