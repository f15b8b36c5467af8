-- ===== src/Pipe/Interleaved/Stream.antt =====
-- What a writer and a reader make of the stream, however their steps follow one another.
use wasmer_js.Prelude.{
  ℕ, ◌+◌, ◌%◌, ◌≡◌, refl, sym, ap, ◌∙◌, inl, inr, List, [], ◌∷◌, ◌++◌, arith, take, drop,
  append-nil, append_assoc, take-append-drop, Bool-cases, ◌==◌,
}
use wasmer_js.Memory.{Memory, load, add32}
use wasmer_js.Memory.Laws.{store_other}
use wasmer_js.Pipe.{header_size, read_pos_at, data_available, close}
use wasmer_js.Pipe.Space.{IsPipe, tx_end, rx_end, contents}
use wasmer_js.Pipe.Read.{
  advanced, advanced-IsPipe, advanced-data_available, advanced-contents, chunks_taken,
}
use wasmer_js.Pipe.Read
use wasmer_js.Pipe.Close.{close-IsPipe, contents-close}
use wasmer_js.Pipe.Close
use wasmer_js.Pipe.Interleaved.{
  Reader, reading, has_read, State, Turn, write_turn, read_turn, close_turn, look_read, commit_read,
  begin_read, step_reader, step, run, at_rest,
}
use wasmer_js.Pipe.Interleaved.Sound.{ReaderIs, WriterIs-kept, ReaderIs-kept, Sound}
use wasmer_js.Pipe.Interleaved.Writes.{step_writer-Sound}

module _ (offset capacity : ℕ) where
  look_read-ReaderIs :
      (m : Memory) (buf_len : ℕ)
      → ReaderIs offset capacity m (begin_read (look_read m (rx_end offset capacity) buf_len))
  unfolding look_read
  look_read-ReaderIs m buf_len =
      elim (Bool-cases (data_available m (rx_end offset capacity) == 0)) [
        | inl z ↦ rw z tt
        | inr z ↦ rw z (refl, omega arith)
      ]

  step_reader-Sound :
      (base : List ℕ) (buf_len : ℕ) (s : State) (reader : Reader)
      → Sound offset capacity base s
      → ReaderIs offset capacity s.memory reader
      → Sound offset capacity base (step_reader (rx_end offset capacity) buf_len s reader)
  unfolding step_reader
  step_reader-Sound base buf_len s Reader.idle h u = record {
    pipe = h.pipe;
    writer_is = h.writer_is;
    reader_is = look_read-ReaderIs s.memory buf_len;
    flow = h.flow;
  }
  step_reader-Sound base buf_len s (reading r n) h (p, l) = rw p (record {
    pipe = h.pipe;
    writer_is = h.writer_is;
    reader_is = (refl, l, chunks_taken s.memory offset capacity n h.pipe l);
    flow = h.flow;
  })
  step_reader-Sound base buf_len s (has_read r n xs) h (p, l, q) =
      let m = s.memory in
      let v = h.pipe in
      let queue = contents m offset capacity in
      let left = advanced-contents m offset capacity n v l in
      rw (p, q)
        (unfold commit_read in
          record {
            pipe = advanced-IsPipe m offset capacity n v l;
            writer_is =
                WriterIs-kept offset capacity m (advanced m offset capacity n) s.writer
                  (Read.same_write_pos m offset capacity n v l)
                  (omega (arith, advanced-data_available m offset capacity n v l))
                  (λ i.
                    store_other m (read_pos_at offset)
                      (add32 (load m (read_pos_at offset)) n % capacity) (offset + header_size + i)
                      (inr (omega arith)))
                  h.writer_is;
            reader_is = tt;
            flow =
                ap (◌++◌ (s.received ++ take n queue)) left
                ∙ append_assoc s.received (take n queue) (drop n queue)
                ∙ ap (◌++◌ s.received) (take-append-drop n queue)
                ∙ h.flow;
          })

  close-Sound :
      (base : List ℕ) (s : State)
      → Sound offset capacity base s
      → Sound offset capacity base (record s { memory = close s.memory offset })
  close-Sound base s h =
      let m = s.memory in
      let same = contents-close m offset capacity in
      record {
        pipe = close-IsPipe m offset capacity h.pipe;
        writer_is =
            WriterIs-kept offset capacity m (close m offset) s.writer
              (Close.same_write_pos m offset capacity)
              (omega (arith, Close.same_held m offset capacity)) (Close.same_byte m offset capacity)
              h.writer_is;
        reader_is =
            ReaderIs-kept offset capacity m (close m offset) s.reader []
              (Close.same_read_pos m offset capacity)
              (same ∙ sym (append-nil (contents m offset capacity)))
              (omega (arith, Close.same_held m offset capacity)) h.reader_is;
        flow = ap (◌++◌ s.received) same ∙ h.flow;
      }

  step-Sound :
      (base : List ℕ) (s : State) (turn : Turn)
      → Sound offset capacity base s
      → Sound offset capacity base (step (tx_end offset capacity) (rx_end offset capacity) s turn)
  unfolding step
  step-Sound base s (write_turn bytes) h =
      step_writer-Sound offset capacity base bytes s s.writer h h.writer_is
  step-Sound base s (read_turn buf_len) h = step_reader-Sound base buf_len s s.reader h h.reader_is
  step-Sound base s close_turn h = close-Sound base s h

  run-Sound :
      (base : List ℕ) (s : State) (turns : List Turn)
      → Sound offset capacity base s
      → Sound offset capacity base (run (tx_end offset capacity) (rx_end offset capacity) s turns)
  unfolding run
  run-Sound base s [] h = h
  run-Sound base s (turn ∷ turns) h =
      run-Sound base (step (tx_end offset capacity) (rx_end offset capacity) s turn) turns
        (step-Sound base s turn h)

  -- One writer and one reader of a well-formed pipe, whose looks at the header, copies and stores of
  -- a position follow one another in any order, also around a close: what has been received,
  -- followed by what the pipe holds, is at each moment what the pipe held at first, followed by what
  -- has been accepted.
  pub run_interleaved :
      (m : Memory) (turns : List Turn)
      → IsPipe m offset capacity
      → let s = run (tx_end offset capacity) (rx_end offset capacity) (at_rest m) turns in
        s.received ++ contents s.memory offset capacity ≡ contents m offset capacity ++ s.accepted
  run_interleaved m turns v =
      (run-Sound (contents m offset capacity) (at_rest m) turns (record {
        pipe = v;
        writer_is = tt;
        reader_is = tt;
        flow = sym (append-nil (contents m offset capacity));
      })).flow
