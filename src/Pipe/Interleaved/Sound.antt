-- ===== src/Pipe/Interleaved/Sound.antt =====
-- What holds of a pipe in the middle of its calls, and that the other end does not disturb it.
use wasmer_js.Prelude.{
  ℕ, ◌+◌, ◌-◌, ◌%◌, ◌≤◌, ◌<◌, ◌≡◌, sym, ap, ap₂, ◌∙◌, inl, List, ◌++◌, arith, length, take, get_or,
  take_append_left,
}
use wasmer_js.Memory.{Memory, load}
use wasmer_js.Memory.Laws.{load_eq}
use wasmer_js.Pipe.{header_size, write_pos_at, read_pos_at, data_available, write_chunks}
use wasmer_js.Pipe.Ring.{slice, slice_ext}
use wasmer_js.Pipe.Space.{IsPipe, tx_end, rx_end, contents, length-contents, held_position}
use wasmer_js.Pipe.Chunks.{copied_other, copied_outside}
use wasmer_js.Pipe.Interleaved.{State, Writer, writing, written, Reader, reading, has_read}

module _ (offset capacity : ℕ) where
  abbrev pub held : Memory → ℕ
  held m = data_available m (rx_end offset capacity)

  abbrev pub byte : Memory → ℕ → ℕ
  byte m i = m (offset + header_size + i)

  abbrev pub HasRoom : Memory → ℕ → ℕ → List ℕ → Type 0
  HasRoom m w n xs =
      (w ≡ load m (write_pos_at offset)) × (n ≤ length xs) × (n + held m + 1 ≤ capacity)

  -- What the writer saw still holds, and what it copied is still there.
  abbrev pub WriterIs : Memory → Writer → Type 0
  WriterIs m Writer.idle = Unit
  WriterIs m (writing w n xs) = HasRoom m w n xs
  WriterIs m (written w n xs) =
      HasRoom m w n xs × ((k : ℕ) → k < n → byte m ((w + k) % capacity) ≡ get_or xs k 0)

  -- And so for the reader, whose bytes are the oldest of the pipe.
  abbrev pub ReaderIs : Memory → Reader → Type 0
  ReaderIs m Reader.idle = Unit
  ReaderIs m (reading r n) = (r ≡ load m (read_pos_at offset)) × (n ≤ held m)
  ReaderIs m (has_read r n xs) =
      (r ≡ load m (read_pos_at offset)) × (n ≤ held m) × (xs ≡ take n (contents m offset capacity))

  -- The writer is not disturbed by what moves neither its position nor its bytes, and does not add.
  pub WriterIs-kept :
      (m m' : Memory) (writer : Writer)
      → load m' (write_pos_at offset) ≡ load m (write_pos_at offset)
      → held m' ≤ held m
      → ((i : ℕ) → byte m' i ≡ byte m i)
      → WriterIs m writer
      → WriterIs m' writer
  WriterIs-kept m m' Writer.idle e h b u = tt
  WriterIs-kept m m' (writing w n xs) e h b (p, l, room) = (p ∙ sym e, l, omega arith)
  WriterIs-kept m m' (written w n xs) e h b ((p, l, room), copy) =
      ((p ∙ sym e, l, omega arith), λ k lt. b ((w + k) % capacity) ∙ copy k lt)

  -- The reader is not disturbed by what moves not its position, and only adds bytes.
  pub ReaderIs-kept :
      (m m' : Memory) (reader : Reader) (more : List ℕ)
      → load m' (read_pos_at offset) ≡ load m (read_pos_at offset)
      → contents m' offset capacity ≡ contents m offset capacity ++ more
      → held m ≤ held m'
      → ReaderIs m reader
      → ReaderIs m' reader
  ReaderIs-kept m m' Reader.idle more e c h u = tt
  ReaderIs-kept m m' (reading r n) more e c h (p, l) = (p ∙ sym e, omega arith)
  ReaderIs-kept m m' (has_read r n xs) more e c h (p, l, q) = (
    p ∙ sym e,
    omega arith,
    q
        ∙ sym (
            take_append_left n (contents m offset capacity) more
              (omega (arith, length-contents m offset capacity)))
        ∙ ap (take n) (sym c),
  )

-- The memory behind a copy, with the positions where they were.
module _ (m : Memory) (offset capacity n : ℕ) (xs : List ℕ) (v : IsPipe m offset capacity)
    (enough : n ≤ length xs) (room : n + held offset capacity m + 1 ≤ capacity) where
  abbrev pub copy : Memory
  copy = write_chunks m (tx_end offset capacity) (load m (write_pos_at offset)) n xs

  fits : n < capacity
  fits = omega arith

  kept_word : (a : ℕ) → a + 4 ≤ header_size → load copy (offset + a) ≡ load m (offset + a)
  kept_word a h =
      load_eq copy m (offset + a)
        (copied_outside m offset capacity n xs v enough fits _ (inl (omega arith)))
        (copied_outside m offset capacity n xs v enough fits _ (inl (omega arith)))
        (copied_outside m offset capacity n xs v enough fits _ (inl (omega arith)))
        (copied_outside m offset capacity n xs v enough fits _ (inl (omega arith)))

  pub copy-write_pos : load copy (write_pos_at offset) ≡ load m (write_pos_at offset)
  copy-write_pos =
      ap (load copy) {x = offset} {y = offset + 0} (omega arith)
      ∙ kept_word 0 (omega arith)
      ∙ ap (load m) {x = offset + 0} {y = offset} (omega arith)

  pub copy-read_pos : load copy (read_pos_at offset) ≡ load m (read_pos_at offset)
  copy-read_pos = kept_word 4 (omega arith)

  pub copy-IsPipe : IsPipe copy offset capacity
  copy-IsPipe = record {
    positive = v.positive;
    inside = v.inside;
    write_in = rw copy-write_pos v.write_in;
    read_in = rw copy-read_pos v.read_in;
  }

  pub copy-held : held offset capacity copy ≡ held offset capacity m
  copy-held = unfold data_available in rw (copy-write_pos, copy-read_pos)

  -- The copy goes where nothing is held.
  pub contents-copy : contents copy offset capacity ≡ contents m offset capacity
  contents-copy =
      ap₂ (slice (byte offset capacity copy) capacity) copy-read_pos copy-held
      ∙ slice_ext (byte offset capacity copy) (byte offset capacity m) capacity
          (load m (read_pos_at offset)) (held offset capacity m) same
    where
      same :
          (k : ℕ)
          → k < held offset capacity m
          → byte offset capacity copy ((load m (read_pos_at offset) + k) % capacity)
            ≡ byte offset capacity m ((load m (read_pos_at offset) + k) % capacity)
      same k h =
          let place = held_position m offset capacity k v h in
          ap (byte offset capacity copy) place
          ∙ copied_other m offset capacity n xs v enough fits
              (k + (capacity - held offset capacity m)) (omega arith) (omega arith)
          ∙ ap (byte offset capacity m) (sym place)

-- The pipe is well formed, both ends are right about it, and what has come out, with what is held,
-- is what there was at first, with what has gone in.
pub record Sound (offset capacity : ℕ) (base : List ℕ) (s : State) : Type 0 where
  pub pipe : IsPipe s.memory offset capacity
  pub writer_is : WriterIs offset capacity s.memory s.writer
  pub reader_is : ReaderIs offset capacity s.memory s.reader
  pub flow : s.received ++ contents s.memory offset capacity ≡ base ++ s.accepted
