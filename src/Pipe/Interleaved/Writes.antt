-- ===== src/Pipe/Interleaved/Writes.antt =====
-- The steps of a writer keep what holds of the pipe and of both ends.
use native.Mathlib.Nat.{mod-lt}
use wasmer_js.Prelude.{
  ℕ, ◌+◌, ◌%◌, ◌≤◌, ◌<◌, min, ◌≡◌, refl, sym, ap, ◌∙◌, inl, inr, List, [], ◌++◌, arith, length,
  take, get_or, append-nil, append_assoc, Bool-cases, ◌==◌,
}
use wasmer_js.Memory.{Memory, load, add32}
use wasmer_js.Memory.Laws.{load-store_self, store_other}
use wasmer_js.Pipe.{header_size, write_pos_at, is_closed, free_space}
use wasmer_js.Pipe.Space.{IsPipe, tx_end, contents, free_space_lem}
use wasmer_js.Pipe.Chunks.{Wrote, copied_self}
use wasmer_js.Pipe.Write.{Wrote-IsPipe, Wrote-contents}
use wasmer_js.Pipe.Write
use wasmer_js.Pipe.Interleaved.{
  Writer, writing, written, State, look_write, commit_write, begin_write, step_writer,
}
use wasmer_js.Pipe.Interleaved.Sound.{
  held, byte, WriterIs, ReaderIs-kept, copy, copy-write_pos, Sound, copy-read_pos, copy-IsPipe,
  copy-held, contents-copy,
}

module _ (offset capacity : ℕ) where
  look_write-HasRoom :
      (m : Memory) (bytes : List ℕ)
      → IsPipe m offset capacity
      → WriterIs offset capacity m (begin_write (look_write m (tx_end offset capacity) bytes) bytes)
  unfolding look_write
  look_write-HasRoom m bytes v = elim (Bool-cases (is_closed m offset)) [
    | inl c ↦ rw c tt
    | inr c ↦
        rw c (elim (Bool-cases (min (length bytes) (free_space m (tx_end offset capacity)) == 0)) [
          | inl z ↦ rw z tt
          | inr z ↦ rw z (refl, omega arith, omega (arith, free_space_lem m offset capacity v))
        ])
  ]

  -- A store of the position behind a copy is a write of the copied bytes.
  commit_write-Wrote :
      (m : Memory) (n : ℕ) (xs : List ℕ)
      → IsPipe m offset capacity
      → n + held offset capacity m + 1 ≤ capacity
      → ((k : ℕ)
          → k < n
          → byte offset capacity m ((load m (write_pos_at offset) + k) % capacity) ≡ get_or xs k 0)
      → Wrote m offset capacity n xs
          (commit_write m (tx_end offset capacity) (load m (write_pos_at offset)) n)
  unfolding commit_write
  commit_write-Wrote m n xs v room copied =
      let w = load m (write_pos_at offset) in
      let pos = add32 w n % capacity in
      record {
        at_self = λ k h.
            store_other m offset pos (offset + header_size + (w + k) % capacity) (inr (omega arith))
            ∙ copied k h;
        at_other = λ k h l.
            store_other m offset pos (offset + header_size + (w + k) % capacity)
              (inr (omega arith));
        outside = λ b h. store_other m offset pos b (ground arith);
        moved =
            load-store_self m offset pos
              (grind (arith, mod-lt (add32 w n) {m = capacity} (omega arith)))
            ∙ ap (λ k. k % capacity) (omega arith);
      }

  commit-Sound :
      (base : List ℕ) (s : State) (n : ℕ) (xs : List ℕ)
      → Sound offset capacity base s
      → n ≤ length xs
      → n + held offset capacity s.memory + 1 ≤ capacity
      → ((k : ℕ)
          → k < n
          → byte offset capacity s.memory ((load s.memory (write_pos_at offset) + k) % capacity)
            ≡ get_or xs k 0)
      → Sound offset capacity base (record s {
        memory =
            commit_write s.memory (tx_end offset capacity) (load s.memory (write_pos_at offset)) n;
        writer = Writer.idle;
        accepted = s.accepted ++ take n xs;
      })
  commit-Sound base s n xs h enough room copied =
      let m = s.memory in
      let v = h.pipe in
      let m' = commit_write m (tx_end offset capacity) (load m (write_pos_at offset)) n in
      let wrote = commit_write-Wrote m n xs v room copied in
      let free : n ≤ free_space m (tx_end offset capacity) =
        omega (arith, free_space_lem m offset capacity v) in
      let queue = contents m offset capacity in
      let added = Wrote-contents m m' offset capacity n xs v wrote enough free in
      record {
        pipe = Wrote-IsPipe m m' offset capacity n xs v wrote enough free;
        writer_is = tt;
        reader_is =
            ReaderIs-kept offset capacity m m' s.reader (take n xs)
              (Write.same_read_pos m m' offset capacity n xs v wrote enough free) added
              (omega
                (arith, Write.Wrote-data_available m m' offset capacity n xs v wrote enough free))
              h.reader_is;
        flow =
            ap (◌++◌ s.received) added
            ∙ sym (append_assoc s.received queue (take n xs))
            ∙ ap (λ (q : List ℕ). q ++ take n xs) h.flow
            ∙ append_assoc base s.accepted (take n xs);
      }

  pub step_writer-Sound :
      (base : List ℕ) (bytes : List ℕ) (s : State) (writer : Writer)
      → Sound offset capacity base s
      → WriterIs offset capacity s.memory writer
      → Sound offset capacity base (step_writer (tx_end offset capacity) bytes s writer)
  unfolding step_writer
  step_writer-Sound base bytes s Writer.idle h u = record {
    pipe = h.pipe;
    writer_is = look_write-HasRoom s.memory bytes h.pipe;
    reader_is = h.reader_is;
    flow = h.flow;
  }
  step_writer-Sound base bytes s (writing w n xs) h (p, enough, room) =
      let m = s.memory in
      let v = h.pipe in
      let same_held = copy-held m offset capacity n xs v enough room in
      let same_contents = contents-copy m offset capacity n xs v enough room in
      rw p (record {
        pipe = copy-IsPipe m offset capacity n xs v enough room;
        writer_is = (
          (sym (copy-write_pos m offset capacity n xs v enough room), enough, omega arith),
          copied_self m offset capacity n xs v enough (omega arith),
        );
        reader_is =
            ReaderIs-kept offset capacity m (copy m offset capacity n xs v enough room) s.reader []
              (copy-read_pos m offset capacity n xs v enough room)
              (same_contents ∙ sym (append-nil (contents m offset capacity))) (omega arith)
              h.reader_is;
        flow = ap (◌++◌ s.received) same_contents ∙ h.flow;
      })
  step_writer-Sound base bytes s (written w n xs) h ((p, enough, room), copied) = rw p (
      commit-Sound base s n xs h enough room (λ k lt.
        ap (λ (j : ℕ). byte offset capacity s.memory ((j + k) % capacity)) (sym p) ∙ copied k lt))
