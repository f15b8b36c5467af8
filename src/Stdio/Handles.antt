-- ===== src/Stdio/Handles.antt =====
-- What taking the handles does to the pipes.
use wasmer_js.Prelude.{ℕ, ◌+◌, ◌≤◌, ◌≡◌, refl, ◌∙◌, ◌⊎◌, true, List, arith}
use wasmer_js.Memory.{Memory, load, store, sub32}
use wasmer_js.Memory.Laws.{load-store_ne}
use wasmer_js.Pipe.{
  header_size, closed_at, tx_count_at, is_closed, close, write_data, err, broken_pipe,
}
use wasmer_js.Pipe.Space.{tx_end}
use wasmer_js.Pipe.Ends.{drop_tx}
use wasmer_js.Pipe.Ends.Count.{leave_lem, closed_write}
use wasmer_js.Stdio.{Place, child_offsets, child_from_offsets, parent_handles, child_handles}

-- Dropping a transmit end touches no word outside its own pipe's header.
drop_tx_word :
    (m : Memory) (offset capacity a : ℕ)
    → (a + 4 ≤ offset + 8) ⊎ (offset + header_size ≤ a)
    → load (drop_tx m (tx_end offset capacity)) a ≡ load m a
unfolding drop_tx close
drop_tx_word m offset capacity a h = ground (
  arith,
  load-store_ne m (tx_count_at offset) (sub32 (load m (tx_count_at offset)) 1) a,
  load-store_ne (store m (tx_count_at offset) (sub32 (load m (tx_count_at offset)) 1))
      (closed_at offset) 1 a,
)

closed_word :
    (m m' : Memory) (offset : ℕ)
    → load m' (closed_at offset) ≡ load m (closed_at offset)
    → is_closed m' offset ≡ is_closed m offset
unfolding is_closed
closed_word m m' offset e = rw e

-- Where stdout and stderr have one counted transmit end each and their headers lie apart,
-- `parent_handles` closes both pipes, and the next write to each of them fails.
pub parent_handles_closes :
    (m : Memory) (i o e capacity : ℕ) (bytes : List ℕ)
    → load m (tx_count_at o) ≡ 1
    → load m (tx_count_at e) ≡ 1
    → (o + header_size ≤ e) ⊎ (e + header_size ≤ o)
    → let size = capacity + header_size in
      let s = child_from_offsets ((i, size), (o, size), (e, size)) in
      let m' = (parent_handles m s).3 in
      (write_data m' (tx_end o capacity) bytes ≡ (err broken_pipe, m'))
      × (write_data m' (tx_end e capacity) bytes ≡ (err broken_pipe, m'))
parent_handles_closes m i o e capacity bytes co ce apart =
    rw same
      (closed_write m₂ o capacity bytes closed_out, closed_write m₂ e capacity bytes closed_err)
  where
    size : ℕ
    size = capacity + header_size

    m₁ : Memory
    m₁ = drop_tx m (tx_end e capacity)

    m₂ : Memory
    m₂ = drop_tx m₁ (tx_end o capacity)

    same : (parent_handles m (child_from_offsets ((i, size), (o, size), (e, size)))).3 ≡ m₂
    same = unfold parent_handles child_from_offsets drop_tx in refl

    closed_out : is_closed m₂ o ≡ true
    closed_out =
        (leave_lem m₁ o capacity 0 (drop_tx_word m e capacity (tx_count_at o) (ground arith) ∙ co)
          (omega arith)).1

    closed_err : is_closed m₂ e ≡ true
    closed_err =
        closed_word m₁ m₂ e (drop_tx_word m₁ o capacity (closed_at e) (ground arith))
        ∙ (leave_lem m e capacity 0 ce (omega arith)).1

-- Where one transmit end of stdin is counted, the parent's, `child_handles` closes this pipe, and
-- the parent's next write fails.
pub child_handles_closes :
    (m : Memory) (i o e capacity : ℕ) (bytes : List ℕ)
    → load m (tx_count_at i) ≡ 1
    → let size = capacity + header_size in
      let s = child_from_offsets ((i, size), (o, size), (e, size)) in
      let m' = (child_handles m s).3 in
      write_data m' (tx_end i capacity) bytes ≡ (err broken_pipe, m')
child_handles_closes m i o e capacity bytes ci = rw same (
    closed_write (drop_tx m (tx_end i capacity)) i capacity bytes
      (leave_lem m i capacity 0 ci (omega arith)).1)
  where
    size : ℕ
    size = capacity + header_size

    same :
        (child_handles m (child_from_offsets ((i, size), (o, size), (e, size)))).3
        ≡ drop_tx m (tx_end i capacity)
    same = unfold child_handles child_from_offsets drop_tx in refl

-- The child's pipes lie where the parent's do.
pub child_offsets_back : (p : Place × Place × Place) → child_offsets (child_from_offsets p) ≡ p
unfolding child_offsets child_from_offsets
child_offsets_back p = refl
