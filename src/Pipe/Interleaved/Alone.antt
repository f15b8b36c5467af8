-- ===== src/Pipe/Interleaved/Alone.antt =====
-- The steps of a call, with no step of the other end between them, are the call.
use wasmer_js.Prelude.{
  ℕ, min, ◌≡◌, refl, sym, ap, ◌∙◌, inl, inr, List, [], ◌∷◌, arith, length, take, drop, Option, none,
  some, Bool-cases, Option-cases, ◌==◌, ==→eq, ==→ne, eq→==, ne→==, take_append_exact, length-take,
}
use wasmer_js.Memory.{Memory, load}
use wasmer_js.Pipe.{
  SharedPipeTx, SharedPipeRx, read_pos_at, Result, is_closed, free_space, data_available,
  write_chunks, read_chunks, write_data, try_read,
}
use wasmer_js.Pipe.Space.{IsPipe, tx_end, rx_end, contents, length-contents}
use wasmer_js.Pipe.Read.{chunks_taken}
use wasmer_js.Pipe.Stream.{accepted_of, received_of}
use wasmer_js.Pipe.Interleaved.{
  State, Turn, writing, reading, write_turn, read_turn, look_write, commit_write, look_read,
  commit_read, begin_write, begin_read, step_writer, step_reader, step, run, at_rest,
}

-- The bytes that a write took and the memory that it left.
abbrev pub write_result : List ℕ → Result ℕ × Memory → List ℕ × Memory
write_result bytes r = (accepted_of bytes r.0, r.1)

-- The bytes that a read handed over and the memory that it left.
abbrev pub read_result : Option ℕ × List ℕ × Memory → List ℕ × Memory
read_result o = (received_of o.0 o.1, o.2)

-- The bytes taken and the memory behind the steps.
abbrev after_write : Memory → SharedPipeTx → List ℕ → Option (ℕ × ℕ) → List ℕ × Memory
after_write m tx bytes none = ([], m)
after_write m tx bytes (some (w, n)) =
    (take n bytes, commit_write (write_chunks m tx w n bytes) tx w n)

write_data-after :
    (m : Memory) (tx : SharedPipeTx) (bytes : List ℕ)
    → let r = write_data m tx bytes in
      (accepted_of bytes r.0, r.1) ≡ after_write m tx bytes (look_write m tx bytes)
unfolding write_data look_write commit_write
write_data-after m tx [] = elim (Bool-cases (is_closed m tx.pool_offset)) [
  | inl c ↦ rw c refl
  | inr c ↦ rw (c, eq→== (min 0 (free_space m tx)) 0 (omega arith)) refl
]
write_data-after m tx (x ∷ xs) = elim (Bool-cases (is_closed m tx.pool_offset)) [
  | inl c ↦ rw c refl
  | inr c ↦ rw c (elim (Bool-cases (free_space m tx == 0)) [
    | inl z ↦
        rw
          (
            z,
            eq→== (min (length (x ∷ xs)) (free_space m tx)) 0
                (omega (arith, ==→eq (free_space m tx) 0 z)),
          )
          refl
    | inr z ↦
        rw
          (
            z,
            ne→== (min (length (x ∷ xs)) (free_space m tx)) 0
                (λ e. ==→ne (free_space m tx) 0 z (omega arith)),
          )
          refl
  ])
]

abbrev pub three_writes : List ℕ → List Turn
three_writes bytes = write_turn bytes ∷ write_turn bytes ∷ write_turn bytes ∷ []

write_looks :
    (m : Memory) (tx : SharedPipeTx) (rx : SharedPipeRx) (bytes : List ℕ) (o : Option (ℕ × ℕ))
    → look_write m tx bytes ≡ o
    → step tx rx (at_rest m) (write_turn bytes)
      ≡ record (at_rest m) { writer = begin_write o bytes }
unfolding step step_writer
write_looks m tx rx bytes o e =
    ap (λ (p : Option (ℕ × ℕ)). record (at_rest m) { writer = begin_write p bytes }) e

write_steps :
    (m : Memory) (tx : SharedPipeTx) (rx : SharedPipeRx) (bytes : List ℕ)
    → let s = run tx rx (at_rest m) (three_writes bytes) in
      (s.accepted, s.memory) ≡ after_write m tx bytes (look_write m tx bytes)
write_steps m tx rx bytes = elim (Option-cases (look_write m tx bytes)) [
  | inl e ↦ rw e (
      ap (λ (s : State). (let p : List ℕ × Memory = (s.accepted, s.memory) in p))
        (rests (write_looks m tx rx bytes none e)))
  | inr ((w, n), e) ↦ rw e (
      ap (λ (s : State). (let p : List ℕ × Memory = (s.accepted, s.memory) in p))
        (goes_on w n (write_looks m tx rx bytes (some (w, n)) e)))
]
  where
    rests :
        step tx rx (at_rest m) (write_turn bytes) ≡ at_rest m
        → run tx rx (at_rest m) (three_writes bytes) ≡ at_rest m
    rests e =
        unfold run in
        ap (λ s. step tx rx (step tx rx s (write_turn bytes)) (write_turn bytes)) e
        ∙ ap (λ s. step tx rx s (write_turn bytes)) e
        ∙ e

    goes_on :
        (w n : ℕ)
        → step tx rx (at_rest m) (write_turn bytes)
          ≡ record (at_rest m) { writer = writing w n bytes }
        → run tx rx (at_rest m) (three_writes bytes) ≡ record (at_rest m) {
          memory = commit_write (write_chunks m tx w n bytes) tx w n;
          accepted = take n bytes;
        }
    goes_on w n e =
        unfold run in
        ap (λ s. step tx rx (step tx rx s (write_turn bytes)) (write_turn bytes)) e
        ∙ (unfold step in unfold step_writer in refl)

-- The bytes handed over and the memory behind the steps of a read.
abbrev after_read : Memory → SharedPipeRx → Option (ℕ × ℕ) → List ℕ × Memory
after_read m rx none = ([], m)
after_read m rx (some (r, n)) = (read_chunks m rx r n, commit_read m rx r n)

try_read-after :
    (m : Memory) (offset capacity : ℕ) (buf : List ℕ)
    → IsPipe m offset capacity
    → let rx = rx_end offset capacity in
      let o = try_read m rx buf in
      (received_of o.0 o.1, o.2) ≡ after_read m rx (look_read m rx (length buf))
unfolding try_read look_read commit_read
try_read-after m offset capacity buf v =
    let rx = rx_end offset capacity in
    elim (Bool-cases (data_available m rx == 0)) [
      | inl z ↦
          rw z (elim (Bool-cases (is_closed m offset)) [ inl c ↦ rw c refl | inr c ↦ rw c refl ])
      | inr z ↦
          let n = min (length buf) (data_available m rx) in
          rw z (
            ap
              (λ (xs : List ℕ).
                (let p : List ℕ × Memory = (xs, commit_read m rx (load m (read_pos_at offset)) n) in
                  p))
              (take_append_exact n (read_chunks m rx (load m (read_pos_at offset)) n) (drop n buf) (
                omega (
                  arith,
                  ap length (chunks_taken m offset capacity n v (omega arith)),
                  length-take n (contents m offset capacity),
                  length-contents m offset capacity,
                ))))
    ]

abbrev pub three_reads : ℕ → List Turn
three_reads buf_len = read_turn buf_len ∷ read_turn buf_len ∷ read_turn buf_len ∷ []

read_looks :
    (m : Memory) (tx : SharedPipeTx) (rx : SharedPipeRx) (buf_len : ℕ) (o : Option (ℕ × ℕ))
    → look_read m rx buf_len ≡ o
    → step tx rx (at_rest m) (read_turn buf_len) ≡ record (at_rest m) { reader = begin_read o }
unfolding step step_reader
read_looks m tx rx buf_len o e =
    ap (λ (p : Option (ℕ × ℕ)). record (at_rest m) { reader = begin_read p }) e

read_steps :
    (m : Memory) (tx : SharedPipeTx) (rx : SharedPipeRx) (buf_len : ℕ)
    → let s = run tx rx (at_rest m) (three_reads buf_len) in
      (s.received, s.memory) ≡ after_read m rx (look_read m rx buf_len)
read_steps m tx rx buf_len = elim (Option-cases (look_read m rx buf_len)) [
  | inl e ↦ rw e (
      ap (λ (s : State). (let p : List ℕ × Memory = (s.received, s.memory) in p))
        (rests (read_looks m tx rx buf_len none e)))
  | inr ((r, n), e) ↦ rw e (
      ap (λ (s : State). (let p : List ℕ × Memory = (s.received, s.memory) in p))
        (goes_on r n (read_looks m tx rx buf_len (some (r, n)) e)))
]
  where
    rests :
        step tx rx (at_rest m) (read_turn buf_len) ≡ at_rest m
        → run tx rx (at_rest m) (three_reads buf_len) ≡ at_rest m
    rests e =
        unfold run in
        ap (λ s. step tx rx (step tx rx s (read_turn buf_len)) (read_turn buf_len)) e
        ∙ ap (λ s. step tx rx s (read_turn buf_len)) e
        ∙ e

    goes_on :
        (r n : ℕ)
        → step tx rx (at_rest m) (read_turn buf_len) ≡ record (at_rest m) { reader = reading r n }
        → run tx rx (at_rest m) (three_reads buf_len)
          ≡ record (at_rest m) { memory = commit_read m rx r n; received = read_chunks m rx r n }
    goes_on r n e =
        unfold run in
        ap (λ s. step tx rx (step tx rx s (read_turn buf_len)) (read_turn buf_len)) e
        ∙ (unfold step in unfold step_reader in refl)

-- On a well-formed pipe, three steps of the writer and none of the reader take the bytes that
-- `write_data` takes and leave the memory that it leaves; and three steps of the reader and none of
-- the writer hand over what `try_read` hands over, and leave the memory that it leaves.
pub run_alone :
    (m : Memory) (offset capacity : ℕ) (bytes buf : List ℕ)
    → IsPipe m offset capacity
    → let tx = tx_end offset capacity in
      let rx = rx_end offset capacity in
      let writes = run tx rx (at_rest m) (three_writes bytes) in
      let reads = run tx rx (at_rest m) (three_reads (length buf)) in
      let r = write_data m tx bytes in
      let o = try_read m rx buf in
      ((writes.accepted, writes.memory) ≡ write_result bytes r)
      × ((reads.received, reads.memory) ≡ read_result o)
run_alone m offset capacity bytes buf v =
    let tx = tx_end offset capacity in
    let rx = rx_end offset capacity in
    (
      write_steps m tx rx bytes ∙ sym (write_data-after m tx bytes),
      read_steps m tx rx (length buf) ∙ sym (try_read-after m offset capacity buf v),
    )
