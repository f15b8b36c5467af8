-- ===== src/Pipe/Write.antt =====
-- `write_data` against the queue: what it stores, what it leaves alone, what it answers.
use native.Mathlib.Nat.{mod-lt}
use wasmer_js.Prelude.{
  ℕ, ◌+◌, ◌-◌, ◌%◌, ◌≤◌, ◌<◌, min, ◌≡◌, refl, sym, ap, ap₂, ◌∙◌, ◌⊎◌, inl, inr, List, [], ◌∷◌, ◌++◌,
  arith, ◌==◌, length, take, get_or, length-take, get_or-take, true, false, Bool-cases, ◌≢◌, ==→eq,
  ==→ne, eq→==, ne→==, take-min,
}
use wasmer_js.Memory.{Memory, load, load}
use wasmer_js.Memory.Laws.{load_eq}
use wasmer_js.Pipe.{
  header_size, write_pos_at, read_pos_at, closed_at, tx_count_at, is_closed, free_space, write_data,
  data_available, Result, ok, err, broken_pipe, would_block,
}
use wasmer_js.Pipe.Ring.{slice, slice-add, slice_ext, slice_mod, slice_of_bytes, mod_turn}
use wasmer_js.Pipe.Space.{
  IsPipe, tx_end, rx_end, contents, length-contents, data_available_turn, free_space_lem,
  end_position, held_position,
}
use wasmer_js.Pipe.Chunks.{Wrote, moved_on-Wrote}
use wasmer_js.Pipe.Queue

module _ (m m' : Memory) (offset capacity n : ℕ) (bytes : List ℕ) (v : IsPipe m offset capacity)
    (wrote : Wrote m offset capacity n bytes m') (enough : n ≤ length bytes)
    (fits : n ≤ free_space m (tx_end offset capacity)) where
  same_word : (a : ℕ) → 4 ≤ a → a + 4 ≤ header_size → load m' (offset + a) ≡ load m (offset + a)
  same_word a h l =
      load_eq m' m (offset + a) (wrote.outside _ (inr (inl (omega arith))))
        (wrote.outside _ (inr (inl (omega arith)))) (wrote.outside _ (inr (inl (omega arith))))
        (wrote.outside _ (inr (inl (omega arith))))

  pub same_read_pos : load m' (read_pos_at offset) ≡ load m (read_pos_at offset)
  same_read_pos = same_word 4 (omega arith) (omega arith)

  pub Wrote-IsPipe : IsPipe m' offset capacity
  Wrote-IsPipe = record {
    positive = v.positive;
    inside = v.inside;
    write_in = rw wrote.moved (mod-lt (load m (write_pos_at offset) + n) {m = capacity} v.positive);
    read_in = rw same_read_pos v.read_in;
  }

  pub Wrote-data_available :
      data_available m' (rx_end offset capacity) ≡ data_available m (rx_end offset capacity) + n
  Wrote-data_available = omega (
    arith,
    data_available_turn m offset capacity v,
    data_available_turn m' offset capacity Wrote-IsPipe,
    free_space_lem m offset capacity v,
    free_space_lem m' offset capacity Wrote-IsPipe,
    same_read_pos,
    wrote.moved,
    mod_turn (load m (write_pos_at offset)) n capacity v.write_in
        (omega (arith, free_space_lem m offset capacity v)),
  )

  -- The bytes go to the end of the queue.
  pub Wrote-contents : contents m' offset capacity ≡ contents m offset capacity ++ take n bytes
  Wrote-contents =
      ap₂ (slice new capacity) same_read_pos Wrote-data_available
      ∙ slice-add new capacity r held n
      ∙ ap₂ ◌++◌ (slice_ext new old capacity r held kept) (
          slice_mod new capacity (r + held) w n position
          ∙ ap (slice new capacity w) (sym taken)
          ∙ slice_of_bytes new capacity (take n bytes) w added)
    where
      new : ℕ → ℕ
      new = λ i. m' (offset + header_size + i)

      old : ℕ → ℕ
      old = λ i. m (offset + header_size + i)

      r : ℕ
      r = load m (read_pos_at offset)

      w : ℕ
      w = load m (write_pos_at offset)

      held : ℕ
      held = data_available m (rx_end offset capacity)

      taken : length (take n bytes) ≡ n
      taken = omega (arith, length-take n bytes)

      position : (r + held) % capacity ≡ w % capacity
      position = end_position m offset capacity v

      kept : (k : ℕ) → k < held → new ((r + k) % capacity) ≡ old ((r + k) % capacity)
      kept k h =
          let place = held_position m offset capacity k v h in
          let room = free_space_lem m offset capacity v in
          ap new place
          ∙ wrote.at_other (k + (capacity - held)) (omega arith) (omega arith)
          ∙ ap old (sym place)

      added :
          (k : ℕ) → k < length (take n bytes) → new ((w + k) % capacity) ≡ get_or (take n bytes) k 0
      added k h =
          wrote.at_self k (omega (arith, taken))
          ∙ sym (get_or-take n k bytes 0 (omega (arith, taken)))

-- The four ways in which a write ends.
pub data Outcome (m : Memory) (offset capacity : ℕ) (bytes : List ℕ)
    : Result ℕ × Memory → Type 0 where
  refused : is_closed m offset ≡ true → Outcome m offset capacity bytes (err broken_pipe, m)
  nothing : is_closed m offset ≡ false → bytes ≡ [] → Outcome m offset capacity bytes (ok 0, m)
  full :
      is_closed m offset ≡ false
      → bytes ≢ []
      → free_space m (tx_end offset capacity) ≡ 0
      → Outcome m offset capacity bytes (err would_block, m)
  took :
      (n : ℕ) (m' : Memory)
      → is_closed m offset ≡ false
      → bytes ≢ []
      → free_space m (tx_end offset capacity) ≢ 0
      → n ≡ min (length bytes) (free_space m (tx_end offset capacity))
      → Wrote m offset capacity n bytes m'
      → Outcome m offset capacity bytes (ok n, m')

write_data-Outcome :
    (m : Memory) (offset capacity : ℕ) (bytes : List ℕ)
    → IsPipe m offset capacity
    → Outcome m offset capacity bytes (write_data m (tx_end offset capacity) bytes)
unfolding write_data
write_data-Outcome m offset capacity [] v = elim (Bool-cases (is_closed m offset)) [
  | inl c ↦ rw c (refused c)
  | inr c ↦ rw c (nothing c refl)
]
write_data-Outcome m offset capacity (x ∷ xs) v = elim (Bool-cases (is_closed m offset)) [
  | inl c ↦ rw c (refused c)
  | inr c ↦ rw c (elim (Bool-cases (free_space m (tx_end offset capacity) == 0)) [
    | inl z ↦ rw z (full c (λ e. cc) (==→eq _ _ z))
    | inr z ↦ rw z (
        took _ _ c (λ e. cc) (==→ne _ _ z) refl
          (moved_on-Wrote m offset capacity
            (min (length (x ∷ xs)) (free_space m (tx_end offset capacity))) (x ∷ xs) v (omega arith)
            (omega (arith, free_space_lem m offset capacity v))))
  ])
]

free_length :
    (m : Memory) (offset capacity : ℕ)
    → IsPipe m offset capacity
    → capacity - 1 - length (contents m offset capacity) ≡ free_space m (tx_end offset capacity)
free_length m offset capacity v =
    omega (arith, free_space_lem m offset capacity v, length-contents m offset capacity)

Outcome-refines :
    (m : Memory) (offset capacity : ℕ) (bytes : List ℕ) {r : Result ℕ × Memory}
    → IsPipe m offset capacity
    → Outcome m offset capacity bytes r
    → (r.0, contents r.1 offset capacity)
      ≡ Queue.write capacity (is_closed m offset) (contents m offset capacity) bytes
unfolding Queue.write
Outcome-refines m offset capacity bytes v (refused c) = rw c
Outcome-refines m offset capacity bytes v (nothing c e) = rw (c, e)
Outcome-refines m offset capacity [] v (full c ne z) = absurd (ne refl)
Outcome-refines m offset capacity (x ∷ xs) v (full c ne z) = rw (
  c,
  eq→== (capacity - 1 - length (contents m offset capacity)) 0
      (free_length m offset capacity v ∙ z),
)
Outcome-refines m offset capacity [] v (took n m' c ne nz e wrote) = absurd (ne refl)
Outcome-refines m offset capacity (x ∷ xs) v (took n m' c ne nz e wrote) =
    let size = free_length m offset capacity v in
    rw
      (
        c,
        ne→== (capacity - 1 - length (contents m offset capacity)) 0 (λ z. nz (sym size ∙ z)),
        size,
      )
      (ap₂ (λ (a : ℕ) (q : List ℕ). (let p : Result ℕ × List ℕ = (ok a, q) in p)) e
        (Wrote-contents m m' offset capacity n (x ∷ xs) v wrote (omega arith) (omega arith)
          ∙ ap (λ k. contents m offset capacity ++ take k (x ∷ xs)) e
          ∙ ap (◌++◌ (contents m offset capacity))
              (take-min (free_space m (tx_end offset capacity)) (x ∷ xs))))

-- On a well-formed pipe, `write_data` answers as the bounded queue does, and leaves the pipe
-- holding that queue.
pub write_data_refines :
    (m : Memory) (offset capacity : ℕ) (bytes : List ℕ)
    → IsPipe m offset capacity
    → let r = write_data m (tx_end offset capacity) bytes in
      (r.0, contents r.1 offset capacity)
      ≡ Queue.write capacity (is_closed m offset) (contents m offset capacity) bytes
write_data_refines m offset capacity bytes v =
    Outcome-refines m offset capacity bytes v (write_data-Outcome m offset capacity bytes v)

-- What every write, also one that is refused, leaves as it was.
pub record Frame (m : Memory) (offset capacity : ℕ) (m' : Memory) : Type 0 where
  pub well_formed : IsPipe m' offset capacity
  pub closed_kept : load m' (closed_at offset) ≡ load m (closed_at offset)
  pub tx_count_kept : load m' (tx_count_at offset) ≡ load m (tx_count_at offset)
  pub outside_kept : (b : ℕ) → (b < offset) ⊎ (offset + header_size + capacity ≤ b) → m' b ≡ m b

pub same-Frame :
    (m : Memory) (offset capacity : ℕ) → IsPipe m offset capacity → Frame m offset capacity m
same-Frame m offset capacity v = record {
  well_formed = v;
  closed_kept = refl;
  tx_count_kept = refl;
  outside_kept = λ b h. refl;
}

Outcome-Frame :
    (m : Memory) (offset capacity : ℕ) (bytes : List ℕ) {r : Result ℕ × Memory}
    → IsPipe m offset capacity
    → Outcome m offset capacity bytes r
    → Frame m offset capacity r.1
Outcome-Frame m offset capacity bytes v (refused c) = same-Frame m offset capacity v
Outcome-Frame m offset capacity bytes v (nothing c e) = same-Frame m offset capacity v
Outcome-Frame m offset capacity bytes v (full c ne z) = same-Frame m offset capacity v
Outcome-Frame m offset capacity bytes v (took n m' c ne nz e wrote) =
    let enough : n ≤ length bytes = omega arith in
    let fits : n ≤ free_space m (tx_end offset capacity) = omega arith in
    record {
      well_formed = Wrote-IsPipe m m' offset capacity n bytes v wrote enough fits;
      closed_kept =
          same_word m m' offset capacity n bytes v wrote enough fits 8 (omega arith) (omega arith);
      tx_count_kept =
          same_word m m' offset capacity n bytes v wrote enough fits 16 (omega arith) (omega arith);
      outside_kept = λ b h. wrote.outside b (ground arith);
    }

-- A write to a well-formed pipe keeps it well formed, its closed flag and its count of writers, and
-- changes no byte outside the pipe's own region.
pub write_data-Frame :
    (m : Memory) (offset capacity : ℕ) (bytes : List ℕ)
    → IsPipe m offset capacity
    → Frame m offset capacity (write_data m (tx_end offset capacity) bytes).1
write_data-Frame m offset capacity bytes v =
    Outcome-Frame m offset capacity bytes v (write_data-Outcome m offset capacity bytes v)
