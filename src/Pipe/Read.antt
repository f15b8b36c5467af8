-- ===== src/Pipe/Read.antt =====
-- `try_read` against the queue.
use native.Mathlib.Nat.{mod-lt, mod-eq_of_lt}
use native.Mathlib.Decide.{dec_lt}
use wasmer_js.Prelude.{
  ℕ, zero, suc, ◌+◌, ◌-◌, ◌%◌, ◌≤◌, ◌<◌, min, ◌≡◌, refl, sym, ap, ◌∙◌, inl, inr, List, ◌∷◌, ◌++◌,
  arith, ltb, ◌==◌, if◌then◌else◌, length, take, drop, true, false, Bool-cases, Option, none, some,
  ◌≢◌, ==→eq, ==→ne, lt→ltb, fun_ext, ap₂, nil_of_length,
}
use wasmer_js.Memory.{Memory, load, store, add32, sub32, View, get_index, copy_out}
use wasmer_js.Memory.Laws.{load-store_self, load-store_ne, store_other}
use wasmer_js.Pipe.{
  header_size, write_pos_at, read_pos_at, closed_at, tx_count_at, is_closed, free_space, data_view,
  data_available, read_chunks, try_read,
}
use wasmer_js.Pipe.Ring.{
  slice, slice-add, slice_mod, take-slice, drop-slice, mod_one_turn, mod_turn,
}
use wasmer_js.Pipe.Space.{
  IsPipe, tx_end, rx_end, contents, length-contents, data_available_turn, free_space_lem,
}
use wasmer_js.Pipe.Write.{Frame, same-Frame}
use wasmer_js.Pipe.Queue

-- A copy that does not reach the end of the view reads a slice of the ring.
copy_out-slice :
    (m : Memory) (v : View) (i n : ℕ)
    → i + n ≤ v.count
    → copy_out m v i n ≡ slice (λ j. m (v.base + j)) v.count i n
unfolding copy_out get_index slice
copy_out-slice m v i zero h = refl
copy_out-slice m v i (suc n) h =
    ap₂ ◌∷◌ (first (omega arith)) (copy_out-slice m v (i + 1) n (omega arith))
  where
    first : i < v.count → (if ltb i v.count then m (v.base + i) else 0) ≡ m (v.base + i % v.count)
    first l = rw (lt→ltb i v.count l, mod-eq_of_lt l)

-- The two loops of `try_read` read a slice, also where it goes round the end.
chunks-slice :
    (m : Memory) (v : View) (r n c₁ c₂ : ℕ)
    → c₁ ≡ min (v.count - r) n
    → c₂ ≡ n - c₁
    → r < v.count
    → n ≤ v.count
    → copy_out m v r c₁ ++ copy_out m v 0 c₂ ≡ slice (λ j. m (v.base + j)) v.count r n
chunks-slice m v r n c₁ c₂ e₁ e₂ h k =
    ap₂ ◌++◌ (copy_out-slice m v r c₁ (omega arith))
      (copy_out-slice m v 0 c₂ (omega arith) ∙ second)
    ∙ sym (slice-add f v.count r c₁ c₂)
    ∙ ap (slice f v.count r) (omega arith)
  where
    f : ℕ → ℕ
    f = λ j. m (v.base + j)

    second : slice f v.count 0 c₂ ≡ slice f v.count (r + c₁) c₂
    second = elim (dec_lt (r + n) v.count) [
      | yes l ↦ let none_left : c₂ ≡ 0 = omega arith in rw none_left (unfold slice in refl)
      | no l ↦
          slice_mod f v.count 0 (r + c₁) c₂
            (sym (mod_one_turn 0 v.count) ∙ ap (λ j. j % v.count) (omega arith))
    ]

-- The pool after a read of `n` bytes.
abbrev pub advanced : Memory → ℕ → ℕ → ℕ → Memory
advanced m offset capacity n =
    store m (read_pos_at offset) (add32 (load m (read_pos_at offset)) n % capacity)

module _ (m : Memory) (offset capacity n : ℕ) (v : IsPipe m offset capacity)
    (fits : n ≤ data_available m (rx_end offset capacity)) where
  abbrev r : ℕ
  r = load m (read_pos_at offset)

  new_pos : load (advanced m offset capacity n) (read_pos_at offset) ≡ (r + n) % capacity
  new_pos =
      let bound = mod-lt (add32 r n) {m = capacity} v.positive in
      load-store_self m (read_pos_at offset) (add32 r n % capacity) (omega arith)
      ∙ ap (λ k. k % capacity) (wide (free_space_lem m offset capacity v))
    where
      wide :
          free_space m (tx_end offset capacity) + data_available m (rx_end offset capacity) + 1
            ≡ capacity
          → add32 r n ≡ r + n
      wide e = omega arith

  pub same_write_pos :
      load (advanced m offset capacity n) (write_pos_at offset) ≡ load m (write_pos_at offset)
  same_write_pos =
      load-store_ne m (read_pos_at offset) (add32 r n % capacity) offset (inl (omega arith))

  pub advanced-IsPipe : IsPipe (advanced m offset capacity n) offset capacity
  advanced-IsPipe = record {
    positive = v.positive;
    inside = v.inside;
    write_in = rw same_write_pos v.write_in;
    read_in = rw new_pos (mod-lt (r + n) {m = capacity} v.positive);
  }

  pub advanced-data_available :
      data_available (advanced m offset capacity n) (rx_end offset capacity) + n
      ≡ data_available m (rx_end offset capacity)
  advanced-data_available = omega (
    arith,
    data_available_turn m offset capacity v,
    data_available_turn (advanced m offset capacity n) offset capacity advanced-IsPipe,
    free_space_lem m offset capacity v,
    free_space_lem (advanced m offset capacity n) offset capacity advanced-IsPipe,
    new_pos,
    same_write_pos,
    mod_turn r n capacity v.read_in (omega (arith, free_space_lem m offset capacity v)),
  )

  pub advanced-contents :
      contents (advanced m offset capacity n) offset capacity ≡ drop n (contents m offset capacity)
  advanced-contents =
      ap (λ g. slice g capacity r' held') (fun_ext same_byte)
      ∙ slice_mod old capacity r' (r + n) held'
          (ap (λ k. k % capacity) new_pos ∙ mod-eq_of_lt (mod-lt (r + n) v.positive))
      ∙ ap (slice old capacity (r + n)) (omega (arith, advanced-data_available))
      ∙ sym (drop-slice old capacity r n (data_available m (rx_end offset capacity)) fits)
    where
      old : ℕ → ℕ
      old = λ i. m (offset + header_size + i)

      r' : ℕ
      r' = load (advanced m offset capacity n) (read_pos_at offset)

      held' : ℕ
      held' = data_available (advanced m offset capacity n) (rx_end offset capacity)

      same_byte : (i : ℕ) → (advanced m offset capacity n) (offset + header_size + i) ≡ old i
      same_byte i =
          store_other m (read_pos_at offset) (add32 r n % capacity) (offset + header_size + i)
            (inr (omega arith))

  pub chunks_taken :
      read_chunks m (rx_end offset capacity) r n ≡ take n (contents m offset capacity)
  unfolding read_chunks
  chunks_taken =
      let room = free_space_lem m offset capacity v in
      chunks-slice m (data_view offset capacity) r n (min (sub32 capacity r) n)
        (sub32 n (min (sub32 capacity r) n)) (omega arith) (omega arith) v.read_in (omega arith)
      ∙ sym (
          take-slice (λ j. m (offset + header_size + j)) capacity r n
            (data_available m (rx_end offset capacity)) fits)

  advanced-Frame : Frame m offset capacity (advanced m offset capacity n)
  advanced-Frame = record {
    well_formed = advanced-IsPipe;
    closed_kept =
        load-store_ne m (read_pos_at offset) (add32 r n % capacity) (closed_at offset)
          (inr (omega arith));
    tx_count_kept =
        load-store_ne m (read_pos_at offset) (add32 r n % capacity) (tx_count_at offset)
          (inr (omega arith));
    outside_kept =
        λ b h. store_other m (read_pos_at offset) (add32 r n % capacity) b (ground arith);
  }

abbrev held : Memory → ℕ → ℕ → ℕ
held m offset capacity = data_available m (rx_end offset capacity)

-- The three ways in which a read ends.
data Outcome (m : Memory) (offset capacity : ℕ) (buf : List ℕ)
    : Option ℕ × List ℕ × Memory → Type 0 where
  at_end :
      is_closed m offset ≡ true
      → held m offset capacity ≡ 0
      → Outcome m offset capacity buf (some 0, buf, m)
  blocked :
      is_closed m offset ≡ false
      → held m offset capacity ≡ 0
      → Outcome m offset capacity buf (none, buf, m)
  took :
      (n : ℕ) (bytes : List ℕ)
      → held m offset capacity ≢ 0
      → n ≡ min (length buf) (held m offset capacity)
      → bytes ≡ take n (contents m offset capacity) ++ drop n buf
      → Outcome m offset capacity buf (some n, bytes, advanced m offset capacity n)

try_read-Outcome :
    (m : Memory) (offset capacity : ℕ) (buf : List ℕ)
    → IsPipe m offset capacity
    → Outcome m offset capacity buf (try_read m (rx_end offset capacity) buf)
unfolding try_read
try_read-Outcome m offset capacity buf v = elim (Bool-cases (held m offset capacity == 0)) [
  | inl z ↦ rw z (elim (Bool-cases (is_closed m offset)) [
    | inl c ↦ rw c (at_end c (==→eq _ _ z))
    | inr c ↦ rw c (blocked c (==→eq _ _ z))
  ])
  | inr z ↦ rw z (
      took (min (length buf) (held m offset capacity)) _ (==→ne _ _ z) refl (
        ap (λ bytes. bytes ++ drop (min (length buf) (held m offset capacity)) buf)
          (chunks_taken m offset capacity (min (length buf) (held m offset capacity)) v
            (omega arith))))
]

Outcome-refines :
    (m : Memory) (offset capacity : ℕ) (buf : List ℕ) {o : Option ℕ × List ℕ × Memory}
    → IsPipe m offset capacity
    → Outcome m offset capacity buf o
    → (o.0, o.1, contents o.2 offset capacity)
      ≡ Queue.read (is_closed m offset) (contents m offset capacity) buf
unfolding Queue.read
Outcome-refines m offset capacity buf v (at_end c z) =
    rw (c, nil_of_length (contents m offset capacity) (length-contents m offset capacity ∙ z))
Outcome-refines m offset capacity buf v (blocked c z) =
    rw (c, nil_of_length (contents m offset capacity) (length-contents m offset capacity ∙ z))
Outcome-refines m offset capacity buf v (took n bytes nz e f) =
    let queue = contents m offset capacity in
    let size = length-contents m offset capacity in
    let count : n ≡ min (length buf) (length queue) = e ∙ ap (min (length buf)) (sym size) in
    rw (
      Queue.read_nonempty (is_closed m offset) queue buf (λ z. nz (sym size ∙ z)),
      ← count,
      advanced-contents m offset capacity n v (omega arith),
      f,
    )

-- On a well-formed pipe, `try_read` answers as the queue does, with the same bytes at the front of
-- the caller's buffer, and leaves the pipe holding the rest.
pub try_read_refines :
    (m : Memory) (offset capacity : ℕ) (buf : List ℕ)
    → IsPipe m offset capacity
    → let o = try_read m (rx_end offset capacity) buf in
      (o.0, o.1, contents o.2 offset capacity)
      ≡ Queue.read (is_closed m offset) (contents m offset capacity) buf
try_read_refines m offset capacity buf v =
    Outcome-refines m offset capacity buf v (try_read-Outcome m offset capacity buf v)

Outcome-Frame :
    (m : Memory) (offset capacity : ℕ) (buf : List ℕ) {o : Option ℕ × List ℕ × Memory}
    → IsPipe m offset capacity
    → Outcome m offset capacity buf o
    → Frame m offset capacity o.2
Outcome-Frame m offset capacity buf v (at_end c z) = same-Frame m offset capacity v
Outcome-Frame m offset capacity buf v (blocked c z) = same-Frame m offset capacity v
Outcome-Frame m offset capacity buf v (took n bytes nz e f) =
    advanced-Frame m offset capacity n v (omega arith)

-- A read of a well-formed pipe keeps it well formed, its closed flag and its count of writers, and
-- changes no byte outside the pipe's own region.
pub try_read-Frame :
    (m : Memory) (offset capacity : ℕ) (buf : List ℕ)
    → IsPipe m offset capacity
    → Frame m offset capacity (try_read m (rx_end offset capacity) buf).2
try_read-Frame m offset capacity buf v =
    Outcome-Frame m offset capacity buf v (try_read-Outcome m offset capacity buf v)
