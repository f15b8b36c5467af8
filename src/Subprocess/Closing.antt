-- ===== src/Subprocess/Closing.antt =====
-- What is printed of a subprocess that has ended.
use wasmer_js.Prelude.{
  ℕ, zero, suc, ◌+◌, ◌≤◌, ◌<◌, min, ◌≡◌, ◌⊎◌, refl, sym, ap, ap₂, ◌∙◌, inl, inr, List, [], ◌∷◌,
  ◌++◌, Bool, true, false, ◌&&◌, not, ◌==◌, take, drop, length, arith, take_append_exact,
  length-take, take-nil,
}
use wasmer_js.Memory.{Memory, load}
use wasmer_js.Memory.Laws.{load_eq}
use wasmer_js.Pipe.{header_size, closed_at, write_pos_at, read_pos_at, is_closed, try_read}
use wasmer_js.Pipe.Space.{IsPipe, tx_end, rx_end, contents}
use wasmer_js.Pipe.Ends.{SharedPipe}
use wasmer_js.Pipe.Write.{Frame}
use wasmer_js.Pipe.Read.{try_read_refines, try_read-Frame}
use wasmer_js.Pipe.Queue
use wasmer_js.Pipe.Queue.{read_nonempty}
use wasmer_js.Subprocess.{poll_buffer_size, zeroed, read_bytes, poll_round, poll_output}

-- The pipe as the map of a subprocess's pipes has it.
abbrev pub pipe_ends : ℕ → ℕ → SharedPipe
pipe_ends offset capacity = record { tx = tx_end offset capacity; rx = rx_end offset capacity }

length-zeroed : (n : ℕ) → length (zeroed n) ≡ n
unfolding zeroed
length-zeroed zero = refl
length-zeroed (suc n) = ap suc (length-zeroed n)

taken :
    (queue buf : List ℕ)
    → let n = min (length buf) (length queue) in take n (take n queue ++ drop n buf) ≡ take n queue
taken queue buf =
    let n = min (length buf) (length queue) in
    take_append_exact n (take n queue) (drop n buf) (omega (arith, length-take n queue))

-- What a read into the buffer prints is the front of what the pipe holds.
read_bytes-queue :
    (closed : Bool) (queue buf : List ℕ)
    → let o = Queue.read closed queue buf in
      read_bytes o.0 o.1 ≡ take (min (length buf) (length queue)) queue
unfolding Queue.read
read_bytes-queue true [] buf = sym (take-nil (min (length buf) 0))
read_bytes-queue false [] buf = sym (take-nil (min (length buf) 0))
read_bytes-queue true (x ∷ xs) buf = taken (x ∷ xs) buf
read_bytes-queue false (x ∷ xs) buf = taken (x ∷ xs) buf

-- Work on one pipe leaves the header words of another alone.
load-Frame :
    (m m' : Memory) (a c b d x : ℕ)
    → Frame m a c m'
    → (a + header_size + c ≤ b) ⊎ (b + header_size + d ≤ a)
    → b ≤ x
    → x + 4 ≤ b + header_size
    → load m' x ≡ load m x
load-Frame m m' a c b d x f apart low high =
    load_eq m' m x (f.outside_kept x (beside x apart low (omega arith)))
      (f.outside_kept (x + 1) (beside (x + 1) apart (omega arith) (omega arith)))
      (f.outside_kept (x + 2) (beside (x + 2) apart (omega arith) (omega arith)))
      (f.outside_kept (x + 3) (beside (x + 3) apart (omega arith) (omega arith)))
  where
    beside :
        (y : ℕ)
        → (a + header_size + c ≤ b) ⊎ (b + header_size + d ≤ a)
        → b ≤ y
        → y < b + header_size
        → (y < a) ⊎ (a + header_size + c ≤ y)
    beside y (inl h) l k = inr (omega arith)
    beside y (inr h) l k = inl (omega arith)

is_closed-Frame :
    (m m' : Memory) (a c b d : ℕ)
    → Frame m a c m'
    → (a + header_size + c ≤ b) ⊎ (b + header_size + d ≤ a)
    → is_closed m' b ≡ is_closed m b
unfolding is_closed
is_closed-Frame m m' a c b d f apart =
    ap (λ w. not (w == 0))
      (load-Frame m m' a c b d (closed_at b) f apart (omega arith) (omega arith))

IsPipe-Frame :
    (m m' : Memory) (a c b d : ℕ)
    → Frame m a c m'
    → (a + header_size + c ≤ b) ⊎ (b + header_size + d ≤ a)
    → IsPipe m b d
    → IsPipe m' b d
IsPipe-Frame m m' a c b d f apart v = record {
  positive = v.positive;
  inside = v.inside;
  write_in = omega (
    arith,
    v.write_in,
    load-Frame m m' a c b d (write_pos_at b) f apart (omega arith) (omega arith),
  );
  read_in = omega (
    arith,
    v.read_in,
    load-Frame m m' a c b d (read_pos_at b) f apart (omega arith) (omega arith),
  );
}

own_closed : (m m' : Memory) (a c : ℕ) → Frame m a c m' → is_closed m' a ≡ is_closed m a
unfolding is_closed
own_closed m m' a c f = ap (λ w. not (w == 0)) f.closed_kept

module _ (m : Memory) (o c e d : ℕ) (out_pipe : IsPipe m o c) (err_pipe : IsPipe m e d)
    (apart : (o + header_size + c ≤ e) ⊎ (e + header_size + d ≤ o)) where
  printed :
      (poll_round m (pipe_ends o c) (pipe_ends e d)).stdout
      ≡ take (min poll_buffer_size (length (contents m o c))) (contents m o c)
  unfolding poll_round
  printed =
      ap (λ a. read_bytes a.0 a.1) (try_read_refines m o c (zeroed poll_buffer_size) out_pipe)
      ∙ read_bytes-queue (is_closed m o) (contents m o c) (zeroed poll_buffer_size)
      ∙ ap (λ n. take (min n (length (contents m o c))) (contents m o c))
          (length-zeroed poll_buffer_size)

  ended :
      is_closed m o ≡ true
      → is_closed m e ≡ true
      → (poll_round m (pipe_ends o c) (pipe_ends e d)).last ≡ true
  unfolding poll_round
  ended co ce = ap₂ ◌&&◌ out_closed err_closed
    where
      m₁ : Memory
      m₁ = (try_read m (rx_end o c) (zeroed poll_buffer_size)).2

      m₂ : Memory
      m₂ = (try_read m₁ (rx_end e d) (zeroed poll_buffer_size)).2

      first : Frame m o c m₁
      first = try_read-Frame m o c (zeroed poll_buffer_size) out_pipe

      second : Frame m₁ e d m₂
      second =
          try_read-Frame m₁ e d (zeroed poll_buffer_size)
            (IsPipe-Frame m m₁ o c e d first apart err_pipe)

      flip :
          (o + header_size + c ≤ e) ⊎ (e + header_size + d ≤ o)
          → (e + header_size + d ≤ o) ⊎ (o + header_size + c ≤ e)
      flip (inl h) = inr h
      flip (inr h) = inl h

      out_closed : is_closed m₂ o ≡ true
      out_closed =
          is_closed-Frame m₁ m₂ e d o c second (flip apart) ∙ own_closed m m₁ o c first ∙ co

      err_closed : is_closed m₂ e ≡ true
      err_closed = own_closed m₁ m₂ e d second ∙ is_closed-Frame m m₁ o c e d first apart ∙ ce

-- When both pipes of a subprocess, well formed and apart, are closed, the task ends with its next
-- round, whatever happens later; this round prints of what stdout still holds the first 4096 bytes,
-- and no more.
pub poll_output_closed :
    (m : Memory) (o c e d : ℕ) (waits : List (Memory → Memory))
    → IsPipe m o c
    → IsPipe m e d
    → (o + header_size + c ≤ e) ⊎ (e + header_size + d ≤ o)
    → is_closed m o ≡ true
    → is_closed m e ≡ true
    → let p = poll_output m (pipe_ends o c) (pipe_ends e d) waits in
      (p.0 ≡ take (min poll_buffer_size (length (contents m o c))) (contents m o c)) × (p.2 ≡ true)
unfolding poll_output
poll_output_closed m o c e d [] v w apart co ce =
    (printed m o c e d v w apart, ended m o c e d v w apart co ce)
poll_output_closed m o c e d (wait ∷ waits) v w apart co ce =
    rw (ended m o c e d v w apart co ce) (printed m o c e d v w apart, refl)
