-- ===== src/Pipe/Poll/EndOfFile.antt =====
-- When a blocking read that returns no bytes has really come to the end of the file.
use wasmer_js.Prelude.{
  ℕ, ◌-◌, ◌≤◌, ◌≡◌, ◌≢◌, refl, ap, ap₂, ◌∙◌, ◌⊎◌, inl, inr, true, false, List, [], ◌∷◌, Option,
  none, some, arith, Bool-cases, length, take-all, nil_of_length, ne→==,
}
use wasmer_js.Memory.{Memory}
use wasmer_js.Pipe.{SharedPipeRx, is_closed, data_available, try_read, write_data, close, Result}
use wasmer_js.Pipe.Space.{IsPipe, tx_end, rx_end, contents, length-contents}
use wasmer_js.Pipe.Write.{write_data_refines}
use wasmer_js.Pipe.Close.{contents-close, is_closed-close}
use wasmer_js.Pipe.Queue
use wasmer_js.Pipe.Poll.{Round, or_else, read_blocking}
use wasmer_js.Pipe.Poll.Wake.{IsBlocked, blocked_lem}

-- If the pipe is closed when the flag is looked at, nothing was written since the failed read.
abbrev pub AreHonest : List Round → SharedPipeRx → Type 0
AreHonest [] rx = Unit {0}
AreHonest (r ∷ rounds) rx =
    ((m : Memory)
      → is_closed (r.checking m) rx.pool_offset ≡ true
      → data_available (r.checking m) rx ≡ data_available m rx)
    × AreHonest rounds rx

abbrev IsAtEnd : Memory → SharedPipeRx → Type 0
IsAtEnd m rx = (is_closed m rx.pool_offset ≡ true) × (data_available m rx ≡ 0)

-- A read that is answered by 0 bytes into a buffer with room.
try_read_zero :
    (m : Memory) (rx : SharedPipeRx) (buf b : List ℕ) (m' : Memory)
    → buf ≢ []
    → try_read m rx buf ≡ (some 0, b, m')
    → IsAtEnd m rx × (m' ≡ m)
unfolding try_read
try_read_zero m rx [] b m' ne e = absurd (ne refl)
try_read_zero m rx (x ∷ xs) b m' ne e = ground arith

abbrev as_answer : Option (ℕ × List ℕ × Memory) → Option ℕ × List ℕ × Memory
as_answer none = (none, [], λ _. 0)
as_answer (some (n, b, m)) = (some n, b, m)

-- Where a loop's result comes from: the read, or the rest of the loop.
or_else-some :
    (t : Option ℕ × List ℕ × Memory) (more : Option (ℕ × List ℕ × Memory)) (a : ℕ × List ℕ × Memory)
    → or_else t some more ≡ some a
    → (t ≡ as_answer (some a)) ⊎ ((t.0 ≡ none) × (more ≡ some a))
or_else-some (some n, b, m) more a e = inl (ap as_answer e)
or_else-some (none, b, m) more a e = inr (refl, e)

at_end :
    (m : Memory) (rx : SharedPipeRx) (buf b : List ℕ) (m' : Memory)
    → buf ≢ []
    → try_read m rx buf ≡ (some 0, b, m')
    → IsAtEnd m' rx
at_end m rx buf b m' ne t = let z = try_read_zero m rx buf b m' ne t in rw (z.1) z.0

empty_of_none :
    (m : Memory) (rx : SharedPipeRx) (buf : List ℕ)
    → (try_read m rx buf).0 ≡ none
    → data_available m rx ≡ 0
unfolding try_read
empty_of_none m rx buf e = ground arith

-- Where no worker writes and then closes the pipe between a failed read and the look at the flag, a
-- blocking read into a non-empty buffer that returns 0 bytes has found the pipe closed and empty.
pub read_blocking_eof :
    (rounds : List Round) (m : Memory) (rx : SharedPipeRx) (buf b : List ℕ) (m' : Memory)
    → AreHonest rounds rx
    → buf ≢ []
    → read_blocking rounds m rx buf ≡ some (0, b, m')
    → (is_closed m' rx.pool_offset ≡ true) × (data_available m' rx ≡ 0)
unfolding read_blocking
read_blocking_eof [] m rx buf b m' h ne e =
    elim (or_else-some (try_read m rx buf) none (0, b, m') e) [
      | inl t ↦ at_end m rx buf b m' ne t
      | inr (_, t) ↦ cc
    ]
read_blocking_eof (r ∷ rounds) m rx buf b m' h ne e =
    elim (or_else-some (try_read m rx buf) _ (0, b, m') e) [
      | inl t ↦ at_end m rx buf b m' ne t
      | inr (z, t) ↦ elim (Bool-cases (is_closed (r.checking m) rx.pool_offset)) [
        | inl c ↦
            let shut : IsAtEnd (r.checking m) rx = (c, h.0 m c ∙ empty_of_none m rx buf z) in
            let same : r.checking m ≡ m' =
              ap (λ (o : Option (ℕ × List ℕ × Memory)). (as_answer o).2) (rw c at t) in
            rw same at shut
        | inr c ↦ read_blocking_eof rounds (r.waiting (r.checking m)) rx buf b m' h.1 ne (rw c at t)
      ]
    ]

write_all :
    (capacity : ℕ) (bytes : List ℕ)
    → bytes ≢ []
    → length bytes ≤ capacity - 1
    → (Queue.write capacity false [] bytes).1 ≡ bytes
unfolding Queue.write
write_all capacity [] ne fits = refl
write_all capacity (x ∷ xs) ne fits =
    rw (ne→== (capacity - 1 - 0) 0 (omega arith))
      (take-all (capacity - 1 - 0) (x ∷ xs) (omega arith))

-- Otherwise the end may be reported while there is still something to read. In a well-formed pipe
-- that is open and empty, a worker writes `bytes`, some that fit, and closes the pipe just after a
-- read has failed: the read returns 0 bytes and leaves all of `bytes` in the pipe.
pub read_blocking_race :
    (m : Memory) (offset capacity : ℕ) (bytes buf : List ℕ) (waiting : Memory → Memory)
    (rounds : List Round)
    → IsPipe m offset capacity
    → IsBlocked m (rx_end offset capacity)
    → bytes ≢ []
    → length bytes ≤ capacity - 1
    → let late = λ (n : Memory). close (write_data n (tx_end offset capacity) bytes).1 offset in
      let late_round : Round = record { checking = late; waiting = waiting } in
      (read_blocking (late_round ∷ rounds) m (rx_end offset capacity) buf ≡ some (0, buf, late m))
      × (contents (late m) offset capacity ≡ bytes)
unfolding read_blocking
read_blocking_race m offset capacity bytes buf waiting rounds v blocked ne fits = (
  rw (
    blocked_lem m (rx_end offset capacity) buf blocked,
    is_closed-close (write_data m (tx_end offset capacity) bytes).1 offset,
  ),
  contents-close (write_data m (tx_end offset capacity) bytes).1 offset capacity ∙ written,
)
  where
    queue : contents m offset capacity ≡ []
    queue = nil_of_length _ (length-contents m offset capacity ∙ blocked.1)

    written : contents (write_data m (tx_end offset capacity) bytes).1 offset capacity ≡ bytes
    written =
        ap (λ (p : Result ℕ × List ℕ). p.1) (write_data_refines m offset capacity bytes v)
        ∙ ap₂ (λ c q. (Queue.write capacity c q bytes).1) blocked.0 queue
        ∙ write_all capacity bytes ne fits
