-- ===== src/Pipe/Poll/Wake.antt =====
-- When the waiting loops come to an end.
use wasmer_js.Prelude.{
  ℕ, zero, suc, ◌%◌, ◌++◌, min, length, drop, ◌≡◌, refl, ◌⊎◌, inl, inr, false, List, [], ◌∷◌, none,
  some, ◌==◌, Bool-cases, eq→==, ==→eq,
}
use wasmer_js.Memory.{Memory, load, store, add32}
use wasmer_js.Pipe.{SharedPipeRx, is_closed, data_available, try_read, read_chunks, read_pos_at}
use wasmer_js.Pipe.Poll.{
  Round, pending, read_blocking, poll_read_loop, poll_read, max_wait_iterations,
}

-- The pipe is open and holds nothing: a read would block.
abbrev pub IsBlocked : Memory → SharedPipeRx → Type 0
IsBlocked m rx = (is_closed m rx.pool_offset ≡ false) × (data_available m rx ≡ 0)

pub blocked_lem :
    (m : Memory) (rx : SharedPipeRx) (buf : List ℕ)
    → IsBlocked m rx
    → try_read m rx buf ≡ (none, buf, m)
unfolding try_read
blocked_lem m rx buf h = rw (eq→== _ _ h.1, h.0)

-- A read that does not block is answered.
pub answered_lem :
    (m : Memory) (rx : SharedPipeRx) (buf : List ℕ)
    → IsBlocked m rx
      ⊎ ((n : ℕ) × (b : List ℕ) × (m' : Memory) × (try_read m rx buf ≡ (some n, b, m')))
unfolding try_read
answered_lem m rx buf = elim (Bool-cases (data_available m rx == 0)) [
  | inl z ↦ elim (Bool-cases (is_closed m rx.pool_offset)) [
    | inl c ↦ inr (0, buf, m, rw (z, c))
    | inr c ↦ inl (c, ==→eq _ _ z)
  ]
  | inr z ↦
      let available = data_available m rx in
      let to_read = min (length buf) available in
      let read_pos = load m (read_pos_at rx.pool_offset) in
      inr (
        to_read,
        read_chunks m rx read_pos to_read ++ drop to_read buf,
        store m (read_pos_at rx.pool_offset) (add32 read_pos to_read % rx.data_capacity),
        rw z,
      )
]

-- The pipe is blocked in every round, and not closed in any when the reader looks.
abbrev pub Sleeps : List Round → Memory → SharedPipeRx → Type 0
Sleeps [] m rx = IsBlocked m rx
Sleeps (r ∷ rounds) m rx =
    IsBlocked m rx
    × (is_closed (r.checking m) rx.pool_offset ≡ false)
    × Sleeps rounds (r.waiting (r.checking m)) rx

blocked_through :
    (rounds : List Round) (m : Memory) (rx : SharedPipeRx) (buf : List ℕ)
    → Sleeps rounds m rx
    → read_blocking rounds m rx buf ≡ none
unfolding read_blocking
blocked_through [] m rx buf s = rw (blocked_lem m rx buf s)
blocked_through (r ∷ rounds) m rx buf s =
    rw (blocked_lem m rx buf s.0, s.1)
      (blocked_through rounds (r.waiting (r.checking m)) rx buf s.2)

slept :
    (rounds : List Round) (m : Memory) (rx : SharedPipeRx) (buf : List ℕ)
    → read_blocking rounds m rx buf ≡ none
    → Sleeps rounds m rx
unfolding read_blocking
slept [] m rx buf e = elim (answered_lem m rx buf) [
  | inl b ↦ b
  | inr (n, b, m', t) ↦ let h = rw t at e in cc
]
slept (r ∷ rounds) m rx buf e = elim (answered_lem m rx buf) [
  | inl b ↦ elim (Bool-cases (is_closed (r.checking m) rx.pool_offset)) [
    | inl c ↦ let h = rw (blocked_lem m rx buf b, c) at e in cc
    | inr c ↦
        (b, c, slept rounds (r.waiting (r.checking m)) rx buf (rw (blocked_lem m rx buf b, c) at e))
  ]
  | inr (n, b, m', t) ↦ let h = rw t at e in cc
]

-- `read_blocking` waits on through all the rounds exactly if in each of them the pipe is empty and
-- open when the read is tried and open when the flag is looked at; so the first round in which there
-- is data or an end ends the wait.
pub read_blocking_waits :
    (rounds : List Round) (m : Memory) (rx : SharedPipeRx) (buf : List ℕ)
    → (read_blocking rounds m rx buf ≡ none → Sleeps rounds m rx)
      × (Sleeps rounds m rx → read_blocking rounds m rx buf ≡ none)
read_blocking_waits rounds m rx buf = (slept rounds m rx buf, blocked_through rounds m rx buf)

-- The same for the `k` rounds that a poll has left.
unfoldable pub SleepsFor : ℕ → (ℕ → Round) → Memory → SharedPipeRx → Type 0
SleepsFor zero env m rx = Unit {0}
SleepsFor (suc k) env m rx =
    IsBlocked m rx
    × (is_closed ((env k).checking m) rx.pool_offset ≡ false)
    × SleepsFor k env ((env k).waiting ((env k).checking m)) rx

poll_sleeps :
    (k : ℕ) (env : ℕ → Round) (m : Memory) (rx : SharedPipeRx) (buf : List ℕ)
    → SleepsFor k env m rx
    → poll_read_loop k env m rx buf ≡ pending
unfolding poll_read_loop SleepsFor
poll_sleeps zero env m rx buf s = refl
poll_sleeps (suc k) env m rx buf s =
    rw (blocked_lem m rx buf s.0, s.1)
      (poll_sleeps k env ((env k).waiting ((env k).checking m)) rx buf s.2)

poll_slept :
    (k : ℕ) (env : ℕ → Round) (m : Memory) (rx : SharedPipeRx) (buf : List ℕ)
    → poll_read_loop k env m rx buf ≡ pending
    → SleepsFor k env m rx
unfolding poll_read_loop SleepsFor
poll_slept zero env m rx buf e = tt
poll_slept (suc k) env m rx buf e = elim (answered_lem m rx buf) [
  | inl b ↦ elim (Bool-cases (is_closed ((env k).checking m) rx.pool_offset)) [
    | inl c ↦ let h = rw (blocked_lem m rx buf b, c) at e in cc
    | inr c ↦ (
      b,
      c,
      poll_slept k env ((env k).waiting ((env k).checking m)) rx buf
          (rw (blocked_lem m rx buf b, c) at e),
    )
  ]
  | inr (n, b, m', t) ↦ let h = rw t at e in cc
]

-- `poll_read` is pending exactly if the pipe stays empty and open through all its 200 rounds.
pub poll_read_pending :
    (env : ℕ → Round) (m : Memory) (rx : SharedPipeRx) (buf : List ℕ)
    → (poll_read env m rx buf ≡ pending → SleepsFor max_wait_iterations env m rx)
      × (SleepsFor max_wait_iterations env m rx → poll_read env m rx buf ≡ pending)
unfolding poll_read
poll_read_pending env m rx buf =
    (poll_slept max_wait_iterations env m rx buf, poll_sleeps max_wait_iterations env m rx buf)
