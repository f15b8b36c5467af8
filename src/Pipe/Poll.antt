-- ===== src/Pipe/Poll.antt =====
-- The loops of src/pipes/mod.rs that wait on the other workers: `read_blocking`, `poll_read` and
-- `poll_read_ready`, and the polls that only translate an answer. What the other workers do to the
-- shared memory while a loop runs is given round by round.
pub mod Wake
pub mod EndOfFile
pub mod Ready
use wasmer_js.Prelude.{
  ℕ, zero, suc, List, [], ◌∷◌, Option, none, some, Bool, ltb, ◌==◌, if◌then◌else◌,
}
use wasmer_js.Memory.{Memory}
use wasmer_js.Pipe.{
  SharedPipeTx, SharedPipeRx, broken_pipe, would_block, invalid_input, Result, ok, err, is_closed,
  free_space, data_available, write_data, try_read,
}

-- What happens in one round of a loop: `checking` between the failed read and the look at the closed
-- flag, `waiting` from there until `Atomics.wait` returns, woken or timed out.
pub record Round : Type 0 where
  pub checking : Memory → Memory
  pub waiting : Memory → Memory

pub data Poll {ℓ} (A : Type ℓ) : Type ℓ where
  ready : A → Poll A
  pending : Poll A

-- A read that got an answer ends the loop.
abbrev pub or_else {ℓ} :
    {A : Type ℓ} → Option ℕ × List ℕ × Memory → (ℕ × List ℕ × Memory → A) → A → A
or_else (some n, buf, m) done more = done (n, buf, m)
or_else (none, buf, m) done more = more

-- `read_blocking` through as many rounds as are given; `none` if it waits on after them.
unfoldable pub read_blocking :
    List Round → Memory → SharedPipeRx → List ℕ → Option (ℕ × List ℕ × Memory)
read_blocking [] m rx buf = or_else (try_read m rx buf) some none
read_blocking (r ∷ rounds) m rx buf =
    let checked = r.checking m in
    let rest = read_blocking rounds (r.waiting checked) rx buf in
    or_else (try_read m rx buf) some
      (if is_closed checked rx.pool_offset then some (0, buf, checked) else rest)

-- `poll_read`, for the number of rounds that is left. `pending` comes with no memory: the last
-- round's is the caller's to look at.
unfoldable pub poll_read_loop :
    ℕ → (ℕ → Round) → Memory → SharedPipeRx → List ℕ → Poll (ℕ × List ℕ × Memory)
poll_read_loop zero env m rx buf = pending
poll_read_loop (suc k) env m rx buf =
    let checked = (env k).checking m in
    let rest = poll_read_loop k env ((env k).waiting checked) rx buf in
    or_else (try_read m rx buf) ready
      (if is_closed checked rx.pool_offset then ready (0, buf, checked) else rest)

abbrev pub max_wait_iterations : ℕ
max_wait_iterations = 200

unfoldable pub poll_read : (ℕ → Round) → Memory → SharedPipeRx → List ℕ → Poll (ℕ × List ℕ × Memory)
poll_read env m rx buf = poll_read_loop max_wait_iterations env m rx buf

-- `poll_read_ready` of the receive end and of the whole pipe.
unfoldable pub poll_read_ready_loop : ℕ → (ℕ → Round) → Memory → SharedPipeRx → Poll ℕ
poll_read_ready_loop zero env m rx = pending
poll_read_ready_loop (suc k) env m rx =
    let available = data_available m rx in
    let checked = (env k).checking m in
    let rest = poll_read_ready_loop k env ((env k).waiting checked) rx in
    if ltb 0 available
    then ready available
    else if is_closed checked rx.pool_offset
    then ready 0
    else rest

-- `poll_write`: a full pipe is pending.
abbrev pub as_poll : Result ℕ × Memory → Poll (Result ℕ) × Memory
as_poll (ok n, m) = (ready (ok n), m)
as_poll (err would_block, m) = (pending, m)
as_poll (err broken_pipe, m) = (ready (err broken_pipe), m)
as_poll (err invalid_input, m) = (ready (err invalid_input), m)

unfoldable pub poll_write : Memory → SharedPipeTx → List ℕ → Poll (Result ℕ) × Memory
poll_write m tx bytes = as_poll (write_data m tx bytes)

-- `poll_write_ready` of the transmit end and of the whole pipe.
unfoldable pub poll_write_ready : Memory → SharedPipeTx → Poll (Result ℕ)
poll_write_ready m tx =
    if ltb 0 (free_space m tx)
    then ready (ok (free_space m tx))
    else if is_closed m tx.pool_offset
    then ready (err broken_pipe)
    else pending
