-- ===== src/Pipe/Poll/Ready.antt =====
-- What the readiness polls promise about the reads and writes that follow them.
use wasmer_js.Prelude.{
  ℕ, ◌<◌, min, ◌≡◌, ◌⊎◌, inl, inr, true, false, List, [], ◌∷◌, arith, ◌==◌, Bool-cases, ==→eq,
  ==→ne, length, lt→ltb, le→ltb_false,
}
use wasmer_js.Memory.{Memory}
use wasmer_js.Pipe.{SharedPipeTx, broken_pipe, ok, err, is_closed, free_space, write_data}
use wasmer_js.Pipe.Poll.{ready, pending, poll_write, poll_write_ready}

-- On an open pipe `poll_write_ready` and `poll_write` agree: either both are pending, and nothing is
-- stored, or a write of any bytes takes as many of them as the poll said that there is room for.
pub poll_write_ready_lem :
    (m : Memory) (tx : SharedPipeTx) (x : ℕ) (xs : List ℕ)
    → is_closed m tx.pool_offset ≡ false
    → ((poll_write_ready m tx ≡ pending) × (poll_write m tx (x ∷ xs) ≡ (pending, m)))
      ⊎ ((n : ℕ) × (0 < n)
          × (poll_write_ready m tx ≡ ready (ok n))
          × ((poll_write m tx (x ∷ xs)).0 ≡ ready (ok (min (length (x ∷ xs)) n))))
unfolding poll_write_ready poll_write write_data
poll_write_ready_lem m tx x xs c = elim (Bool-cases (free_space m tx == 0)) [
  | inl z ↦
      let e = ==→eq (free_space m tx) 0 z in
      inl (rw (le→ltb_false 0 (free_space m tx) (omega arith), c), rw (c, z))
  | inr z ↦
      let e = ==→ne (free_space m tx) 0 z in
      inr (free_space m tx, omega arith, rw (lt→ltb 0 (free_space m tx) (omega arith)), rw (c, z))
]

-- On a closed pipe with room they do not agree: the poll promises room, and every write fails.
pub poll_write_ready_closed :
    (m : Memory) (tx : SharedPipeTx) (bytes : List ℕ)
    → is_closed m tx.pool_offset ≡ true
    → 0 < free_space m tx
    → (poll_write_ready m tx ≡ ready (ok (free_space m tx)))
      × (poll_write m tx bytes ≡ (ready (err broken_pipe), m))
unfolding poll_write_ready poll_write write_data
poll_write_ready_closed m tx [] c h = (rw (lt→ltb 0 (free_space m tx) h), rw c)
poll_write_ready_closed m tx (x ∷ xs) c h = (rw (lt→ltb 0 (free_space m tx) h), rw c)
