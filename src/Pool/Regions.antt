-- ===== src/Pool/Regions.antt =====
-- What the allocator hands out: regions of the pool, past its header, that no two workers share.
use wasmer_js.Prelude.{
  ℕ, ◌+◌, ◌≤◌, List, [], ◌∷◌, Option, none, some, arith, ltb, leb, ◌==◌, if◌then◌else◌,
}
use wasmer_js.Memory.{Memory, word_mod, load, store}
use wasmer_js.Memory.Laws.{load-store_self}
use wasmer_js.Pool.{pipe_pool_size, pool_header_size, create_pipe_pool, claim_once, claim}

-- The allocation offset stands past the header and inside the pool.
pub record IsPool (m : Memory) : Type 0 where
  pub past_header : pool_header_size ≤ load m 0
  pub inside : load m 0 ≤ pipe_pool_size

-- A region of `size` bytes at some offset between the old and the new allocation offset, or nothing.
abbrev pub Given : ℕ → ℕ → ℕ → Option ℕ → Type 0
Given low size high none = Unit {0}
Given low size high (some o) = (low ≤ o) × (o + size ≤ high)

-- What a call of the allocator may do to the pool.
pub record Claims (m : Memory) (size : ℕ) (r : Option ℕ × Memory) : Type 0 where
  pub grows : load m 0 ≤ load r.1 0
  pub valid : IsPool r.1
  pub given : Given (load m 0) size (load r.1 0) r.0

pub create_pipe_pool-IsPool : IsPool create_pipe_pool
unfolding create_pipe_pool load store
create_pipe_pool-IsPool = omega arith

pub claim_once-Claims : (m : Memory) (size : ℕ) → IsPool m → Claims m size (claim_once m size)
unfolding claim_once
claim_once-Claims m size v = ground (arith, load-store_self m 0 (load m 0 + size))

-- One contended round, with what the rival did to the pool and what the next rounds do.
round-Claims :
    (m : Memory) (size : ℕ) (m' : Memory) (retry : Option ℕ × Memory)
    → IsPool m
    → load m 0 ≤ load m' 0
    → IsPool m'
    → Claims m' size retry
    → Claims m size (
        if leb word_mod (load m 0 + size)
        then (none, m)
        else if ltb pipe_pool_size (load m 0 + size)
        then (none, m)
        else if load m' 0 == load m 0
        then (some (load m 0), store m' 0 (load m 0 + size))
        else retry)
round-Claims m size m' (none, m'') v g v' c = ground (arith, load-store_self m' 0 (load m 0 + size))
round-Claims m size m' (some o, m'') v g v' c =
    ground (arith, load-store_self m' 0 (load m 0 + size))

-- Whatever the other workers allocate between the load and the compare-and-exchange of each round,
-- a worker gets a region between the old and the new allocation offset, or nothing.
pub claim-Claims :
    (m : Memory) (size : ℕ) (rivals : List ℕ) → IsPool m → Claims m size (claim m size rivals)
unfolding claim
claim-Claims m size [] v = claim_once-Claims m size v
claim-Claims m size (rival ∷ rivals) v =
    let c = claim_once-Claims m rival v in
    round-Claims m size (claim_once m rival).1 (claim (claim_once m rival).1 size rivals) v c.grows
      c.valid (claim-Claims (claim_once m rival).1 size rivals c.valid)
