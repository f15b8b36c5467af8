-- ===== src/Pool.antt =====
-- The shared pipe pool of src/pipes/pool.rs: a bump allocator in the first word of a
-- SharedArrayBuffer, claimed by compare-and-exchange against the other workers.
pub mod Regions
pub mod Sharing
use wasmer_js.Prelude.{
  ℕ, ◌+◌, ◌%◌, ◌*◌, Bool, true, false, ◌||◌, not, List, [], ◌∷◌, Option, none, some, ltb, leb, ◌==◌,
  if◌then◌else◌,
}
use wasmer_js.Memory.{Memory, word_mod, load, store, View}

-- `PIPE_POOL_SIZE`, 16 MB.
abbrev pub pipe_pool_size : ℕ
pipe_pool_size = 16777216

abbrev pub pool_header_size : ℕ
pool_header_size = 4

-- A fresh SharedArrayBuffer is all zeros.
unfoldable pub create_pipe_pool : Memory
create_pipe_pool = store (λ _. 0) 0 pool_header_size

-- One round of the loop in `allocate_from_pool` in which no other worker comes between the load
-- and the compare-and-exchange. `checked_add` fails at 2 ^ 32.
unfoldable pub claim_once : Memory → ℕ → Option ℕ × Memory
claim_once m size =
    let current = load m 0 in
    let new_offset = current + size in
    if leb word_mod new_offset
    then (none, m)
    else if ltb pipe_pool_size new_offset
    then (none, m)
    else (some current, store m 0 new_offset)

-- The loop. The list has a size for each round in which another worker completes an allocation of
-- that size between this worker's load and its compare-and-exchange.
unfoldable pub claim : Memory → ℕ → List ℕ → Option ℕ × Memory
claim m size [] = claim_once m size
claim m size (rival ∷ rivals) =
    let current = load m 0 in
    let new_offset = current + size in
    let m' = (claim_once m rival).1 in
    let retry = claim m' size rivals in
    if leb word_mod new_offset
    then (none, m)
    else if ltb pipe_pool_size new_offset
    then (none, m)
    else if load m' 0 == current
    then (some current, store m' 0 new_offset)
    else retry

-- A region given out, if one was, before those that are given out later.
unfoldable pub keep_region : Option ℕ → ℕ → List (ℕ × ℕ) → List (ℕ × ℕ)
keep_region none size later = later
keep_region (some o) size later = (o, size) ∷ later

-- The regions that the rivals are given in the rounds that the loop makes, in order, before those
-- that are given out later. After a round in which the word has not changed there is no other.
unfoldable pub rivals_given : Memory → ℕ → List ℕ → List (ℕ × ℕ) → List (ℕ × ℕ)
unfolding keep_region claim_once
rivals_given m size [] later = later
rivals_given m size (rival ∷ rivals) later =
    let new_offset = load m 0 + size in
    let (given, m') = claim_once m rival in
    let rest = rivals_given m' size rivals later in
    if leb word_mod new_offset
    then later
    else if ltb pipe_pool_size new_offset
    then later
    else if load m' 0 == load m 0
    then keep_region given rival later
    else keep_region given rival rest

-- The flag says whether this thread's view of the pool is initialised.
unfoldable pub allocate_from_pool : Bool → Memory → ℕ → List ℕ → Option ℕ × Memory
unfolding claim claim_once
allocate_from_pool false m size rivals = (none, m)
allocate_from_pool true m size rivals = claim m size rivals

-- `none` is a panic: no pool in this thread, or the RangeError of a view that leaves the buffer or
-- (for words) is not aligned.
unfoldable pub get_pool_uint8_view : Bool → ℕ → ℕ → Option View
get_pool_uint8_view ready offset count =
    if not ready || ltb pipe_pool_size (offset + count)
    then none
    else some (record { base = offset; count = count })

unfoldable pub get_pool_int32_view : Bool → ℕ → ℕ → Option ℕ
get_pool_int32_view ready offset count =
    if not ready || not (offset % 4 == 0) || ltb pipe_pool_size (offset + 4 * count)
    then none
    else some offset
