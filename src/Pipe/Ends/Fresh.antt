-- ===== src/Pipe/Ends/Fresh.antt =====
-- What `with_capacity` gives: an open, empty pipe in a region of its own, if the sizes are aligned.
use wasmer_js.Prelude.{
  ℕ, ◌+◌, ◌-◌, ◌%◌, ◌≤◌, ◌<◌, ◌≡◌, ◌≢◌, refl, ◌∙◌, ◌⊎◌, inl, inr, true, false, List, [], Option,
  none, some, arith, nil_of_length,
}
use wasmer_js.Memory.{Memory, load, store}
use wasmer_js.Memory.Laws.{load-store_self, load-store_ne, load_eq}
use wasmer_js.Pool.{
  rivals_given, allocate_from_pool, claim, claim_once, get_pool_int32_view, get_pool_uint8_view,
}
use wasmer_js.Pool.Regions.{IsPool, Claims, claim-Claims}
use wasmer_js.Pool.Sharing.{
  AllAligned, AlignedAt, AllBelow, claim_aligned, claim_other, claim-AllBelow,
}
use wasmer_js.Pipe.{
  header_size, write_pos_at, read_pos_at, closed_at, tx_count_at, is_closed, data_available,
}
use wasmer_js.Pipe.Space.{IsPipe, rx_end, contents, length-contents}
use wasmer_js.Pipe.Ends.{SharedPipe, from_pool_offset, init_header, connect, with_capacity}

module _ (m : Memory) (offset : ℕ) where
  init_words :
      (load (init_header m offset) (write_pos_at offset) ≡ 0)
      × (load (init_header m offset) (read_pos_at offset) ≡ 0)
      × (load (init_header m offset) (closed_at offset) ≡ 0)
      × (load (init_header m offset) (tx_count_at offset) ≡ 1)
  unfolding init_header
  init_words = (
    grind (arith, load-store_ne, load-store_self),
    grind (arith, load-store_ne, load-store_self),
    grind (arith, load-store_ne, load-store_self),
    load-store_self _ (tx_count_at offset) 1 (omega arith),
  )

  init_other : (b : ℕ) → (b < offset) ⊎ (offset + header_size ≤ b) → init_header m offset b ≡ m b
  unfolding init_header store
  init_other b h = ground arith

-- An open, empty pipe with one writer, in a region past those that are taken, among them those that
-- the rivals are given meanwhile.
pub record IsFresh (m : Memory) (size : ℕ) (rivals : List ℕ) (p : SharedPipe) (m' : Memory)
    : Type 0 where
  pub offset : ℕ
  pub built : p ≡ from_pool_offset offset size
  pub behind : load m 0 ≤ offset
  pub claimed : offset + size ≤ load m' 0
  pub past_rivals : AllBelow offset (rivals_given m size rivals [])
  pub well_formed : IsPipe m' offset (size - header_size)
  pub open_ended : is_closed m' offset ≡ false
  pub empty : contents m' offset (size - header_size) ≡ []
  pub one_writer : load m' (tx_count_at offset) ≡ 1
  -- The views that every later operation makes of this region exist.
  pub words_visible : get_pool_int32_view true offset 5 ≡ some offset
  pub bytes_visible :
      get_pool_uint8_view true (offset + header_size) (size - header_size)
      ≡ some (record { base = offset + header_size; count = size - header_size })
  pub pool_kept : IsPool m'
  pub aligned_kept : load m' 0 % 4 ≡ 0
  pub others_kept : (b : ℕ) → 4 ≤ b → (b < offset) ⊎ (offset + header_size ≤ b) → m' b ≡ m b

init_empty :
    (m : Memory) (offset capacity : ℕ)
    → data_available (init_header m offset) (rx_end offset capacity) ≡ 0
unfolding data_available
init_empty m offset capacity = rw ((init_words m offset).0, (init_words m offset).1)

init_open : (m : Memory) (offset : ℕ) → is_closed (init_header m offset) offset ≡ false
unfolding is_closed
init_open m offset = rw ((init_words m offset).2)

pool_word : (m : Memory) (offset : ℕ) → 4 ≤ offset → load (init_header m offset) 0 ≡ load m 0
pool_word m offset h =
    load_eq (init_header m offset) m 0 (kept 0 (omega arith)) (kept 1 (omega arith))
      (kept 2 (omega arith)) (kept 3 (omega arith))
  where
    kept : (b : ℕ) → b < 4 → init_header m offset b ≡ m b
    kept b l = init_other m offset b (inl (omega arith))

fresh_pipe :
    (m m' : Memory) (size offset : ℕ) (rivals : List ℕ)
    → header_size < size
    → Claims m size (some offset, m')
    → (load m' 0 % 4 ≡ 0) × (offset % 4 ≡ 0)
    → IsPool m
    → ((b : ℕ) → 4 ≤ b → m' b ≡ m b)
    → AllBelow offset (rivals_given m size rivals [])
    → IsFresh m size rivals (from_pool_offset offset size) (init_header m' offset)
fresh_pipe m m' size offset rivals big c aligned v same below = record {
  offset = offset;
  built = refl;
  behind = c.given.0;
  claimed = rw first c.given.1;
  past_rivals = below;
  well_formed = record {
    positive = omega arith;
    inside = omega arith;
    write_in = rw ((init_words m' offset).0) (omega arith);
    read_in = rw ((init_words m' offset).1) (omega arith);
  };
  open_ended = init_open m' offset;
  empty = nil_of_length _ (
      length-contents (init_header m' offset) offset (size - header_size)
      ∙ init_empty m' offset (size - header_size));
  one_writer = (init_words m' offset).3;
  words_visible = unfold get_pool_int32_view in ground arith;
  bytes_visible = unfold get_pool_uint8_view in ground arith;
  pool_kept = record {
    past_header = rw first c.valid.past_header;
    inside = rw first c.valid.inside;
  };
  aligned_kept = rw first aligned.0;
  others_kept = λ b h k. init_other m' offset b k ∙ same b h;
}
  where
    first : load (init_header m' offset) 0 ≡ load m' 0
    first = pool_word m' offset (omega arith)

-- A pipe larger than its header, whose size, like those that rivals take meanwhile, is a multiple
-- of 4, made from a valid pool whose allocation offset is one: either the pool gives no region and
-- `with_capacity` panics for that, or the pipe is made, open and empty with one writer, in a region
-- on which all views exist, past all that was given out before and past the regions that the rivals
-- are given meanwhile.
pub with_capacity-IsFresh :
    (m : Memory) (size : ℕ) (rivals : List ℕ)
    → IsPool m
    → load m 0 % 4 ≡ 0
    → size % 4 ≡ 0
    → AllAligned rivals
    → header_size < size
    → (((allocate_from_pool true m size rivals).0 ≡ none)
        × (with_capacity true m size rivals ≡ none))
      ⊎ ((p : SharedPipe) × (m' : Memory) × (with_capacity true m size rivals ≡ some (p, m'))
          × IsFresh m size rivals p m')
unfolding with_capacity allocate_from_pool fresh_pipe
with_capacity-IsFresh m size rivals v a s r big =
    go (claim m size rivals) (claim-Claims m size rivals v) (claim_aligned m size rivals v a s r)
      (claim_other m size rivals) (λ o e. claim-AllBelow m size rivals o v e)
  where
    go :
        (r : Option ℕ × Memory)
        → Claims m size r
        → (load r.1 0 % 4 ≡ 0) × AlignedAt r.0
        → ((b : ℕ) → 4 ≤ b → r.1 b ≡ m b)
        → ((o : ℕ) → r.0 ≡ some o → AllBelow o (rivals_given m size rivals []))
        → ((r.0 ≡ none) × (connect true size r ≡ none))
          ⊎ ((p : SharedPipe) × (m' : Memory) × (connect true size r ≡ some (p, m'))
              × IsFresh m size rivals p m')
    go (none, m') c al same below = inl (refl, refl)
    go (some offset, m') c al same below =
        let f = fresh_pipe m m' size offset rivals big c al v same (below offset refl) in
        let seen : get_pool_int32_view true offset 5 ≡ some offset = f.words_visible in
        inr (from_pool_offset offset size, init_header m' offset, rw (seen, connect), f)

misaligned : (m : Memory) (size : ℕ) → load m 0 % 4 ≢ 0 → with_capacity true m size [] ≡ none
unfolding with_capacity allocate_from_pool claim claim_once get_pool_int32_view
misaligned m size h = ground arith

moved_on :
    (m : Memory) (size : ℕ) {p : SharedPipe} {m' : Memory}
    → IsPool m
    → load m 0 % 4 ≡ 0
    → size % 4 ≢ 0
    → header_size < size
    → with_capacity true m size [] ≡ some (p, m')
    → load m' 0 % 4 ≢ 0
unfolding with_capacity allocate_from_pool claim claim_once get_pool_int32_view
moved_on m size v a odd big made = ground (
  arith,
  pool_word (store m 0 (load m 0 + size)) (load m 0),
  load-store_self m 0 (load m 0 + size),
)

-- From a valid pool whose allocation offset is a multiple of 4, one pipe is made whose size, larger
-- than the header, is not: after that, each `with_capacity` that no other worker interrupts panics,
-- whatever size it asks for, however much room is left.
pub with_capacity_misaligned :
    (m : Memory) (size later : ℕ) {p : SharedPipe} {m' : Memory}
    → IsPool m
    → load m 0 % 4 ≡ 0
    → size % 4 ≢ 0
    → header_size < size
    → with_capacity true m size [] ≡ some (p, m')
    → with_capacity true m' later [] ≡ none
with_capacity_misaligned m size later {p} {m'} v a odd big made =
    misaligned m' later (moved_on m size v a odd big made)
