-- ===== src/Pipe/Ends/Count.antt =====
-- The count of transmit ends: while every new end is counted the pipe closes with the last one.
use wasmer_js.Prelude.{
  ℕ, zero, suc, ◌+◌, ◌-◌, ◌<◌, ◌≡◌, refl, sym, ap, ◌∙◌, inl, Bool, true, false, ◌||◌, not, List, [],
  ◌∷◌, Option, none, some, arith, ◌==◌, length,
}
use wasmer_js.Memory.{Memory, load, store, word_mod, add32, sub32}
use wasmer_js.Memory.Laws.{load-store_self, load-store_ne}
use wasmer_js.Pipe.{
  header_size, closed_at, tx_count_at, is_closed, close, write_data, err, broken_pipe,
}
use wasmer_js.Pipe.Space.{tx_end}
use wasmer_js.Pipe.Ends.{from_pool_offset, tx_from_pool_offset, drop_tx, drop_pipe}

-- A worker connects a new transmit end by `SharedPipeTx::from_pool_offset`, or drops one.
pub data Event : Type 0 where
  join leave : Event

module _ (offset capacity : ℕ) where
  abbrev pub step : Memory → Event → Memory
  step m join = (tx_from_pool_offset m offset (capacity + header_size)).1
  step m leave = drop_tx m (tx_end offset capacity)

  unfoldable pub run : Memory → List Event → Memory
  run m [] = m
  run m (e ∷ es) = run (step m e) es

-- How many transmit ends there are after the events, where none is dropped that is not there.
unfoldable pub live_after : ℕ → List Event → Option ℕ
live_after live [] = some live
live_after live (join ∷ es) = live_after (live + 1) es
live_after zero (leave ∷ es) = none
live_after (suc live) (leave ∷ es) = live_after live es

-- Whether the last end goes at some point of the events.
unfoldable pub all_gone : ℕ → List Event → Bool
all_gone live [] = false
all_gone live (join ∷ es) = all_gone (live + 1) es
all_gone live (leave ∷ es) = live == 1 || all_gone (live - 1) es

join_lem :
    (m : Memory) (offset size : ℕ)
    → load m (tx_count_at offset) + 1 < word_mod
    → let m' = (tx_from_pool_offset m offset size).1 in
      (load m' (tx_count_at offset) ≡ load m (tx_count_at offset) + 1)
      × (is_closed m' offset ≡ is_closed m offset)
unfolding tx_from_pool_offset is_closed
join_lem m offset size h = (
  load-store_self m (tx_count_at offset) (add32 (load m (tx_count_at offset)) 1) (omega arith)
      ∙ omega arith,
  ap (λ w. not (w == 0))
      (load-store_ne m (tx_count_at offset) (add32 (load m (tx_count_at offset)) 1)
        (closed_at offset) (inl (omega arith))),
)

pub leave_lem :
    (m : Memory) (offset capacity live : ℕ)
    → load m (tx_count_at offset) ≡ suc live
    → suc live < word_mod
    → let m' = drop_tx m (tx_end offset capacity) in
      (load m' (tx_count_at offset) ≡ live)
      × (is_closed m' offset ≡ (suc live == 1 || is_closed m offset))
unfolding drop_tx is_closed close
leave_lem m offset capacity live e h = ground (
  arith,
  load-store_self m (tx_count_at offset) (sub32 (load m (tx_count_at offset)) 1),
  load-store_ne m (tx_count_at offset) (sub32 (load m (tx_count_at offset)) 1) (closed_at offset),
  load-store_ne (store m (tx_count_at offset) (sub32 (load m (tx_count_at offset)) 1))
      (closed_at offset) 1 (tx_count_at offset),
  load-store_self (store m (tx_count_at offset) (sub32 (load m (tx_count_at offset)) 1))
      (closed_at offset) 1,
)

swap_or : (a b c : Bool) → ((a || b) || c) ≡ (b || (a || c))
swap_or true true c = refl
swap_or true false c = refl
swap_or false true c = refl
swap_or false false c = refl

-- Over any events that drop no end which is not there, too few to wrap the count round, the header
-- counts the live ends, and the pipe ends closed exactly if it was closed or the last end went.
pub run_count :
    (offset capacity live final : ℕ) (m : Memory) (es : List Event)
    → load m (tx_count_at offset) ≡ live
    → live + length es < word_mod
    → live_after live es ≡ some final
    → (load (run offset capacity m es) (tx_count_at offset) ≡ final)
      × (is_closed (run offset capacity m es) offset ≡ (is_closed m offset || all_gone live es))
unfolding run live_after all_gone
run_count offset capacity live final m [] e h l = ground arith
run_count offset capacity live final m (join ∷ es) e h l =
    let j = join_lem m offset (capacity + header_size) (omega arith) in
    let rest =
      run_count offset capacity (live + 1) final (step offset capacity m join) es (omega arith)
        (omega arith) l in
    (rest.0, rest.1 ∙ ap (λ b. b || all_gone (live + 1) es) j.1)
run_count offset capacity zero final m (leave ∷ es) e h l = cc
run_count offset capacity (suc live) final m (leave ∷ es) e h l =
    let j = leave_lem m offset capacity live e (omega arith) in
    let rest =
      run_count offset capacity live final (step offset capacity m leave) es j.0 (omega arith) l in
    let same : suc live - 1 ≡ live = omega arith in
    (
      rest.0,
      rest.1
          ∙ ap (λ b. b || all_gone live es) j.1
          ∙ swap_or (suc live == 1) (is_closed m offset) (all_gone live es)
          ∙ ap (λ k. is_closed m offset || (suc live == 1 || all_gone k es)) (sym same),
    )

pub closed_write :
    (m : Memory) (offset capacity : ℕ) (bytes : List ℕ)
    → is_closed m offset ≡ true
    → write_data m (tx_end offset capacity) bytes ≡ (err broken_pipe, m)
unfolding write_data
closed_write m offset capacity [] c = rw c
closed_write m offset capacity (x ∷ xs) c = rw c

-- A pipe that `SharedPipe::from_pool_offset` made, which does not count its transmit end, is
-- dropped, which uncounts one: where one writer was counted, its pipe is closed and its next write
-- fails.
pub drop_pipe_closes :
    (m : Memory) (offset capacity : ℕ) (bytes : List ℕ)
    → load m (tx_count_at offset) ≡ 1
    → let m' = drop_pipe m (from_pool_offset offset (capacity + header_size)) in
      (load m' (tx_count_at offset) ≡ 0)
      × (is_closed m' offset ≡ true)
      × (write_data m' (tx_end offset capacity) bytes ≡ (err broken_pipe, m'))
drop_pipe_closes m offset capacity bytes e =
    let gone = leave_lem m offset capacity 0 e (omega arith) in
    let shut : is_closed (drop_tx m (tx_end offset capacity)) offset ≡ true = gone.1 in
    rw dropped
      (gone.0, shut, closed_write (drop_tx m (tx_end offset capacity)) offset capacity bytes shut)
  where
    dropped :
        drop_pipe m (from_pool_offset offset (capacity + header_size))
        ≡ drop_tx m (tx_end offset capacity)
    dropped = unfold drop_pipe from_pool_offset in refl
