-- ===== src/Tests/Ends.antt =====
-- Pipes made from a fresh pool, and the handles of a subprocess.
use wasmer_js.Prelude.{ℕ, ◌%◌, ◌≡◌, ◌⊎◌, refl, inl, true, ◌||◌, List, [], ◌∷◌, none, some, arith}
use wasmer_js.Memory.{Memory, load, store}
use wasmer_js.Pool.{create_pipe_pool, allocate_from_pool, claim, claim_once, get_pool_int32_view}
use wasmer_js.Pool.Regions.{create_pipe_pool-IsPool}
use wasmer_js.Pipe.{tx_count_at, is_closed, write_data, broken_pipe, err}
use wasmer_js.Pipe.Space.{tx_end}
use wasmer_js.Pipe.Ends.{
  SharedPipe, from_pool_offset, init_header, connect, with_capacity, drop_pipe,
}
use wasmer_js.Pipe.Ends.Fresh.{IsFresh, with_capacity-IsFresh, with_capacity_misaligned}
use wasmer_js.Pipe.Ends.Count.{
  Event, join, leave, run, live_after, all_gone, run_count, drop_pipe_closes,
}
use wasmer_js.Stdio.{parent_handles, child_handles, child_from_offsets}
use wasmer_js.Stdio.Handles.{parent_handles_closes, child_handles_closes}

pool_aligned : load create_pipe_pool 0 % 4 ≡ 0
unfolding create_pipe_pool load store
pool_aligned = refl

with_capacity-IsFresh_example :
    (((allocate_from_pool true create_pipe_pool 28 (32 ∷ [])).0 ≡ none)
      × (with_capacity true create_pipe_pool 28 (32 ∷ []) ≡ none))
    ⊎ ((p : SharedPipe) × (m' : Memory) × (with_capacity true create_pipe_pool 28 (32 ∷ [])
          ≡ some (p, m'))
        × IsFresh create_pipe_pool 28 (32 ∷ []) p m')
with_capacity-IsFresh_example =
    with_capacity-IsFresh create_pipe_pool 28 (32 ∷ []) create_pipe_pool-IsPool pool_aligned
      (omega arith) (omega arith, tt) (omega arith)

abbrev after_odd : Memory
after_odd = init_header (store create_pipe_pool 0 29) 4

odd_pipe : with_capacity true create_pipe_pool 25 [] ≡ some (from_pool_offset 4 25, after_odd)
unfolding with_capacity connect allocate_from_pool claim claim_once get_pool_int32_view
    create_pipe_pool load store
odd_pipe = refl

odd_size_panics : with_capacity true after_odd 64 [] ≡ none
odd_size_panics =
    with_capacity_misaligned create_pipe_pool 25 64 {p = from_pool_offset 4 25} {m' = after_odd}
      create_pipe_pool-IsPool pool_aligned (omega arith) (omega arith) odd_pipe

-- A pipe at an offset of which one end is counted.
abbrev counted : ℕ → Memory
counted offset = store (λ a. 0) (tx_count_at offset) 1

counted_one : load (counted 4) (tx_count_at 4) ≡ 1
unfolding load store
counted_one = refl

abbrev events : List Event
events = join ∷ leave ∷ leave ∷ []

events_end : live_after 1 events ≡ some 0
unfolding live_after
events_end = refl

run_count_example :
    (load (run 4 8 (counted 4) events) (tx_count_at 4) ≡ 0)
    × (is_closed (run 4 8 (counted 4) events) 4 ≡ (is_closed (counted 4) 4 || all_gone 1 events))
run_count_example = run_count 4 8 1 0 (counted 4) events counted_one (omega arith) events_end

counted_dropped :
    (load (drop_pipe (counted 4) (from_pool_offset 4 28)) (tx_count_at 4) ≡ 0)
    × (is_closed (drop_pipe (counted 4) (from_pool_offset 4 28)) 4 ≡ true)
    × (write_data (drop_pipe (counted 4) (from_pool_offset 4 28)) (tx_end 4 8) (5 ∷ [])
        ≡ (err broken_pipe, drop_pipe (counted 4) (from_pool_offset 4 28)))
counted_dropped = drop_pipe_closes (counted 4) 4 8 (5 ∷ []) counted_one

-- Three pipes of 28 bytes.
abbrev stdio : Memory
stdio = store (store (store (λ a. 0) (tx_count_at 4) 1) (tx_count_at 32) 1) (tx_count_at 60) 1

stdin_one : load stdio (tx_count_at 4) ≡ 1
unfolding load store
stdin_one = refl

stdout_one : load stdio (tx_count_at 32) ≡ 1
unfolding load store
stdout_one = refl

stderr_one : load stdio (tx_count_at 60) ≡ 1
unfolding load store
stderr_one = refl

abbrev at_parent : Memory
at_parent = (parent_handles stdio (child_from_offsets ((4, 28), (32, 28), (60, 28)))).3

parent_handles_close_stdout :
    (write_data at_parent (tx_end 32 8) (5 ∷ []) ≡ (err broken_pipe, at_parent))
    × (write_data at_parent (tx_end 60 8) (5 ∷ []) ≡ (err broken_pipe, at_parent))
parent_handles_close_stdout =
    parent_handles_closes stdio 4 32 60 8 (5 ∷ []) stdout_one stderr_one (inl (omega arith))

abbrev at_child : Memory
at_child = (child_handles stdio (child_from_offsets ((4, 28), (32, 28), (60, 28)))).3

stdin_closed : write_data at_child (tx_end 4 8) (5 ∷ []) ≡ (err broken_pipe, at_child)
stdin_closed = child_handles_closes stdio 4 32 60 8 (5 ∷ []) stdin_one
