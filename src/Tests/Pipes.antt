-- ===== src/Tests/Pipes.antt =====
-- A ring of 8 bytes at offset 4 of the pool, whose two unread bytes stand at its end and its start.
use wasmer_js.Prelude.{
  ℕ, ◌+◌, ◌<◌, ◌≡◌, ◌⊎◌, refl, true, false, List, [], ◌∷◌, ◌++◌, none, some, arith, min,
}
use wasmer_js.Memory.{Memory, load, store}
use wasmer_js.Pool.{create_pipe_pool, pool_header_size}
use wasmer_js.Pool.Sharing.{Ascending, regions, regions-Ascending}
use wasmer_js.Pipe.{
  is_closed, free_space, data_available, write_data, try_read, close, broken_pipe, ok, err,
}
use wasmer_js.Pipe.Space.{IsPipe, tx_end, rx_end, contents, free_space_lem}
use wasmer_js.Pipe.Ring.{slice}
use wasmer_js.Pipe.Queue
use wasmer_js.Pipe.Write.{Frame, write_data_refines, write_data-Frame}
use wasmer_js.Pipe.Read.{try_read_refines, try_read-Frame}
use wasmer_js.Pipe.Stream.{Op, put, get, shut, run, run_stream}
use wasmer_js.Pipe.Poll.{
  Round, ready, pending, read_blocking, poll_read, poll_write, poll_write_ready,
  max_wait_iterations,
}
use wasmer_js.Pipe.Poll.Wake.{IsBlocked, Sleeps, SleepsFor, read_blocking_waits, poll_read_pending}
use wasmer_js.Pipe.Poll.EndOfFile.{AreHonest, read_blocking_eof, read_blocking_race}
use wasmer_js.Pipe.Poll.Ready.{poll_write_ready_lem, poll_write_ready_closed}

abbrev blank : Memory
blank a = 0

abbrev ring : Memory
ring = store (store (store (store blank 4 1) 8 7) 31 65) 24 66

ring-IsPipe : IsPipe ring 4 8
unfolding load store
ring-IsPipe = record {
  positive = omega arith;
  inside = omega arith;
  write_in = omega arith;
  read_in = omega arith;
}

blank-IsPipe : IsPipe blank 4 8
unfolding load
blank-IsPipe = record {
  positive = omega arith;
  inside = omega arith;
  write_in = omega arith;
  read_in = omega arith;
}

blank-IsBlocked : IsBlocked blank (rx_end 4 8)
unfolding load is_closed data_available
blank-IsBlocked = (refl, refl)

-- The bytes of the ring.
contents-ring : contents ring 4 8 ≡ 65 ∷ 66 ∷ []
unfolding load store data_available slice
contents-ring = refl

abbrev calls : List Op
calls = put (1 ∷ 2 ∷ 3 ∷ []) ∷ get (0 ∷ 0 ∷ []) ∷ shut ∷ get (0 ∷ []) ∷ []

run_stream_example :
    (run 4 8 ring calls).received ++ contents (run 4 8 ring calls).final 4 8
    ≡ contents ring 4 8 ++ (run 4 8 ring calls).accepted
run_stream_example = run_stream 4 8 ring calls ring-IsPipe

write_data_refines_example :
    (
      (write_data ring (tx_end 4 8) (9 ∷ 8 ∷ [])).0,
      contents (write_data ring (tx_end 4 8) (9 ∷ 8 ∷ [])).1 4 8,
    )
    ≡ Queue.write 8 (is_closed ring 4) (contents ring 4 8) (9 ∷ 8 ∷ [])
write_data_refines_example = write_data_refines ring 4 8 (9 ∷ 8 ∷ []) ring-IsPipe

write_data-Frame_example : Frame ring 4 8 (write_data ring (tx_end 4 8) (9 ∷ [])).1
write_data-Frame_example = write_data-Frame ring 4 8 (9 ∷ []) ring-IsPipe

try_read_refines_example :
    (
      (try_read ring (rx_end 4 8) (0 ∷ [])).0,
      (try_read ring (rx_end 4 8) (0 ∷ [])).1,
      contents (try_read ring (rx_end 4 8) (0 ∷ [])).2 4 8,
    )
    ≡ Queue.read (is_closed ring 4) (contents ring 4 8) (0 ∷ [])
try_read_refines_example = try_read_refines ring 4 8 (0 ∷ []) ring-IsPipe

try_read-Frame_example : Frame ring 4 8 (try_read ring (rx_end 4 8) (0 ∷ 0 ∷ [])).2
try_read-Frame_example = try_read-Frame ring 4 8 (0 ∷ 0 ∷ []) ring-IsPipe

free_space_lem_example : free_space ring (tx_end 4 8) + data_available ring (rx_end 4 8) + 1 ≡ 8
free_space_lem_example = free_space_lem ring 4 8 ring-IsPipe

regions-Ascending_example :
    Ascending pool_header_size (regions create_pipe_pool ((24, 32 ∷ []) ∷ (40, []) ∷ []))
regions-Ascending_example = regions-Ascending ((24, 32 ∷ []) ∷ (40, []) ∷ [])

abbrev idle : Round
idle = record { checking = λ m. m; waiting = λ m. m }

read_blocking_waits_example :
    (read_blocking (idle ∷ []) ring (rx_end 4 8) (0 ∷ []) ≡ none
      → Sleeps (idle ∷ []) ring (rx_end 4 8))
    × (Sleeps (idle ∷ []) ring (rx_end 4 8)
        → read_blocking (idle ∷ []) ring (rx_end 4 8) (0 ∷ []) ≡ none)
read_blocking_waits_example = read_blocking_waits (idle ∷ []) ring (rx_end 4 8) (0 ∷ [])

poll_read_of_blank :
    (poll_read (λ i. idle) ring (rx_end 4 8) (0 ∷ []) ≡ pending
      → SleepsFor max_wait_iterations (λ i. idle) ring (rx_end 4 8))
    × (SleepsFor max_wait_iterations (λ i. idle) ring (rx_end 4 8)
        → poll_read (λ i. idle) ring (rx_end 4 8) (0 ∷ []) ≡ pending)
poll_read_of_blank = poll_read_pending (λ i. idle) ring (rx_end 4 8) (0 ∷ [])

abbrev closed : Memory
closed = close blank 4

idle-AreHonest : AreHonest (idle ∷ []) (rx_end 4 8)
idle-AreHonest = (λ m h. refl, tt)

closed_read : read_blocking (idle ∷ []) closed (rx_end 4 8) (0 ∷ []) ≡ some (0, 0 ∷ [], closed)
unfolding read_blocking try_read data_available is_closed close load store
closed_read = refl

read_blocking_eof_example : (is_closed closed 4 ≡ true) × (data_available closed (rx_end 4 8) ≡ 0)
read_blocking_eof_example =
    read_blocking_eof (idle ∷ []) closed (rx_end 4 8) (0 ∷ []) (0 ∷ []) closed idle-AreHonest
      (ground arith) closed_read

abbrev late : Memory
late = close (write_data blank (tx_end 4 8) (7 ∷ [])).1 4

abbrev late_round : Round
late_round = record {
  checking = λ n. close (write_data n (tx_end 4 8) (7 ∷ [])).1 4;
  waiting = λ n. n;
}

read_blocking_race_example :
    (read_blocking (late_round ∷ []) blank (rx_end 4 8) (0 ∷ []) ≡ some (0, 0 ∷ [], late))
    × (contents late 4 8 ≡ 7 ∷ [])
read_blocking_race_example =
    read_blocking_race blank 4 8 (7 ∷ []) (0 ∷ []) (λ n. n) [] blank-IsPipe blank-IsBlocked
      (ground arith) (omega arith)

ring_open : is_closed ring 4 ≡ false
unfolding is_closed load store
ring_open = refl

ready_for_one :
    ((poll_write_ready ring (tx_end 4 8) ≡ pending)
      × (poll_write ring (tx_end 4 8) (5 ∷ []) ≡ (pending, ring)))
    ⊎ ((n : ℕ) × (0 < n)
        × (poll_write_ready ring (tx_end 4 8) ≡ ready (ok n))
        × ((poll_write ring (tx_end 4 8) (5 ∷ [])).0 ≡ ready (ok (min 1 n))))
ready_for_one = poll_write_ready_lem ring (tx_end 4 8) 5 [] ring_open

is_closed-closed : is_closed closed 4 ≡ true
unfolding is_closed close load store
is_closed-closed = refl

closed_has_room : 0 < free_space closed (tx_end 4 8)
unfolding free_space close load store
closed_has_room = omega arith

promised_room :
    (poll_write_ready closed (tx_end 4 8) ≡ ready (ok (free_space closed (tx_end 4 8))))
    × (poll_write closed (tx_end 4 8) (5 ∷ []) ≡ (ready (err broken_pipe), closed))
promised_room =
    poll_write_ready_closed closed (tx_end 4 8) (5 ∷ []) is_closed-closed closed_has_room
