-- ===== src/Tests/Subprocess.antt =====
-- Two closed pipes of a subprocess, of which the first holds two bytes.
use wasmer_js.Prelude.{ℕ, ◌≡◌, refl, inl, Bool, true, List, [], ◌∷◌, arith, min, take, length}
use wasmer_js.Memory.{Memory, load, store}
use wasmer_js.Pipe.{is_closed}
use wasmer_js.Pipe.Space.{IsPipe, contents}
use wasmer_js.Subprocess.{poll_output, poll_buffer_size}
use wasmer_js.Subprocess.Closing.{pipe_ends, poll_output_closed}

abbrev both_closed : Memory
both_closed = store (store (store (store (λ a. 0) 4 1) 8 7) 12 1) 72 1

first-IsPipe : IsPipe both_closed 4 8
unfolding load store
first-IsPipe = record {
  positive = omega arith;
  inside = omega arith;
  write_in = omega arith;
  read_in = omega arith;
}

second-IsPipe : IsPipe both_closed 64 8
unfolding load store
second-IsPipe = record {
  positive = omega arith;
  inside = omega arith;
  write_in = omega arith;
  read_in = omega arith;
}

first_closed : is_closed both_closed 4 ≡ true
unfolding is_closed load store
first_closed = refl

second_closed : is_closed both_closed 64 ≡ true
unfolding is_closed load store
second_closed = refl

abbrev output : List ℕ × List ℕ × Bool × Memory
output = poll_output both_closed (pipe_ends 4 8) (pipe_ends 64 8) ((λ m. m) ∷ [])

poll_output_closed_example :
    (output.0
      ≡ take (min poll_buffer_size (length (contents both_closed 4 8))) (contents both_closed 4 8))
    × (output.2 ≡ true)
poll_output_closed_example =
    poll_output_closed both_closed 4 8 64 8 ((λ m. m) ∷ []) first-IsPipe second-IsPipe
      (inl (omega arith)) first_closed second_closed
