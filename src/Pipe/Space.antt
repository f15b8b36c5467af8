-- ===== src/Pipe/Space.antt =====
-- The well-formed pipe, how many bytes it holds and how many more it takes.
use wasmer_js.Prelude.{
  ℕ, ◌+◌, ◌-◌, ◌%◌, ◌≤◌, ◌<◌, ◌≡◌, ◌⊎◌, sym, ap, ◌∙◌, inl, inr, List, arith, length, leb,
  Bool-cases,
}
use wasmer_js.Memory.{Memory, load}
use wasmer_js.Pool.{pipe_pool_size}
use wasmer_js.Pipe.{
  SharedPipeTx, SharedPipeRx, header_size, write_pos_at, read_pos_at, free_space, data_available,
}
use wasmer_js.Pipe.Ring.{slice, length-slice, mod_one_turn}

-- The two ends of the pipe of `capacity` data bytes at a pool offset, as the constructors build them.
abbrev pub tx_end : ℕ → ℕ → SharedPipeTx
tx_end offset capacity = record {
  pool_offset = offset;
  buffer_size = capacity + header_size;
  data_capacity = capacity;
}

abbrev pub rx_end : ℕ → ℕ → SharedPipeRx
rx_end offset capacity = record {
  pool_offset = offset;
  buffer_size = capacity + header_size;
  data_capacity = capacity;
}

-- The pipe lies in the pool and both positions stand at an index of its data.
pub record IsPipe (m : Memory) (offset capacity : ℕ) : Type 0 where
  pub positive : 1 ≤ capacity
  pub inside : offset + header_size + capacity ≤ pipe_pool_size
  pub write_in : load m (write_pos_at offset) < capacity
  pub read_in : load m (read_pos_at offset) < capacity

module _ (m : Memory) (offset capacity : ℕ) where
  -- The bytes written and not yet read, oldest first.
  abbrev pub contents : List ℕ
  contents =
      slice (λ i. m (offset + header_size + i)) capacity (load m (read_pos_at offset))
        (data_available m (rx_end offset capacity))

  pub length-contents : length contents ≡ data_available m (rx_end offset capacity)
  length-contents =
      length-slice (λ i. m (offset + header_size + i)) capacity (load m (read_pos_at offset))
        (data_available m (rx_end offset capacity))

  -- The write position is the read position moved on by what the pipe holds.
  pub data_available_turn :
      IsPipe m offset capacity
      → ((load m (read_pos_at offset) + data_available m (rx_end offset capacity)
            ≡ load m (write_pos_at offset))
          × (load m (read_pos_at offset) ≤ load m (write_pos_at offset)))
        ⊎ ((load m (read_pos_at offset) + data_available m (rx_end offset capacity)
              ≡ load m (write_pos_at offset) + capacity)
            × (load m (write_pos_at offset) < load m (read_pos_at offset)))
  unfolding data_available
  data_available_turn v =
      elim (Bool-cases (leb (load m (read_pos_at offset)) (load m (write_pos_at offset)))) [
        | inl h ↦ inl (ground arith)
        | inr h ↦ inr (ground arith)
      ]

  -- In a well-formed pipe, what is free and what is held make up the capacity but for the one byte
  -- that tells a full ring from an empty one.
  pub free_space_lem :
      IsPipe m offset capacity
      → free_space m (tx_end offset capacity) + data_available m (rx_end offset capacity) + 1
        ≡ capacity
  unfolding free_space data_available
  free_space_lem v = ground arith

  -- The place where the next byte goes is the one behind the last byte held.
  pub end_position :
      IsPipe m offset capacity
      → (load m (read_pos_at offset) + data_available m (rx_end offset capacity)) % capacity
        ≡ load m (write_pos_at offset) % capacity
  end_position v = elim (data_available_turn v) [
    | inl (e, _) ↦ ap (λ k. k % capacity) e
    | inr (e, _) ↦ ap (λ k. k % capacity) e ∙ mod_one_turn (load m (write_pos_at offset)) capacity
  ]

  -- The `k`-th byte held stands behind the write position by what is not held.
  pub held_position :
      (k : ℕ)
      → IsPipe m offset capacity
      → k < data_available m (rx_end offset capacity)
      → (load m (read_pos_at offset) + k) % capacity
        ≡ (load m (write_pos_at offset)
            + (k + (capacity - data_available m (rx_end offset capacity))))
          % capacity
  held_position k v h =
      let bound = free_space_lem v in
      elim (data_available_turn v) [
        | inl (e, _) ↦
            sym (mod_one_turn (load m (read_pos_at offset) + k) capacity)
            ∙ ap (λ j. j % capacity) (omega arith)
        | inr (e, _) ↦ ap (λ j. j % capacity) (omega arith)
      ]
