-- ===== src/Pipe/Close.antt =====
-- `close` of either end: the flag is set, the bytes stay.
use wasmer_js.Prelude.{ℕ, ◌+◌, ◌≡◌, ap, ap₂, ◌∙◌, inl, inr, arith, true, fun_ext}
use wasmer_js.Memory.{Memory, load}
use wasmer_js.Memory.Laws.{load-store_self, load-store_ne, store_other}
use wasmer_js.Pipe.{
  header_size, write_pos_at, read_pos_at, closed_at, is_closed, close, data_available,
}
use wasmer_js.Pipe.Ring.{slice}
use wasmer_js.Pipe.Space.{IsPipe, rx_end, contents}

module _ (m : Memory) (offset capacity : ℕ) where
  pub same_write_pos : load (close m offset) (write_pos_at offset) ≡ load m (write_pos_at offset)
  unfolding close
  same_write_pos = load-store_ne m (closed_at offset) 1 offset (inl (omega arith))

  pub same_read_pos : load (close m offset) (read_pos_at offset) ≡ load m (read_pos_at offset)
  unfolding close
  same_read_pos = load-store_ne m (closed_at offset) 1 (read_pos_at offset) (inl (omega arith))

  pub close-IsPipe : IsPipe m offset capacity → IsPipe (close m offset) offset capacity
  close-IsPipe v = record {
    positive = v.positive;
    inside = v.inside;
    write_in = rw same_write_pos v.write_in;
    read_in = rw same_read_pos v.read_in;
  }

  pub is_closed-close : is_closed (close m offset) offset ≡ true
  unfolding is_closed close
  is_closed-close = rw (load-store_self m (closed_at offset) 1 (omega arith))

  pub same_byte : (i : ℕ) → close m offset (offset + header_size + i) ≡ m (offset + header_size + i)
  unfolding close
  same_byte i = store_other m (closed_at offset) 1 (offset + header_size + i) (inr (omega arith))

  pub same_held :
      data_available (close m offset) (rx_end offset capacity)
      ≡ data_available m (rx_end offset capacity)
  unfolding data_available
  same_held = rw (same_write_pos, same_read_pos)

  -- A close discards nothing: what was written can still be read.
  pub contents-close : contents (close m offset) offset capacity ≡ contents m offset capacity
  contents-close =
      ap
        (λ f.
          slice f capacity (load (close m offset) (read_pos_at offset))
            (data_available (close m offset) (rx_end offset capacity)))
        (fun_ext same_byte)
      ∙ ap₂ (slice (λ i. m (offset + header_size + i)) capacity) same_read_pos same_held
