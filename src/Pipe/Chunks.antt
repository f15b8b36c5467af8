-- ===== src/Pipe/Chunks.antt =====
-- The copy loops of `write_data`: where each byte of a write goes, and what keeps its byte.
use native.Mathlib.Nat.{mod-lt}
use wasmer_js.Prelude.{
  ℕ, ◌+◌, ◌-◌, ◌%◌, ◌≤◌, ◌<◌, min, ◌≡◌, ap, ◌∙◌, ◌⊎◌, inl, inr, List, arith, length, take, drop,
  get_or, length-take, length-drop, get_or-take, get_or-drop,
}
use wasmer_js.Memory.{Memory, load, store, View, copy_in, add32, sub32}
use wasmer_js.Memory.Laws.{
  load-store_self, store_other, copy_in_other, copy_in_self, copy_in_outside,
}
use wasmer_js.Pipe.{header_size, write_pos_at, write_chunks, data_view}
use wasmer_js.Pipe.Ring.{mod_turn}
use wasmer_js.Pipe.Space.{IsPipe, tx_end}

-- The two copy loops, for chunk sizes that are given with what they are.
module _ (m : Memory) (v : View) (w n c₁ c₂ : ℕ) (bytes : List ℕ)
    (first_size : c₁ ≡ min (v.count - w) n) (second_size : c₂ ≡ n - c₁) (enough : n ≤ length bytes)
    (fits : n < v.count) (start : w < v.count) where
  chunks : Memory
  chunks = copy_in (copy_in m v w (take c₁ bytes)) v 0 (take c₂ (drop c₁ bytes))

  first_length : length (take c₁ bytes) ≡ c₁
  first_length = omega (arith, length-take c₁ bytes)

  second_length : length (take c₂ (drop c₁ bytes)) ≡ c₂
  second_length = omega (arith, length-take c₂ (drop c₁ bytes), length-drop c₁ bytes)

  -- The `k`-th byte stands at the `k`-th index from the write position on, going round.
  chunks_self : (k : ℕ) → k < n → chunks (v.base + (w + k) % v.count) ≡ get_or bytes k 0
  unfolding chunks
  chunks_self k h = elim (mod_turn w k v.count start (omega arith)) [
    | inl (inside, e) ↦ rw e (
        copy_in_other (copy_in m v w (take c₁ bytes)) v 0 (take c₂ (drop c₁ bytes))
          (v.base + (w + k)) (inr (omega (arith, second_length)))
        ∙ copy_in_self m v w (take c₁ bytes) k (omega (arith, first_length))
            (omega (arith, first_length))
        ∙ get_or-take c₁ k bytes 0 (omega arith))
    | inr (past, e) ↦ rw e (
        ap (copy_in (copy_in m v w (take c₁ bytes)) v 0 (take c₂ (drop c₁ bytes)))
          {x = v.base + (w + k - v.count)} {y = v.base + (0 + (k - c₁))} (omega arith)
        ∙ copy_in_self (copy_in m v w (take c₁ bytes)) v 0 (take c₂ (drop c₁ bytes)) (k - c₁)
            (omega (arith, second_length)) (omega (arith, second_length))
        ∙ get_or-take c₂ (k - c₁) (drop c₁ bytes) 0 (omega arith)
        ∙ get_or-drop c₁ (k - c₁) bytes 0
        ∙ ap (λ i. get_or bytes i 0) (omega arith))
  ]

  -- The other indices keep their bytes.
  chunks_other :
      (k : ℕ)
      → n ≤ k
      → k < v.count
      → chunks (v.base + (w + k) % v.count) ≡ m (v.base + (w + k) % v.count)
  unfolding chunks
  chunks_other k h l = elim (mod_turn w k v.count start l) [
    | inl (inside, e) ↦ rw e (
        copy_in_other (copy_in m v w (take c₁ bytes)) v 0 (take c₂ (drop c₁ bytes))
          (v.base + (w + k)) (inr (omega (arith, second_length)))
        ∙ copy_in_other m v w (take c₁ bytes) (v.base + (w + k))
            (inr (omega (arith, first_length))))
    | inr (past, e) ↦ rw e (
        copy_in_other (copy_in m v w (take c₁ bytes)) v 0 (take c₂ (drop c₁ bytes))
          (v.base + (w + k - v.count)) (inr (omega (arith, second_length)))
        ∙ copy_in_other m v w (take c₁ bytes) (v.base + (w + k - v.count)) (inl (omega arith)))
  ]

  -- Nothing outside the data area is touched.
  chunks_outside : (b : ℕ) → (b < v.base) ⊎ (v.base + v.count ≤ b) → chunks b ≡ m b
  unfolding chunks
  chunks_outside b h =
      copy_in_outside (copy_in m v w (take c₁ bytes)) v 0 (take c₂ (drop c₁ bytes)) b h
      ∙ copy_in_outside m v w (take c₁ bytes) b h

-- What a write of `n` bytes at the write position does.
pub record Wrote (m : Memory) (offset capacity n : ℕ) (bytes : List ℕ) (m' : Memory) : Type 0 where
  pub at_self :
      (k : ℕ)
      → k < n
      → m' (offset + header_size + (load m (write_pos_at offset) + k) % capacity) ≡ get_or bytes k 0
  pub at_other :
      (k : ℕ)
      → n ≤ k
      → k < capacity
      → m' (offset + header_size + (load m (write_pos_at offset) + k) % capacity)
        ≡ m (offset + header_size + (load m (write_pos_at offset) + k) % capacity)
  pub outside :
      (b : ℕ)
      → (b < offset)
        ⊎ ((offset + 4 ≤ b) × (b < offset + header_size))
        ⊎ (offset + header_size + capacity ≤ b)
      → m' b ≡ m b
  pub moved : load m' (write_pos_at offset) ≡ (load m (write_pos_at offset) + n) % capacity

module _ (m : Memory) (offset capacity n : ℕ) (bytes : List ℕ) (v : IsPipe m offset capacity)
    (enough : n ≤ length bytes) (fits : n < capacity) where
  abbrev pub w : ℕ
  w = load m (write_pos_at offset)

  abbrev pub c₁ : ℕ
  c₁ = min (sub32 capacity w) n

  abbrev pub c₂ : ℕ
  c₂ = sub32 n c₁

  first_size : c₁ ≡ min (capacity - w) n
  first_size = omega arith

  second_size : c₂ ≡ n - c₁
  second_size = omega arith

  abbrev pub copied : Memory
  copied = write_chunks m (tx_end offset capacity) w n bytes

  abbrev pub moved_on : Memory
  moved_on = store copied (write_pos_at offset) (add32 w n % capacity)

  new_pos : add32 w n % capacity ≡ (w + n) % capacity
  new_pos = ap (λ k. k % capacity) (omega arith)

  -- The copy before the position moves on.
  pub copied_self :
      (k : ℕ) → k < n → copied (offset + header_size + (w + k) % capacity) ≡ get_or bytes k 0
  unfolding write_chunks chunks
  copied_self k h =
      chunks_self m (data_view offset capacity) w n c₁ c₂ bytes first_size second_size enough fits
        v.write_in k h

  pub copied_other :
      (k : ℕ)
      → n ≤ k
      → k < capacity
      → copied (offset + header_size + (w + k) % capacity)
        ≡ m (offset + header_size + (w + k) % capacity)
  unfolding write_chunks chunks
  copied_other k h l =
      chunks_other m (data_view offset capacity) w n c₁ c₂ bytes first_size second_size enough fits
        v.write_in k h l

  pub copied_outside :
      (b : ℕ) → (b < offset + header_size) ⊎ (offset + header_size + capacity ≤ b) → copied b ≡ m b
  unfolding write_chunks chunks
  copied_outside b h =
      chunks_outside m (data_view offset capacity) w n c₁ c₂ bytes first_size second_size enough
        fits v.write_in b h

  pub moved_on-Wrote : Wrote m offset capacity n bytes moved_on
  moved_on-Wrote = record {
    at_self = λ k h.
        store_other copied offset (add32 w n % capacity) (offset + header_size + (w + k) % capacity)
          (inr (omega arith))
        ∙ copied_self k h;
    at_other = λ k h l.
        store_other copied offset (add32 w n % capacity) (offset + header_size + (w + k) % capacity)
          (inr (omega arith))
        ∙ copied_other k h l;
    outside = λ b h.
        store_other copied offset (add32 w n % capacity) b (ground arith)
        ∙ copied_outside b (ground arith);
    moved =
        load-store_self copied offset (add32 w n % capacity)
          (grind (arith, mod-lt (add32 w n) {m = capacity} (omega arith)))
        ∙ new_pos;
  }
