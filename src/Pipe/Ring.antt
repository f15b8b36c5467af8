-- ===== src/Pipe/Ring.antt =====
-- Reading round a ring: `slice f capacity p n` is the `n` bytes from position `p` on, where position
-- `p` stands at index `p % capacity`.
use native.Mathlib.Nat.{mod-add-mod, mod-eq_of_lt, mod-eq-sub-mod}
use native.Mathlib.Decide.{dec_lt}
use wasmer_js.Prelude.{
  ℕ, zero, suc, ◌+◌, ◌-◌, ◌%◌, ◌≤◌, ◌<◌, ◌≡◌, refl, sym, ap, ap₂, ◌∙◌, ◌⊎◌, inl, inr, List, [], ◌∷◌,
  ◌++◌, arith, length, take, drop, get_or, take_append_exact, drop_append_left,
}

unfoldable pub slice : (ℕ → ℕ) → ℕ → ℕ → ℕ → List ℕ
slice f capacity p zero = []
slice f capacity p (suc n) = f (p % capacity) ∷ slice f capacity (p + 1) n

module _ (f : ℕ → ℕ) (capacity : ℕ) where
  pub length-slice : (p n : ℕ) → length (slice f capacity p n) ≡ n
  unfolding slice
  length-slice p zero = refl
  length-slice p (suc n) = ap suc (length-slice (p + 1) n)

  pub slice-add :
      (p a b : ℕ) → slice f capacity p (a + b) ≡ slice f capacity p a ++ slice f capacity (p + a) b
  unfolding slice
  slice-add p zero b = ap₂ (λ q n. slice f capacity q n) (omega arith) (omega arith)
  slice-add p (suc a) b =
      let e : suc a + b ≡ suc (a + b) = omega arith in
      rw e (
        ap (◌∷◌ (f (p % capacity))) (
          slice-add (p + 1) a b
          ∙ ap (λ q. slice f capacity (p + 1) a ++ slice f capacity q b) (omega arith)))

  -- Positions that stand at one index begin the same slices.
  pub slice_mod :
      (p q n : ℕ) → p % capacity ≡ q % capacity → slice f capacity p n ≡ slice f capacity q n
  unfolding slice
  slice_mod p q zero e = refl
  slice_mod p q (suc n) e = ap₂ ◌∷◌ (ap f e) (slice_mod (p + 1) (q + 1) n next)
    where
      next : (p + 1) % capacity ≡ (q + 1) % capacity
      next =
          sym (mod-add-mod p capacity 1) ∙ ap (λ r. (r + 1) % capacity) e ∙ mod-add-mod q capacity 1

  -- Taking and dropping bytes of a slice.
  pub take-slice : (p a n : ℕ) → a ≤ n → take a (slice f capacity p n) ≡ slice f capacity p a
  take-slice p a n h =
      ap (λ k. take a (slice f capacity p k)) (split)
      ∙ ap (take a) (slice-add p a (n - a))
      ∙ take_append_exact a (slice f capacity p a) (slice f capacity (p + a) (n - a))
          (sym (length-slice p a))
    where
      split : n ≡ a + (n - a)
      split = omega arith

  pub drop-slice :
      (p a n : ℕ) → a ≤ n → drop a (slice f capacity p n) ≡ slice f capacity (p + a) (n - a)
  drop-slice p a n h =
      ap (λ k. drop a (slice f capacity p k)) (split)
      ∙ ap (drop a) (slice-add p a (n - a))
      ∙ drop_append_left a (slice f capacity p a) (slice f capacity (p + a) (n - a))
          (sym (length-slice p a))
    where
      split : n ≡ a + (n - a)
      split = omega arith

  -- The slice is the list that gives its bytes.
  pub slice_of_bytes :
      (xs : List ℕ) (p : ℕ)
      → ((k : ℕ) → k < length xs → f ((p + k) % capacity) ≡ get_or xs k 0)
      → slice f capacity p (length xs) ≡ xs
  unfolding slice
  slice_of_bytes [] p h = refl
  slice_of_bytes (x ∷ xs) p h =
      ap₂ ◌∷◌ (ap (λ q. f (q % capacity)) (omega arith) ∙ h 0 (omega arith)) (
        slice_of_bytes xs (p + 1)
          λ k lt. ap (λ q. f (q % capacity)) (omega arith) ∙ h (suc k) (omega arith))

-- A slice looks only at its own indices.
pub slice_ext :
    (f g : ℕ → ℕ) (capacity p n : ℕ)
    → ((k : ℕ) → k < n → f ((p + k) % capacity) ≡ g ((p + k) % capacity))
    → slice f capacity p n ≡ slice g capacity p n
unfolding slice
slice_ext f g capacity p zero h = refl
slice_ext f g capacity p (suc n) h =
    ap₂ ◌∷◌
      (ap (λ q. f (q % capacity)) zero_off
        ∙ h 0 (omega arith)
        ∙ ap (λ q. g (q % capacity)) (sym zero_off))
      (slice_ext f g capacity (p + 1) n λ k lt.
        ap (λ q. f (q % capacity)) (shift k)
        ∙ h (suc k) (omega arith)
        ∙ ap (λ q. g (q % capacity)) (sym (shift k)))
  where
    zero_off : p ≡ p + 0
    zero_off = omega arith

    shift : (k : ℕ) → p + 1 + k ≡ p + suc k
    shift k = omega arith

-- One turn round the ring, written as a comparison.
pub mod_turn :
    (p k capacity : ℕ)
    → p < capacity
    → k < capacity
    → ((p + k < capacity) × ((p + k) % capacity ≡ p + k))
      ⊎ ((capacity ≤ p + k) × ((p + k) % capacity ≡ p + k - capacity))
mod_turn p k capacity hp hk = elim (dec_lt (p + k) capacity) [
  | yes h ↦ inl (h, mod-eq_of_lt h)
  | no h ↦ inr (omega arith, past (omega arith))
]
  where
    past : capacity ≤ p + k → (p + k) % capacity ≡ p + k - capacity
    past h =
        mod-eq-sub-mod {n = p + k} {m = capacity} h
        ∙ mod-eq_of_lt {n = p + k - capacity} {m = capacity} (omega arith)

pub mod_one_turn : (p capacity : ℕ) → (p + capacity) % capacity ≡ p % capacity
mod_one_turn p capacity =
    mod-eq-sub-mod {n = p + capacity} {m = capacity} (omega arith)
    ∙ ap (λ k. k % capacity) (omega arith)
