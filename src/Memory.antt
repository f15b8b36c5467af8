-- ===== src/Memory.antt =====
-- The shared memory that the pipes and the host_exec responses live in: a SharedArrayBuffer, seen
-- through `Int32Array` views (`Atomics.load`, `store`, `add`, `sub`, `compareExchange`) and
-- `Uint8Array` views (`set_index`, `get_index`), as src/pipes/mod.rs and src/pipes/pool.rs use it.
-- A 32-bit word is its bit pattern, a number below 2 ^ 32, little endian in four bytes.
pub mod Laws
use wasmer_js.Prelude.{
  ℕ, zero, suc, ◌+◌, ◌-◌, ◌*◌, ◌/◌, ◌%◌, List, [], ◌∷◌, ltb, ◌==◌, ◌&&◌, leb, if◌then◌else◌,
}

-- A byte for each address.
abbrev pub Memory : Type 0
Memory = ℕ → ℕ

abbrev pub word_mod : ℕ
word_mod = 4294967296

-- `Atomics.load` of the word whose first byte stands at an address.
unfoldable pub load : Memory → ℕ → ℕ
load m a = m a + 256 * m (a + 1) + 65536 * m (a + 2) + 16777216 * m (a + 3)

-- `Atomics.store`; a value that does not fit is cut to 32 bits.
unfoldable pub store : Memory → ℕ → ℕ → Memory
store m a v b =
    if b == a
    then v % 256
    else if b == a + 1
    then v / 256 % 256
    else if b == a + 2
    then v / 65536 % 256
    else if b == a + 3
    then v / 16777216 % 256
    else m b

-- The values that `usize` and `u32` arithmetic of wasm32 wraps round to.
abbrev pub add32 : ℕ → ℕ → ℕ
add32 a b = (a + b) % word_mod

abbrev pub sub32 : ℕ → ℕ → ℕ
sub32 a b = (a + word_mod - b) % word_mod

-- A `Uint8Array` over `count` bytes from `base` on.
pub record View : Type 0 where
  pub base : ℕ
  pub count : ℕ

-- A write out of the view is ignored, and a read out of it is `undefined`, which becomes 0.
unfoldable pub set_index : Memory → View → ℕ → ℕ → Memory
set_index m v i x b = if ltb i v.count && (b == v.base + i) then x else m b

unfoldable pub get_index : Memory → View → ℕ → ℕ
get_index m v i = if ltb i v.count then m (v.base + i) else 0

-- `for i in 0..n { view.set_index(at + i, xs[i]) }` over the `n` bytes `xs`.
unfoldable pub copy_in : Memory → View → ℕ → List ℕ → Memory
copy_in m v i [] = m
copy_in m v i (x ∷ xs) = copy_in (set_index m v i x) v (i + 1) xs

-- `for i in 0..n { out[i] = view.get_index(at + i) }`.
unfoldable pub copy_out : Memory → View → ℕ → ℕ → List ℕ
copy_out m v i zero = []
copy_out m v i (suc n) = get_index m v i ∷ copy_out m v (i + 1) n
