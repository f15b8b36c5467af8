-- ===== src/Memory/Laws.antt =====
-- What the accesses to the shared memory leave alone and what they read back.
use wasmer_js.Prelude.{
  ℕ, zero, suc, ◌+◌, ◌≤◌, ◌<◌, ◌≡◌, refl, ◌≢◌, ◌⊎◌, inl, ap, ap₂, ◌∙◌, List, [], ◌∷◌, arith, length,
  get_or, ltb, lt→ltb, if◌then◌else◌,
}
use wasmer_js.Memory.{Memory, word_mod, View, load, store, set_index, get_index, copy_in, copy_out}

pub load-store_self : (m : Memory) (a v : ℕ) → v < word_mod → load (store m a v) a ≡ v
unfolding load store
load-store_self m a v h = ground arith

-- A byte outside the four of the word.
pub store_other : (m : Memory) (a v b : ℕ) → (b < a) ⊎ (a + 4 ≤ b) → store m a v b ≡ m b
unfolding store
store_other m a v b h = ground arith

pub load-store_ne :
    (m : Memory) (a v b : ℕ) → (b + 4 ≤ a) ⊎ (a + 4 ≤ b) → load (store m a v) b ≡ load m b
unfolding load store
load-store_ne m a v b h = ground arith

pub load_eq :
    (m n : Memory) (a : ℕ)
    → m a ≡ n a
    → m (a + 1) ≡ n (a + 1)
    → m (a + 2) ≡ n (a + 2)
    → m (a + 3) ≡ n (a + 3)
    → load m a ≡ load n a
unfolding load
load_eq m n a p q r s = cc

pub set_index_self :
    (m : Memory) (v : View) (i x : ℕ) → i < v.count → set_index m v i x (v.base + i) ≡ x
unfolding set_index
set_index_self m v i x h = ground arith

pub set_index_other :
    (m : Memory) (v : View) (i x b : ℕ) → b ≢ v.base + i → set_index m v i x b ≡ m b
unfolding set_index
set_index_other m v i x b h = ground arith

-- A copy changes only the bytes at which it writes.
pub copy_in_other :
    (m : Memory) (v : View) (i : ℕ) (xs : List ℕ) (b : ℕ)
    → (b < v.base + i) ⊎ (v.base + i + length xs ≤ b)
    → copy_in m v i xs b ≡ m b
unfolding copy_in
copy_in_other m v i [] b h = refl
copy_in_other m v i (x ∷ xs) b h =
    copy_in_other (set_index m v i x) v (i + 1) xs b (ground arith)
    ∙ set_index_other m v i x b (ground arith)

-- And never a byte outside its view.
pub copy_in_outside :
    (m : Memory) (v : View) (i : ℕ) (xs : List ℕ) (b : ℕ)
    → (b < v.base) ⊎ (v.base + v.count ≤ b)
    → copy_in m v i xs b ≡ m b
unfolding copy_in
copy_in_outside m v i [] b h = refl
copy_in_outside m v i (x ∷ xs) b h =
    copy_in_outside (set_index m v i x) v (i + 1) xs b h ∙ untouched
  where
    untouched : set_index m v i x b ≡ m b
    untouched = unfold set_index in ground arith

-- The `k`-th byte written is the `k`-th of the source.
pub copy_in_self :
    (m : Memory) (v : View) (i : ℕ) (xs : List ℕ) (k : ℕ)
    → k < length xs
    → i + length xs ≤ v.count
    → copy_in m v i xs (v.base + (i + k)) ≡ get_or xs k 0
unfolding copy_in
copy_in_self m v i [] k h b = elim h [ ]
copy_in_self m v i (x ∷ xs) zero h b =
    copy_in_other (set_index m v i x) v (i + 1) xs (v.base + (i + 0)) (inl (omega arith))
    ∙ ap (set_index m v i x) (omega arith)
    ∙ set_index_self m v i x (omega arith)
copy_in_self m v i (x ∷ xs) (suc k) h b =
    ap (copy_in (set_index m v i x) v (i + 1) xs) (omega arith)
    ∙ copy_in_self (set_index m v i x) v (i + 1) xs k (omega arith) (omega arith)

pub length-copy_out : (m : Memory) (v : View) (i n : ℕ) → length (copy_out m v i n) ≡ n
unfolding copy_out
length-copy_out m v i zero = refl
length-copy_out m v i (suc n) = ap suc (length-copy_out m v (i + 1) n)

-- What was copied in is copied out.
pub copy_out-copy_in :
    (m : Memory) (v : View) (i : ℕ) (xs : List ℕ)
    → i + length xs ≤ v.count
    → copy_out (copy_in m v i xs) v i (length xs) ≡ xs
unfolding copy_in copy_out
copy_out-copy_in m v i [] h = refl
copy_out-copy_in m v i (x ∷ xs) h =
    ap₂ ◌∷◌ first (copy_out-copy_in (set_index m v i x) v (i + 1) xs (omega arith))
  where
    first : get_index (copy_in (set_index m v i x) v (i + 1) xs) v i ≡ x
    first =
        unfold get_index in
        ground (
          arith,
          copy_in_other (set_index m v i x) v (i + 1) xs (v.base + i) (inl (omega arith)),
          set_index_self m v i x (omega arith),
        )

-- Two memories that agree on the view give the same bytes.
pub copy_out_ext :
    (m n : Memory) (v : View) (i k : ℕ)
    → ((b : ℕ) → v.base + i ≤ b → m b ≡ n b)
    → copy_out m v i k ≡ copy_out n v i k
unfolding copy_out
copy_out_ext m n v i zero h = refl
copy_out_ext m n v i (suc k) h =
    ap₂ ◌∷◌ first (copy_out_ext m n v (i + 1) k (λ b l. h b (omega arith)))
  where
    first : get_index m v i ≡ get_index n v i
    first =
        unfold get_index in ap (λ x. if ltb i v.count then x else 0) (h (v.base + i) (omega arith))

-- The `k`-th byte copied out is the one that stands there.
pub get_or-copy_out :
    (m : Memory) (v : View) (i n k : ℕ)
    → k < n
    → i + n ≤ v.count
    → get_or (copy_out m v i n) k 0 ≡ m (v.base + (i + k))
unfolding copy_out
get_or-copy_out m v i zero k h fits = elim h [ ]
get_or-copy_out m v i (suc n) zero h fits =
    unfold get_index in (rw (lt→ltb i v.count (omega arith)) (ap m (omega arith)))
get_or-copy_out m v i (suc n) (suc k) h fits =
    get_or-copy_out m v (i + 1) n k (omega arith) (omega arith) ∙ ap m (omega arith)
