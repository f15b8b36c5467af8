-- ===== src/Fork/Copy.antt =====
-- `copy_memory` of src/tasks/task_wasm.rs: the memory of a forked process.
use wasmer_js.Prelude.{
  ℕ, zero, suc, ◌+◌, ◌-◌, ◌*◌, ◌/◌, ◌≤◌, ◌<◌, ◌≡◌, ◌⊎◌, inl, inr, refl, ap, ◌∙◌, min, Option, none,
  some, Bool, true, ltb, leb, if◌then◌else◌, arith, le→leb, lt→ltb, le→ltb_false, subst,
}
use wasmer_js.Memory.{Memory, View, sub32, copy_in, copy_out}
use wasmer_js.Memory.Laws.{copy_in_other, copy_in_self, length-copy_out, get_or-copy_out}

abbrev pub wasm_page_size : ℕ
wasm_page_size = 65536

-- A `WebAssembly.Memory`: the bytes of its buffer and how many there are.
pub record WasmMemory : Type 0 where
  pub bytes : Memory
  pub byte_length : ℕ

-- `MemoryType`, in pages, less whether the memory is shared.
pub record MemoryType : Type 0 where
  pub minimum : ℕ
  pub maximum : Option ℕ

-- `out_of_memory` is the error that the engine makes no memory, `thrown` what JavaScript throws where
-- a memory cannot grow, and `stuck` that the fuel of the loop ran out.
pub data Copied : Type 0 where
  copied : WasmMemory → Copied
  out_of_memory thrown stuck : Copied

abbrev pub view_of : WasmMemory → View
view_of m = record { base = 0; count = m.byte_length }

abbrev pub chunk_size : ℕ
chunk_size = 40960

-- `while offset < src_size`: a chunk is copied out of the source and into the copy.
unfoldable pub copy_chunks : ℕ → WasmMemory → WasmMemory → ℕ → Option WasmMemory
copy_chunks zero src dst offset = none
copy_chunks (suc fuel) src dst offset =
    let sublen = min (src.byte_length - offset) chunk_size in
    let chunk = copy_out src.bytes (view_of src) offset sublen in
    let copy = record dst { bytes = copy_in dst.bytes (view_of dst) offset chunk } in
    let rest = copy_chunks fuel src copy (offset + sublen) in
    if ltb offset src.byte_length then rest else some dst

-- `WebAssembly::Memory::new`, whose bytes are 0, where the engine can make it.
abbrev pub new_memory : MemoryType → WasmMemory
new_memory ty = record { bytes = λ b. 0; byte_length = ty.minimum * wasm_page_size }

-- The most pages that a memory may have: 65536 if its type does not say.
abbrev pub max_pages : Option ℕ → ℕ
max_pages none = 65536
max_pages (some pages) = pages

-- `WebAssembly::Memory::grow`.
unfoldable pub grow : MemoryType → WasmMemory → ℕ → Option WasmMemory
grow ty m pages =
    if leb (m.byte_length / wasm_page_size + pages) (max_pages ty.maximum)
    then some (record m { byte_length = m.byte_length + pages * wasm_page_size })
    else none

abbrev pub as_copied : Option WasmMemory → Copied
as_copied none = stuck
as_copied (some m) = copied m

abbrev pub fill : WasmMemory → Option WasmMemory → Copied
fill src none = thrown
fill src (some dst) = as_copied (copy_chunks (src.byte_length / chunk_size + 2) src dst 0)

unfoldable pub copy_memory : Bool → WasmMemory → MemoryType → Copied
copy_memory creates src ty =
    if creates
    then fill src (grow ty (new_memory ty) (sub32 src.byte_length 1 / wasm_page_size + 1))
    else out_of_memory

lt-or-le : (a b : ℕ) → (a < b) ⊎ (b ≤ a)
lt-or-le a b = grind arith

-- The copy up to an offset.
record IsCopy (src dst : WasmMemory) (offset : ℕ) : Type 0 where
  same : (b : ℕ) → b < offset → dst.bytes b ≡ src.bytes b
  zeros : (b : ℕ) → offset ≤ b → dst.bytes b ≡ 0
  room : src.byte_length ≤ dst.byte_length
  inside : offset ≤ src.byte_length

chunk-IsCopy :
    (src dst : WasmMemory) (offset n : ℕ)
    → offset + n ≤ src.byte_length
    → IsCopy src dst offset
    → IsCopy src
        (record dst {
          bytes =
              copy_in dst.bytes (view_of dst) offset (copy_out src.bytes (view_of src) offset n);
        })
        (offset + n)
chunk-IsCopy src dst offset n fits h = record {
  same = λ b l. byte b l (lt-or-le b offset);
  zeros = λ b l.
      copy_in_other dst.bytes (view_of dst) offset (copy_out src.bytes (view_of src) offset n) b
        (inr (omega (arith, length-copy_out src.bytes (view_of src) offset n)))
      ∙ h.zeros b (omega arith);
  room = h.room;
  inside = fits;
}
  where
    byte :
        (b : ℕ)
        → b < offset + n
        → (b < offset) ⊎ (offset ≤ b)
        → copy_in dst.bytes (view_of dst) offset (copy_out src.bytes (view_of src) offset n) b
          ≡ src.bytes b
    byte b l (inl before) =
        copy_in_other dst.bytes (view_of dst) offset (copy_out src.bytes (view_of src) offset n) b
          (inl (omega arith))
        ∙ h.same b before
    byte b l (inr behind) =
        let e : b ≡ 0 + (offset + (b - offset)) = omega arith in
        rw e (
          copy_in_self dst.bytes (view_of dst) offset (copy_out src.bytes (view_of src) offset n)
            (b - offset) (omega (arith, length-copy_out src.bytes (view_of src) offset n))
            (omega (arith, length-copy_out src.bytes (view_of src) offset n, h.room))
          ∙ get_or-copy_out src.bytes (view_of src) offset n (b - offset) (omega arith) fits)

-- With enough fuel the loop ends, and the copy is of the whole source.
copy_chunks-IsCopy :
    (fuel : ℕ) (src dst : WasmMemory) (offset : ℕ)
    → src.byte_length + chunk_size ≤ offset + fuel * chunk_size
    → IsCopy src dst offset
    → (m : WasmMemory) × (copy_chunks fuel src dst offset ≡ some m)
      × IsCopy src m src.byte_length
      × (m.byte_length ≡ dst.byte_length)
unfolding copy_chunks
copy_chunks-IsCopy zero src dst offset enough h = absurd (omega (arith, h.inside))
copy_chunks-IsCopy (suc fuel) src dst offset enough h =
    let n = min (src.byte_length - offset) chunk_size in
    let copy : WasmMemory = record dst {
      bytes = copy_in dst.bytes (view_of dst) offset (copy_out src.bytes (view_of src) offset n);
    } in
    elim (lt-or-le offset src.byte_length) [
      | inl more ↦ rw (lt→ltb offset src.byte_length more) (
          copy_chunks-IsCopy fuel src copy (offset + n) (omega arith)
            (chunk-IsCopy src dst offset n (omega arith) h))
      | inr done ↦ (
        dst,
        rw (le→ltb_false offset src.byte_length done),
        subst (IsCopy src dst) (omega (arith, h.inside)) h,
        refl,
      )
    ]

grow-none :
    (ty : MemoryType) (pages : ℕ)
    → max_pages ty.maximum < ty.minimum + pages
    → grow ty (new_memory ty) pages ≡ none
unfolding grow
grow-none ty pages h =
    let e : ty.minimum * wasm_page_size / wasm_page_size ≡ ty.minimum = omega arith in
    ground (arith, e)

-- A memory of at least one byte, and as many as a 32-bit number counts, where the engine can make a
-- new one and this may grow to its first pages and those of the source together: the copy is made,
-- with all bytes of the source and zeros behind them. It is larger than the source's pages by the
-- first pages of its type. Where it may not grow so far, the call throws.
pub copy_memory_lem :
    (src : WasmMemory) (ty : MemoryType)
    → 0 < src.byte_length
    → src.byte_length < 4294967296
    → let pages = (src.byte_length - 1) / wasm_page_size + 1 in
      (ty.minimum + pages ≤ max_pages ty.maximum
        → (m : WasmMemory) × (copy_memory true src ty ≡ copied m)
          × ((b : ℕ) → b < src.byte_length → m.bytes b ≡ src.bytes b)
          × ((b : ℕ) → src.byte_length ≤ b → m.bytes b ≡ 0)
          × (m.byte_length ≡ (ty.minimum + pages) * wasm_page_size))
      × (max_pages ty.maximum < ty.minimum + pages → copy_memory true src ty ≡ thrown)
unfolding copy_memory grow
copy_memory_lem src ty some_bytes fits = (
  λ room.
      let grown : WasmMemory = record (new_memory ty) {
        byte_length = ty.minimum * wasm_page_size + pages * wasm_page_size;
      } in
      let (m, e, c, k) =
        copy_chunks-IsCopy (src.byte_length / chunk_size + 2) src grown 0 (omega arith) (record {
          same = λ b l. elim l [ ];
          zeros = λ b l. refl;
          room = omega arith;
          inside = omega arith;
        }) in
      (
        m,
        rw
            (
              same_pages,
              le→leb (ty.minimum * wasm_page_size / wasm_page_size + pages) (max_pages ty.maximum)
                  (omega arith),
            )
            (ap as_copied e),
        c.same,
        c.zeros,
        k ∙ omega arith,
      ),
  λ tight. rw (same_pages, grow-none ty pages tight),
)
  where
    pages : ℕ
    pages = (src.byte_length - 1) / wasm_page_size + 1

    same_pages : sub32 src.byte_length 1 / wasm_page_size + 1 ≡ pages
    same_pages = omega arith
