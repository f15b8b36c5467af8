-- ===== src/HostExec/Response/Limits.antt =====
-- Where the response buffer falls short.
use wasmer_js.Prelude.{
  ℕ, ◌+◌, ◌-◌, ◌%◌, ◌≤◌, ◌<◌, ◌≡◌, refl, ap, ap₂, ◌∙◌, inl, inr, List, Option, some, arith, zero,
  suc, [], ◌∷◌, ◌++◌, length, take, ne→==,
}
use wasmer_js.Memory.{Memory, View, load, store, word_mod, copy_in, copy_out, get_index, set_index}
use wasmer_js.Memory.Laws.{copy_in_other, copy_out_ext, store_other, set_index_self}
use wasmer_js.HostExec.Response.{
  msg_type_stdout, buffer_view, host_exec_buffer_size, status_at, type_at, length_at, session_at,
  data_at, write_bytes, write_read_response, stdout, output, session_mismatch, sign_extend,
  read_output, read_response,
}
use wasmer_js.HostExec.Response.RoundTrip.{header_words, read_response-words}

-- `n` zero bytes.
unfoldable pub zeros : ℕ → List ℕ
zeros zero = []
zeros (suc n) = 0 ∷ zeros n

-- Reads past the end of the view are zeros.
copy_out_past : (m : Memory) (v : View) (i n : ℕ) → v.count ≤ i → copy_out m v i n ≡ zeros n
unfolding copy_out zeros get_index
copy_out_past m v i zero h = refl
copy_out_past m v i (suc n) h = ap₂ ◌∷◌ (ground arith) (copy_out_past m v (i + 1) n (omega arith))

-- What fits of a long copy is read back; the rest comes back as zeros.
copy_out-copy_in_cut :
    (m : Memory) (v : View) (i n : ℕ) (xs : List ℕ)
    → i + n ≡ v.count
    → n ≤ length xs
    → copy_out (copy_in m v i xs) v i (length xs) ≡ take n xs ++ zeros (length xs - n)
unfolding copy_out copy_in
copy_out-copy_in_cut m v i zero xs h k =
    copy_out_past (copy_in m v i xs) v i (length xs) (omega arith) ∙ ap zeros (omega arith)
copy_out-copy_in_cut m v i (suc n) [] h k = absurd (omega arith)
copy_out-copy_in_cut m v i (suc n) (x ∷ xs) h k = ap₂ ◌∷◌ first (
    copy_out-copy_in_cut (set_index m v i x) v (i + 1) n xs (omega arith) (omega arith)
    ∙ ap (λ k. take n xs ++ zeros k) (omega arith))
  where
    first : get_index (copy_in (set_index m v i x) v (i + 1) xs) v i ≡ x
    first =
        unfold get_index in
        ground (
          arith,
          copy_in_other (set_index m v i x) v (i + 1) xs (v.base + i) (inl (omega arith)),
          set_index_self m v i x (omega arith),
        )

-- The bytes that the buffer has room for, 65520.
unfoldable pub room : ℕ
room = host_exec_buffer_size - data_at

-- An output message of 65520 bytes or more, for a session below 2 ^ 31, comes back with the length it
-- was sent with, but only its first 65520 bytes are there: the others are lost, and zeros stand in
-- their place.
pub read_response-long :
    (m : Memory) (session : ℕ) (bytes : List ℕ)
    → session < 2147483648
    → room ≤ length bytes
    → length bytes < word_mod
    → read_response
        (write_read_response m session msg_type_stdout (length bytes) (some bytes))
        session
      ≡ output (stdout (take room bytes ++ zeros (length bytes - room)))
read_response-long m session bytes hs long hl =
    (read_response-words m' session msg_type_stdout (length bytes) hs words
      (stdout (take room bytes ++ zeros (length bytes - room))) told).0
  where
    m' : Memory
    m' = write_read_response m session msg_type_stdout (length bytes) (some bytes)

    m₃ : Memory
    m₃ =
        store (store (store m type_at msg_type_stdout) length_at (length bytes)) session_at
          (session % word_mod)

    words :
        (load m' status_at ≡ 1)
        × (load m' type_at ≡ msg_type_stdout)
        × (load m' length_at ≡ length bytes)
        × (load m' session_at ≡ session % word_mod)
    words = header_words m session msg_type_stdout (length bytes) (some bytes) (omega arith) hl

    cut :
        copy_out m' buffer_view data_at (length bytes)
        ≡ take room bytes ++ zeros (length bytes - room)
    cut =
        unfold write_read_response write_bytes in
        copy_out_ext (store (copy_in m₃ buffer_view data_at bytes) status_at 1)
          (copy_in m₃ buffer_view data_at bytes) buffer_view data_at (length bytes)
          (λ b l.
            store_other (copy_in m₃ buffer_view data_at bytes) status_at 1 b (inr (omega arith)))
        ∙ copy_out-copy_in_cut m₃ buffer_view data_at room bytes (unfold room in refl) long

    told : read_output m' ≡ stdout (take room bytes ++ zeros (length bytes - room))
    told = unfold read_output in simp (words.1, words.2, cut)

-- A worker that waits for a session from 2 ^ 31 up to 2 ^ 32 does not read a message of it: the
-- session comes back with its sign extended, and the read reports a mismatch.
pub read_response-sign :
    (m : Memory) (session msg_type word : ℕ) (bytes : Option (List ℕ))
    → 2147483648 ≤ session
    → session < word_mod
    → msg_type < word_mod
    → word < word_mod
    → read_response (write_read_response m session msg_type word bytes) session
      ≡ session_mismatch session (session + 18446744069414584320)
read_response-sign m session msg_type word bytes hs hw ht hl =
    unfold read_response in
    simp (extended, ne→== (session + 18446744069414584320) session (omega arith))
  where
    extended :
        sign_extend (load (write_read_response m session msg_type word bytes) session_at)
        ≡ session + 18446744069414584320
    extended = ground (arith, (header_words m session msg_type word bytes ht hl).3)
