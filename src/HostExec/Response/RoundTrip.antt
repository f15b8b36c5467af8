-- ===== src/HostExec/Response/RoundTrip.antt =====
-- What the scheduler writes is what the worker reads.
use wasmer_js.Prelude.{
  ℕ, ◌+◌, ◌%◌, ◌≤◌, ◌<◌, ◌≡◌, ◌≢◌, refl, ◌∙◌, inl, inr, List, Option, none, some, true, arith, ◌==◌,
  if◌then◌else◌, length, eq→==, ne→==,
}
use wasmer_js.Memory.{Memory, load, store, word_mod, copy_in, copy_out}
use wasmer_js.Memory.Laws.{
  load-store_self, load-store_ne, load_eq, store_other, copy_in_other, copy_out_ext,
  copy_out-copy_in,
}
use wasmer_js.HostExec.Response.{
  msg_type_stdout, msg_type_stderr, msg_type_exit, buffer_view, host_exec_buffer_size, status_at,
  type_at, length_at, session_at, data_at, write_bytes, write_read_response, Output, exit, stdout,
  stderr, raw, output, sign_extend, read_output, read_response, try_read_response, poll_response,
}

-- What a message of a type with some bytes means to the worker.
abbrev pub meaning : ℕ → List ℕ → Output
meaning msg_type bytes =
    if msg_type == msg_type_stdout
    then stdout bytes
    else if msg_type == msg_type_stderr
    then stderr bytes
    else raw msg_type bytes

-- The copy of the bytes leaves the header words alone.
bytes_word :
    (m : Memory) (bytes : Option (List ℕ)) (a : ℕ)
    → a + 4 ≤ data_at
    → load (write_bytes m bytes) a ≡ load m a
unfolding write_bytes
bytes_word m none a h = refl
bytes_word m (some bytes) a h =
    load_eq (copy_in m buffer_view data_at bytes) m a (kept a (omega arith))
      (kept (a + 1) (omega arith)) (kept (a + 2) (omega arith)) (kept (a + 3) (omega arith))
  where
    kept : (b : ℕ) → b < data_at → copy_in m buffer_view data_at bytes b ≡ m b
    kept b l = copy_in_other m buffer_view data_at bytes b (inl (omega arith))

module _ (m : Memory) (session msg_type word : ℕ) (bytes : Option (List ℕ)) where
  abbrev written : Memory
  written = write_read_response m session msg_type word bytes

  pub header_words :
      msg_type < word_mod
      → word < word_mod
      → (load written status_at ≡ 1)
        × (load written type_at ≡ msg_type)
        × (load written length_at ≡ word)
        × (load written session_at ≡ session % word_mod)
  unfolding write_read_response
  header_words h k = (
    load-store_self (write_bytes m₃ bytes) status_at 1 (omega arith),
    load-store_ne (write_bytes m₃ bytes) status_at 1 type_at (inr (omega arith))
        ∙ bytes_word m₃ bytes type_at (omega arith)
        ∙ load-store_ne m₂ session_at (session % word_mod) type_at (inl (omega arith))
        ∙ load-store_ne m₁ length_at word type_at (inl (omega arith))
        ∙ load-store_self m type_at msg_type h,
    load-store_ne (write_bytes m₃ bytes) status_at 1 length_at (inr (omega arith))
        ∙ bytes_word m₃ bytes length_at (omega arith)
        ∙ load-store_ne m₂ session_at (session % word_mod) length_at (inl (omega arith))
        ∙ load-store_self m₁ length_at word k,
    load-store_ne (write_bytes m₃ bytes) status_at 1 session_at (inr (omega arith))
        ∙ bytes_word m₃ bytes session_at (omega arith)
        ∙ load-store_self m₂ session_at (session % word_mod) (omega arith),
  )
    where
      m₁ : Memory
      m₁ = store m type_at msg_type

      m₂ : Memory
      m₂ = store m₁ length_at word

      m₃ : Memory
      m₃ = store m₂ session_at (session % word_mod)

-- The worker copies the bytes of a message out of its buffer as they were written there.
copied_back :
    (m : Memory) (session msg_type word : ℕ) (bytes : List ℕ)
    → data_at + length bytes ≤ host_exec_buffer_size
    → copy_out
        (write_read_response m session msg_type word (some bytes))
        buffer_view
        data_at
        (length bytes)
      ≡ bytes
unfolding write_read_response write_bytes
copied_back m session msg_type word bytes fits =
    copy_out_ext (store (copy_in m₃ buffer_view data_at bytes) status_at 1)
      (copy_in m₃ buffer_view data_at bytes) buffer_view data_at (length bytes)
      (λ b l. store_other (copy_in m₃ buffer_view data_at bytes) status_at 1 b (inr (omega arith)))
    ∙ copy_out-copy_in m₃ buffer_view data_at bytes fits
  where
    m₃ : Memory
    m₃ = store (store (store m type_at msg_type) length_at word) session_at (session % word_mod)

-- What the reads make of a buffer whose words are known.
pub read_response-words :
    (m : Memory) (session msg_type word : ℕ)
    → session < 2147483648
    → (load m status_at ≡ 1)
      × (load m type_at ≡ msg_type)
      × (load m length_at ≡ word)
      × (load m session_at ≡ session % word_mod)
    → (out : Output) → read_output m ≡ out
    → (read_response m session ≡ output out)
      × (try_read_response m ≡ some out)
      × (poll_response m ≡ true)
read_response-words m session msg_type word hs (ps, pt, pl, pi) out e = (matched, tried, polled)
  where
    low : sign_extend (load m session_at) ≡ session
    low = ground (arith, pi)

    matched : read_response m session ≡ output out
    matched = unfold read_response in simp (low, eq→== session session refl, e)

    tried : try_read_response m ≡ some out
    tried = unfold try_read_response in simp (ps, e)

    polled : poll_response m ≡ true
    polled = unfold poll_response in simp (ps)

-- A message of at most 65520 bytes, of any type but an exit, for a session below 2 ^ 31: the worker
-- that waits for this session reads exactly that message, whatever was in its buffer before, and so
-- does one that does not wait; a poll says that it is ready.
pub read_response-write :
    (m : Memory) (session msg_type : ℕ) (bytes : List ℕ)
    → session < 2147483648
    → msg_type < word_mod
    → msg_type ≢ msg_type_exit
    → data_at + length bytes ≤ host_exec_buffer_size
    → let m' = write_read_response m session msg_type (length bytes) (some bytes) in
      (read_response m' session ≡ output (meaning msg_type bytes))
      × (try_read_response m' ≡ some (meaning msg_type bytes))
      × (poll_response m' ≡ true)
read_response-write m session msg_type bytes hs ht ne fits =
    read_response-words m' session msg_type (length bytes) hs words (meaning msg_type bytes) told
  where
    m' : Memory
    m' = write_read_response m session msg_type (length bytes) (some bytes)

    words :
        (load m' status_at ≡ 1)
        × (load m' type_at ≡ msg_type)
        × (load m' length_at ≡ length bytes)
        × (load m' session_at ≡ session % word_mod)
    words = header_words m session msg_type (length bytes) (some bytes) ht (omega arith)

    told : read_output m' ≡ meaning msg_type bytes
    told =
        unfold read_output in
        simp (
          words.2,
          words.1,
          ne→== msg_type msg_type_exit ne,
          copied_back m session msg_type (length bytes) bytes fits,
        )

-- An exit code, any 32-bit word, for a session below 2 ^ 31 is read back as that code by both
-- reads, and a poll says that it is ready.
pub read_response-exit :
    (m : Memory) (session code : ℕ)
    → session < 2147483648
    → code < word_mod
    → let m' = write_read_response m session msg_type_exit code none in
      (read_response m' session ≡ output (exit code))
      × (try_read_response m' ≡ some (exit code))
      × (poll_response m' ≡ true)
read_response-exit m session code hs hc =
    read_response-words m' session msg_type_exit code hs words (exit code) told
  where
    m' : Memory
    m' = write_read_response m session msg_type_exit code none

    words :
        (load m' status_at ≡ 1)
        × (load m' type_at ≡ msg_type_exit)
        × (load m' length_at ≡ code)
        × (load m' session_at ≡ session % word_mod)
    words = header_words m session msg_type_exit code none (omega arith) hc

    told : read_output m' ≡ exit code
    told = unfold read_output in simp (words.1, words.2)
