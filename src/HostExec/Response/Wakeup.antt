-- ===== src/HostExec/Response/Wakeup.antt =====
-- The wait of `host_exec_read` (src/runtime.rs): the request is sent, the status word is set to 0,
-- and only then the worker waits. Each answer notifies it.
use wasmer_js.Prelude.{
  ℕ, ◌+◌, ◌<◌, ◌≤◌, ◌≡◌, ◌≢◌, refl, ap, ◌∙◌, ◌==◌, if◌then◌else◌, arith, List, [], ◌∷◌, Option,
  none, some, length,
}
use wasmer_js.Memory.{Memory, load, store, word_mod}
use wasmer_js.Memory.Laws.{load-store_self}
use wasmer_js.HostExec.Response.{
  host_exec_buffer_size, msg_type_exit, data_at, status_at, write_read_response, ReadResult, output,
  read_response,
}
use wasmer_js.HostExec.Response.RoundTrip.{meaning, header_words, read_response-write}

-- What the scheduler writes to the buffer, in order.
abbrev pub written_by : Memory → List (Memory → Memory) → Memory
written_by m [] = m
written_by m (answer ∷ answers) = written_by (answer m) answers

-- What `Atomics.wait` returns with: at once where the status is not the 0 that it compares with, and
-- otherwise with the first answer that comes after that, which notifies. `none` says that the worker
-- sleeps for ever.
unfoldable pub wait : Memory → List (Memory → Memory) → Option Memory
wait m [] = if load m status_at == 0 then none else some m
wait m (answer ∷ late) = if load m status_at == 0 then some (answer m) else some m

abbrev pub read_at : ℕ → Option Memory → Option ReadResult
read_at session none = none
read_at session (some m) = some (read_response m session)

-- The wait of `host_exec_read`: answers come before the worker sets the status to 0, between that
-- and the wait, and during the wait.
unfoldable pub blocking_read :
    Memory
    → ℕ
    → List (Memory → Memory)
    → List (Memory → Memory)
    → List (Memory → Memory)
    → Option ReadResult
blocking_read m session early between late =
    let reset = store (written_by m early) status_at 0 in
    read_at session (wait (written_by reset between) late)

-- A session below 2 ^ 31, and an answer of at most 65520 bytes, no exit. Whatever was written before
-- the worker sets the status to 0: the first answer after that is what the read returns, whether it
-- comes before the wait or during it, and if none comes the worker sleeps for ever, also if its
-- answer was among those before.
pub blocking_read_race :
    (m : Memory) (session msg_type : ℕ) (bytes : List ℕ) (early late : List (Memory → Memory))
    → session < 2147483648
    → msg_type < word_mod
    → msg_type ≢ msg_type_exit
    → data_at + length bytes ≤ host_exec_buffer_size
    → let answer : Memory → Memory =
        λ n. write_read_response n session msg_type (length bytes) (some bytes) in
      let returned : Option ReadResult = some (output (meaning msg_type bytes)) in
      (blocking_read m session early (answer ∷ []) late ≡ returned)
      × (blocking_read m session early [] (answer ∷ late) ≡ returned)
      × (blocking_read m session early [] [] ≡ none)
unfolding blocking_read wait
blocking_read_race m session msg_type bytes early late hs ht ne fits = (
  ap (read_at session) (at_once late) ∙ read_back,
  rw (load-store_self (written_by m early) status_at 0 (omega arith)) read_back,
  rw (load-store_self (written_by m early) status_at 0 (omega arith)) refl,
)
  where
    reset : Memory
    reset = store (written_by m early) status_at 0

    answered : Memory
    answered = write_read_response reset session msg_type (length bytes) (some bytes)

    read_back : read_at session (some answered) ≡ some (output (meaning msg_type bytes))
    read_back = ap some (read_response-write reset session msg_type bytes hs ht ne fits).0

    at_once : (late : List (Memory → Memory)) → wait answered late ≡ some answered
    at_once [] =
        unfold wait in
        rw ((header_words reset session msg_type (length bytes) (some bytes) ht (omega arith)).0)
          refl
    at_once (next ∷ late) =
        unfold wait in
        rw ((header_words reset session msg_type (length bytes) (some bytes) ht (omega arith)).0)
          refl
