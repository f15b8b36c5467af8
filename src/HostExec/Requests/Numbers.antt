-- ===== src/HostExec/Requests/Numbers.antt =====
-- The numbers of sessions and requests.
use wasmer_js.Prelude.{
  ℕ, suc, ◌+◌, ◌≤◌, ◌<◌, ◌≡◌, refl, List, [], ◌∷◌, Option, none, some, Bool, true, false, length,
  arith,
}
use wasmer_js.Message.Convert.{Texts}
use wasmer_js.Message.Worker.{Envelope}
use wasmer_js.Channel.{Traffic}
use wasmer_js.HostExec.Requests.{
  Clients, long_mod, Answer, sent, not_sent, emitted, fetch_add, host_exec_start, host_exec_read,
  host_exec_write, host_exec_close_stdin, host_exec_try_read, host_exec_poll, host_exec_signal,
  host_exec_child_output, Call, start, call, with_number, numbers,
}

-- Each number is larger than those before it, the first at least `lo`, the last below `hi`.
abbrev pub Ascends : ℕ → ℕ → List ℕ → Type 0
Ascends lo hi [] = lo ≤ hi
Ascends lo hi (x ∷ xs) = (lo ≤ x) × Ascends (suc x) hi xs

-- What a call does to the counter, and the number that it takes.
abbrev Counts : Clients → Answer × Clients → Type 0
Counts s (sent id, s') = (id ≡ s.next_session_id) × (s'.next_session_id ≡ suc s.next_session_id)
Counts s (_, s') =
    (s.next_session_id ≤ s'.next_session_id) × (s'.next_session_id ≤ suc s.next_session_id)

weaken :
    (lo lo' hi hi' : ℕ) (xs : List ℕ) → lo ≤ lo' → hi' ≤ hi → Ascends lo' hi' xs → Ascends lo hi xs
weaken lo lo' hi hi' [] p q h = omega arith
weaken lo lo' hi hi' (x ∷ xs) p q h =
    (omega arith, weaken (suc x) (suc x) hi hi' xs (omega arith) q h.1)

module _ (t : Texts) (posts : Envelope → Bool) where
  emitted-Counts :
      (s : Clients)
      → suc s.next_session_id < long_mod
      → (r : Bool × Traffic) → Counts s (emitted (fetch_add s.next_session_id) r s.next_session_id)
  emitted-Counts s h (true, traffic) = (refl, omega arith)
  emitted-Counts s h (false, traffic) = omega arith

  call-Counts :
      (s : Clients) (w : Option ℕ) (c : Call)
      → suc s.next_session_id < long_mod
      → Counts s (call t posts s w c)
  unfolding call host_exec_start host_exec_read host_exec_write host_exec_close_stdin
      host_exec_try_read host_exec_poll host_exec_signal host_exec_child_output
  call-Counts s none (start json) h = omega arith
  call-Counts s (some w) (start none) h = omega arith
  call-Counts s (some w) (start (some json)) h = emitted-Counts s h _
  call-Counts s none _ h = omega arith
  call-Counts s (some w) _ h = emitted-Counts s h _

  -- Over any calls on any threads, no more than there are numbers left: the numbers of the sessions
  -- that were started and of the requests that were sent ascend from the counter's value, so that no
  -- two of them are the same, whatever of the calls failed.
  pub numbers-Ascends :
      (s : Clients) (cs : List (Option ℕ × Call))
      → s.next_session_id + length cs < long_mod
      → Ascends s.next_session_id (s.next_session_id + length cs) (numbers t posts s cs)
  numbers-Ascends s [] h = omega arith
  numbers-Ascends s ((w, c) ∷ cs) h =
      go (call t posts s w c) (call-Counts s w c (omega arith))
        (numbers-Ascends (call t posts s w c).1 cs)
    where
      go :
          (r : Answer × Clients)
          → Counts s r
          → (r.1.next_session_id + length cs < long_mod
              → Ascends r.1.next_session_id
                  (r.1.next_session_id + length cs)
                  (numbers t posts r.1 cs))
          → Ascends s.next_session_id
              (s.next_session_id + suc (length cs))
              (with_number r.0 (numbers t posts r.1 cs))
      go (sent id, s') k rest =
          (omega arith, weaken _ _ _ _ _ (omega arith) (omega arith) (rest (omega arith)))
      go (not_sent, s') k rest = weaken _ _ _ _ _ (omega arith) (omega arith) (rest (omega arith))
      go (_, s') k rest = weaken _ _ _ _ _ (omega arith) (omega arith) (rest (omega arith))
