-- ===== src/HostExec/Sessions/Delivery/Exit.antt =====
-- The end of a session: its exit code, and what a poll and a read say of the same state.
use wasmer_js.Prelude.{
  ℕ, ◌+◌, ◌%◌, ◌/◌, ◌*◌, ◌<◌, ◌≡◌, refl, ap, List, [], ◌∷◌, Option, none, some, Bool, true, false,
  ◌||◌, arith, insert, insert_self,
}
use wasmer_js.Memory.{word_mod}
use wasmer_js.HostExec.Response.{msg_type_exit}
use wasmer_js.HostExec.Sessions.{
  Chunk, Sessions, Effect, read_reply, poll_reply, no_data_reply, pop_queue, answer_read, resolve,
  receive, settled, host_exec_read, host_exec_try_read, host_exec_poll, has_data, has_result,
}
use wasmer_js.HostExec.Sessions.Delivery.{
  queued, undelivered, in_flight, step, deliver, finish, read,
}
use wasmer_js.HostExec.Sessions.Delivery.Order.{run}

-- Whether the effects answer a read with data or an exit code.
abbrev pub is_answered : List Effect → Bool
is_answered (read_reply worker session msg_type word bytes ∷ es) = true
is_answered _ = false

-- A poll changes nothing, and says of a session that it is ready exactly when a read that does not
-- wait would be answered with data or an exit code.
pub host_exec_poll-try_read :
    (s : Sessions) (worker session : ℕ)
    → host_exec_poll s worker session
      ≡ (s, poll_reply worker session (is_answered (host_exec_try_read s worker session).1) ∷ [])
unfolding host_exec_poll host_exec_try_read
host_exec_poll-try_read s worker session =
    ap (λ b. (s, poll_reply worker session b ∷ []))
      (go (s.output_queues session) (s.results session))
  where
    go :
        (o : Option (List Chunk)) (r : Option ℕ)
        → (has_data o || has_result r)
          ≡ is_answered
              (answer_read s worker session
                (pop_queue o)
                r
                (s, no_data_reply worker session ∷ [])).1
    go (some (c ∷ q)) r = unfold answer_read in refl
    go (some []) (some code) = unfold answer_read in refl
    go none (some code) = unfold answer_read in refl
    go (some []) none = unfold answer_read in refl
    go none none = unfold answer_read in refl

-- A read, made while nothing of the session is on its way, that is answered with an exit code: all
-- the session's output has been handed over, and the code is the one that was stored.
pub host_exec_read-exit :
    (s : Sessions) (worker session code : ℕ)
    → in_flight s.mailbox session ≡ []
    → (host_exec_read s worker session).1 ≡ read_reply worker session msg_type_exit code none ∷ []
    → (undelivered s session ≡ []) × (s.results session ≡ some code)
unfolding host_exec_read
host_exec_read-exit s worker session code idle h =
    go (s.output_queues session) (s.results session) refl refl h
  where
    go :
        (o : Option (List Chunk)) (r : Option ℕ)
        → s.output_queues session ≡ o
        → s.results session ≡ r
        → (answer_read s worker session
            (pop_queue o)
            r
            (record s { pending_reads = insert s.pending_reads session (worker, session) }, [])).1
          ≡ read_reply worker session msg_type_exit code none ∷ []
        → (undelivered s session ≡ []) × (s.results session ≡ some code)
    go (some (c ∷ q)) r e f = unfold answer_read in λ g. absurd (ground (arith, g))
    go (some []) (some c) e f =
        unfold answer_read in λ g. (ground (arith, idle, e), ground (arith, f, g))
    go none (some c) e f =
        unfold answer_read in λ g. (ground (arith, idle, e), ground (arith, f, g))
    go (some []) none e f = unfold answer_read in λ g. absurd (ground (arith, g))
    go none none e f = unfold answer_read in λ g. absurd (ground (arith, g))

-- The bytes of a 32-bit word read back as the word.
decoded :
    (n : ℕ)
    → n < word_mod
    → n % 256 + 256 * (n / 256 % 256) + 65536 * (n / 65536 % 256) + 16777216 * (n / 16777216 % 256)
      ≡ n
decoded n h = omega arith

pop_queue_nil : (o : Option (List Chunk)) → queued o ≡ [] → pop_queue o ≡ none
pop_queue_nil none h = refl
pop_queue_nil (some []) h = refl
pop_queue_nil (some (c ∷ q)) h = absurd (ground (arith, h))

-- A command ends while a worker waits for its session, the session's queue is empty and no message
-- is on its way: the worker gets the exit code, and its next read of the session gets it again.
pub finish_twice :
    (s : Sessions) (worker session code : ℕ)
    → code < word_mod
    → s.pending_reads session ≡ some (worker, session)
    → queued (s.output_queues session) ≡ []
    → s.mailbox ≡ []
    → (run s (finish session code ∷ deliver ∷ read worker session ∷ [])).1
      ≡ read_reply worker session msg_type_exit code none
        ∷ read_reply worker session msg_type_exit code none
        ∷ []
unfolding run step resolve settled receive host_exec_read answer_read
finish_twice s worker session code h p q e =
    simp (p, e, insert_self s.results session code, pop_queue_nil (s.output_queues session) q)
      (ap
        (λ n.
          read_reply worker session msg_type_exit n none
          ∷ read_reply worker session msg_type_exit code none
          ∷ [])
        (decoded code h))
