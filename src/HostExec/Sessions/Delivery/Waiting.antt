-- ===== src/HostExec/Sessions/Delivery/Waiting.antt =====
-- A read waits only while there is nothing to answer it with.
use wasmer_js.Prelude.{
  ℕ, ◌≡◌, ◌≢◌, refl, sym, ap, ◌∙◌, List, [], ◌∷◌, Option, none, some, ◌==◌, arith, inl, inr,
  Bool-cases, ==→eq, ==→ne, insert, insert_self, insert_other, remove_self, remove_other,
}
use wasmer_js.HostExec.Sessions.{
  Chunk, ReadComplete, Sessions, Reaction, send_or_queue, wake_with, queue_and_wake, push_queue,
  pop_front, pop_queue, answer_read, resolve, reject, receive, settled, host_exec_read,
  host_exec_try_read, host_exec_poll, on_stdout, on_stderr, request_spawn, spawn_write_stdin,
  spawn_close_stdin, spawn_kill,
}
use wasmer_js.HostExec.Sessions.Delivery.{
  queued, IsWaiting, IsSound, Event, step, emit_stdout, emit_stderr, ask_spawn, ask_stdin,
  ask_close_stdin, ask_kill, finish, fail, read, try_read, poll, deliver,
}

pub waiting : (s : Sessions) (j : ℕ) → IsSound s → IsWaiting s j (s.pending_reads j)
waiting s j h = go (s.pending_reads j) refl
  where
    go : (p : Option (ℕ × ℕ)) → s.pending_reads j ≡ p → IsWaiting s j p
    go none e = tt
    go (some (worker, k)) e = h j worker k e

-- A step that concerns one session keeps the others as they were.
local_IsSound :
    (s s' : Sessions) (j : ℕ)
    → IsSound s
    → ((k : ℕ)
        → k ≢ j
        → (s'.pending_reads k ≡ s.pending_reads k)
          × (s'.output_queues k ≡ s.output_queues k)
          × (s'.results k ≡ s.results k))
    → ((worker k : ℕ)
        → s'.pending_reads j ≡ some (worker, k)
        → (k ≡ j) × (queued (s'.output_queues j) ≡ []) × (s'.results j ≡ none))
    → IsSound s'
local_IsSound s s' j h others here i worker k e = elim (Bool-cases (i == j)) [
  | inl t ↦ at (==→eq i j t)
  | inr t ↦ away (==→ne i j t)
]
  where
    at : i ≡ j → (k ≡ i) × (queued (s'.output_queues i) ≡ []) × (s'.results i ≡ none)
    at t = (w.0 ∙ sym t, ap (λ x. queued (s'.output_queues x)) t ∙ w.1, ap s'.results t ∙ w.2)
      where
        w : (k ≡ j) × (queued (s'.output_queues j) ≡ []) × (s'.results j ≡ none)
        w = here worker k (ap s'.pending_reads (sym t) ∙ e)

    away : i ≢ j → (k ≡ i) × (queued (s'.output_queues i) ≡ []) × (s'.results i ≡ none)
    away t = (w.0, ap queued (o.1) ∙ w.1, o.2 ∙ w.2)
      where
        o :
            (s'.pending_reads i ≡ s.pending_reads i)
            × (s'.output_queues i ≡ s.output_queues i)
            × (s'.results i ≡ s.results i)
        o = others i t

        w : (k ≡ i) × (queued (s.output_queues i) ≡ []) × (s.results i ≡ none)
        w = h i worker k (sym o.0 ∙ e)

-- Once no read waits for the session, whatever was queued or stored for it.
quiet_IsSound :
    (s s' : Sessions) (j : ℕ)
    → IsSound s
    → ((k : ℕ)
        → k ≢ j
        → (s'.pending_reads k ≡ s.pending_reads k)
          × (s'.output_queues k ≡ s.output_queues k)
          × (s'.results k ≡ s.results k))
    → s'.pending_reads j ≡ none
    → IsSound s'
quiet_IsSound s s' j h others e =
    local_IsSound s s' j h others (λ worker k f. absurd (ground (arith, e, f)))

send_or_queue-IsSound :
    (s : Sessions) (j : ℕ) (c : Chunk)
    → IsSound s
    → IsSound (send_or_queue s j (s.pending_reads j) c)
send_or_queue-IsSound s j c h = go (s.pending_reads j) refl
  where
    go : (p : Option (ℕ × ℕ)) → s.pending_reads j ≡ p → IsSound (send_or_queue s j p c)
    go none e =
        unfold send_or_queue in
        quiet_IsSound s (send_or_queue s j none c) j h
          (λ k n.
            (refl, insert_other s.output_queues j k (push_queue (s.output_queues j) c) n, refl))
          e
    go (some r) e =
        unfold send_or_queue in
        quiet_IsSound s (send_or_queue s j (some r) c) j h
          (λ k n. (remove_other s.pending_reads j k n, refl, refl)) (remove_self s.pending_reads j)

queue_and_wake-IsSound :
    (s : Sessions) (j : ℕ) (c : Chunk) → IsSound s → IsSound (queue_and_wake s j c)
queue_and_wake-IsSound s j c h =
    unfold queue_and_wake in
    go (s.pending_reads j) (pop_front (push_queue (s.output_queues j) c)) refl
  where
    s' : Sessions
    s' = record s { output_queues = insert s.output_queues j (push_queue (s.output_queues j) c) }

    go :
        (p : Option (ℕ × ℕ)) (f : Option (Chunk × List Chunk))
        → s.pending_reads j ≡ p
        → IsSound (wake_with s' j p f)
    go none f e =
        unfold wake_with in
        quiet_IsSound s s' j h
          (λ k n.
            (refl, insert_other s.output_queues j k (push_queue (s.output_queues j) c) n, refl))
          e
    go (some r) none e =
        unfold wake_with in
        quiet_IsSound s (wake_with s' j (some r) none) j h
          (λ k n. (
            remove_other s.pending_reads j k n,
            insert_other s.output_queues j k (push_queue (s.output_queues j) c) n,
            refl,
          ))
          (remove_self s.pending_reads j)
    go (some r) (some (d, q)) e =
        unfold wake_with in
        quiet_IsSound s (wake_with s' j (some r) (some (d, q))) j h
          (λ k n. (
            remove_other s.pending_reads j k n,
            insert_other s'.output_queues j k q n
                ∙ insert_other s.output_queues j k (push_queue (s.output_queues j) c) n,
            refl,
          ))
          (remove_self s.pending_reads j)

resolve-IsSound : (s : Sessions) (j code : ℕ) → IsSound s → IsSound (resolve s j code)
resolve-IsSound s j code h = unfold resolve in go (s.pending_reads j) refl
  where
    s' : Sessions
    s' = record s { results = insert s.results j code }

    go : (p : Option (ℕ × ℕ)) → s.pending_reads j ≡ p → IsSound (settled s' j p code)
    go none e =
        unfold settled in
        quiet_IsSound s s' j h (λ k n. (refl, refl, insert_other s.results j k code n)) e
    go (some r) e =
        unfold settled in
        quiet_IsSound s (settled s' j (some r) code) j h
          (λ k n. (remove_other s.pending_reads j k n, refl, insert_other s.results j k code n))
          (remove_self s.pending_reads j)

answer_read-IsSound :
    (s : Sessions) (worker j : ℕ) (otherwise : Reaction)
    → IsSound s
    → (queued (s.output_queues j) ≡ [] → s.results j ≡ none → IsSound otherwise.0)
    → IsSound (answer_read s worker j (pop_queue (s.output_queues j)) (s.results j) otherwise).0
answer_read-IsSound s worker j otherwise h k = go (s.output_queues j) (s.results j) refl refl
  where
    go :
        (o : Option (List Chunk)) (r : Option ℕ)
        → s.output_queues j ≡ o
        → s.results j ≡ r
        → IsSound (answer_read s worker j (pop_queue o) r otherwise).0
    go (some (c ∷ q)) r e f =
        unfold answer_read in
        local_IsSound s (answer_read s worker j (some (c, q)) r otherwise).0 j h
          (λ k n. (refl, insert_other s.output_queues j k q n, refl))
          (λ w k p. absurd (ground (arith, (h j w k p).1, e)))
    go (some []) (some code) e f =
        unfold answer_read in
        local_IsSound s (answer_read s worker j none (some code) otherwise).0 j h
          (λ k n. (refl, remove_other s.output_queues j k n, remove_other s.results j k n))
          (λ w k p. absurd (ground (arith, (h j w k p).2, f)))
    go none (some code) e f =
        unfold answer_read in
        local_IsSound s (answer_read s worker j none (some code) otherwise).0 j h
          (λ k n. (refl, remove_other s.output_queues j k n, remove_other s.results j k n))
          (λ w k p. absurd (ground (arith, (h j w k p).2, f)))
    go (some []) none e f = unfold answer_read in k (ap queued e) f
    go none none e f = unfold answer_read in k (ap queued e) f

-- A read that finds nothing waits.
stored-IsSound :
    (s : Sessions) (worker j : ℕ)
    → IsSound s
    → queued (s.output_queues j) ≡ []
    → s.results j ≡ none
    → IsSound (record s { pending_reads = insert s.pending_reads j (worker, j) })
stored-IsSound s worker j h q r =
    local_IsSound s (record s { pending_reads = insert s.pending_reads j (worker, j) }) j h
      (λ k n. (insert_other s.pending_reads j k (worker, j) n, refl, refl))
      (λ w k p. (ground (arith, insert_self s.pending_reads j (worker, j), p), q, r))

receive-IsSound : (s : Sessions) (ms : List ReadComplete) → IsSound s → IsSound (receive s ms).0
unfolding receive
receive-IsSound s [] h = h
receive-IsSound s (m ∷ rest) h = h

request_spawn-IsSound :
    (s : Sessions) (j child : ℕ) (json_bytes : List ℕ) (callbacks : Option (ℕ × ℕ × ℕ))
    → IsSound s
    → IsSound (request_spawn s j child json_bytes callbacks)
unfolding request_spawn
request_spawn-IsSound s j child json_bytes none h = queue_and_wake-IsSound s j (10, json_bytes) h
request_spawn-IsSound s j child json_bytes (some callbacks) h =
    queue_and_wake-IsSound
      (record s { child_output_handlers = insert s.child_output_handlers child callbacks }) j
      (10, json_bytes) h

-- Every event keeps a state sound: each read that waits is for its own session, whose queue is empty
-- and which has no exit code.
pub step-IsSound : (s : Sessions) (e : Event) → IsSound s → IsSound (step s e).0
unfolding step on_stdout on_stderr spawn_write_stdin spawn_close_stdin spawn_kill reject
    host_exec_read host_exec_try_read host_exec_poll
step-IsSound s (emit_stdout j bytes) h = send_or_queue-IsSound s j (1, bytes) h
step-IsSound s (emit_stderr j bytes) h = send_or_queue-IsSound s j (2, bytes) h
step-IsSound s (ask_spawn j child json_bytes callbacks) h =
    request_spawn-IsSound s j child json_bytes callbacks h
step-IsSound s (ask_stdin j child bytes) h = queue_and_wake-IsSound s j _ h
step-IsSound s (ask_close_stdin j child) h = queue_and_wake-IsSound s j _ h
step-IsSound s (ask_kill j child signal) h = queue_and_wake-IsSound s j _ h
step-IsSound s (finish j code) h = resolve-IsSound s j code h
step-IsSound s (fail j) h = resolve-IsSound s j 1 h
step-IsSound s (read worker j) h = answer_read-IsSound s worker j _ h (stored-IsSound s worker j h)
step-IsSound s (try_read worker j) h = answer_read-IsSound s worker j _ h (λ q r. h)
step-IsSound s (poll worker j) h = h
step-IsSound s deliver h = receive-IsSound s s.mailbox h
