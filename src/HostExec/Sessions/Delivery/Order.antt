-- ===== src/HostExec/Sessions/Delivery/Order.antt =====
-- The output of a session comes in order, whole and once.
use wasmer_js.Prelude.{
  ℕ, ◌≡◌, refl, sym, ap, ◌∙◌, List, [], ◌∷◌, ◌++◌, Option, none, some, Bool, true, false, ◌==◌,
  if◌then◌else◌, arith, append-nil, append_assoc, ==→eq, insert, remove,
}
use wasmer_js.HostExec.Sessions.{
  Chunk, ReadComplete, Sessions, Effect, Reaction, pop_queue, answer_read, resolve, reject, receive,
  settled, to_le_bytes, to_le_bytes64, host_exec_read, host_exec_try_read, host_exec_poll,
  on_stdout, on_stderr, request_spawn, spawn_write_stdin, spawn_close_stdin, spawn_kill,
  read_complete,
}
use wasmer_js.HostExec.Sessions.Delivery.{
  only, emitted, handed, all_handed, in_flight, queued, undelivered, IsWaiting, IsSound, IsOrderly,
  Event, step, emit_stdout, emit_stderr, ask_spawn, ask_stdin, ask_close_stdin, ask_kill, finish,
  fail, read, try_read, poll, deliver,
}
use wasmer_js.HostExec.Sessions.Delivery.Queued.{
  undelivered-wake_exit, undelivered-send_or_queue, undelivered-queue_and_wake,
}
use wasmer_js.HostExec.Sessions.Delivery.Waiting.{waiting, step-IsSound}

abbrev pub Flows : Sessions → Reaction → ℕ → List Chunk → Type 0
Flows s r id new = all_handed r.1 id ++ undelivered r.0 id ≡ undelivered s id ++ new

-- The read takes the front of what is undelivered, if nothing is in flight.
front :
    (f q : List Chunk) (b : Bool) (c : Chunk) (o : List Chunk)
    → (b ≡ true → (f ≡ []) × (o ≡ c ∷ q))
    → (only b c ++ []) ++ (f ++ (if b then q else o)) ≡ (f ++ o) ++ []
front f q true c o h =
    ap (λ x. c ∷ (x ++ q)) (h refl).0
    ∙ sym (h refl).1
    ∙ ap (λ x. x ++ o) (sym (h refl).0)
    ∙ sym (append-nil (f ++ o))
front f q false c o h = sym (append-nil (f ++ o))

answer_read-Flows :
    (s : Sessions) (worker j : ℕ) (otherwise : Reaction) (id : ℕ)
    → in_flight s.mailbox j ≡ []
    → (queued (s.output_queues j) ≡ [] → Flows s otherwise id [])
    → Flows s (answer_read s worker j (pop_queue (s.output_queues j)) (s.results j) otherwise) id []
answer_read-Flows s worker j otherwise id idle h = go (s.output_queues j) (s.results j) refl
  where
    emptied :
        queued (s.output_queues j) ≡ []
        → queued (remove s.output_queues j id) ≡ queued (s.output_queues id)
    emptied e = unfold remove in ground (arith, e)

    popped :
        (q : List Chunk)
        → queued (insert s.output_queues j q id)
          ≡ (if id == j then q else queued (s.output_queues id))
    popped q = unfold insert in ground arith

    go :
        (o : Option (List Chunk)) (r : Option ℕ)
        → s.output_queues j ≡ o
        → Flows s (answer_read s worker j (pop_queue o) r otherwise) id []
    go (some (c ∷ q)) r e =
        unfold answer_read in
        ap (λ x. (only (id == j) c ++ []) ++ (in_flight s.mailbox id ++ x)) (popped q)
        ∙ front (in_flight s.mailbox id) q (id == j) c (queued (s.output_queues id)) (λ t. (
          ap (in_flight s.mailbox) (==→eq id j t) ∙ idle,
          ap (λ i. queued (s.output_queues i)) (==→eq id j t) ∙ ap queued e,
        ))
    go (some []) (some code) e =
        unfold answer_read in
        ap (◌++◌ (in_flight s.mailbox id)) (emptied (ap queued e))
        ∙ sym (append-nil (undelivered s id))
    go none (some code) e =
        unfold answer_read in
        ap (◌++◌ (in_flight s.mailbox id)) (emptied (ap queued e))
        ∙ sym (append-nil (undelivered s id))
    go (some []) none e = unfold answer_read in h (ap queued e)
    go none none e = unfold answer_read in h (ap queued e)

receive-Flows :
    (s : Sessions) (ms : List ReadComplete) (id : ℕ) → s.mailbox ≡ ms → Flows s (receive s ms) id []
receive-Flows s [] id e = unfold receive in sym (append-nil (undelivered s id))
receive-Flows s (m ∷ rest) id e =
    unfold receive in
    ap (λ x. x ++ (in_flight rest id ++ queued (s.output_queues id)))
      (append-nil (handed (read_complete m) id))
    ∙ sym (
        append_assoc (handed (read_complete m) id) (in_flight rest id)
          (queued (s.output_queues id)))
    ∙ ap (λ ms. in_flight ms id ++ queued (s.output_queues id)) (sym e)
    ∙ sym (append-nil (undelivered s id))

resolve_flows :
    (s : Sessions) (j code id : ℕ) → undelivered (resolve s j code) id ≡ undelivered s id
resolve_flows s j code id = unfold resolve in go (s.pending_reads j)
  where
    s' : Sessions
    s' = record s { results = insert s.results j code }

    go : (p : Option (ℕ × ℕ)) → undelivered (settled s' j p code) id ≡ undelivered s id
    go none = unfold settled in refl
    go (some (w, k)) = unfold settled in undelivered-wake_exit s' j w k code id

request_spawn_flows :
    (s : Sessions) (j child : ℕ) (json_bytes : List ℕ) (callbacks : Option (ℕ × ℕ × ℕ)) (id : ℕ)
    → IsWaiting s j (s.pending_reads j)
    → undelivered (request_spawn s j child json_bytes callbacks) id
      ≡ undelivered s id ++ only (id == j) (10, json_bytes)
unfolding request_spawn
request_spawn_flows s j child json_bytes none id w =
    undelivered-queue_and_wake s j (10, json_bytes) id w (ground arith)
request_spawn_flows s j child json_bytes (some callbacks) id w =
    undelivered-queue_and_wake
      (record s { child_output_handlers = insert s.child_output_handlers child callbacks }) j
      (10, json_bytes) id w (ground arith)

-- In each step of a sound state in which the workers are orderly, what is handed to the workers of
-- a session, followed by what is then undelivered, is what was undelivered, followed by what the
-- step emits.
pub step_flows :
    (s : Sessions) (e : Event) (id : ℕ)
    → IsSound s
    → IsOrderly s e
    → all_handed (step s e).1 id ++ undelivered (step s e).0 id ≡ undelivered s id ++ emitted e id
unfolding step on_stdout on_stderr spawn_write_stdin spawn_close_stdin spawn_kill reject
    host_exec_read host_exec_try_read host_exec_poll
step_flows s (emit_stdout j bytes) id h k =
    undelivered-send_or_queue s j (s.pending_reads j) (1, bytes) id (waiting s j h) (ground arith)
step_flows s (emit_stderr j bytes) id h k =
    undelivered-send_or_queue s j (s.pending_reads j) (2, bytes) id (waiting s j h) (ground arith)
step_flows s (ask_spawn j child json_bytes callbacks) id h k =
    request_spawn_flows s j child json_bytes callbacks id (waiting s j h)
step_flows s (ask_stdin j child bytes) id h k =
    undelivered-queue_and_wake s j (11, to_le_bytes64 child ++ bytes) id (waiting s j h)
      (ground arith)
step_flows s (ask_close_stdin j child) id h k =
    undelivered-queue_and_wake s j (12, to_le_bytes64 child) id (waiting s j h) (ground arith)
step_flows s (ask_kill j child signal) id h k =
    undelivered-queue_and_wake s j (13, to_le_bytes64 child ++ to_le_bytes signal) id
      (waiting s j h) (ground arith)
step_flows s (finish j code) id h k =
    resolve_flows s j code id ∙ sym (append-nil (undelivered s id))
step_flows s (fail j) id h k = resolve_flows s j 1 id ∙ sym (append-nil (undelivered s id))
step_flows s (read worker j) id h k =
    answer_read-Flows s worker j _ id k (λ q. sym (append-nil (undelivered s id)))
step_flows s (try_read worker j) id h k =
    answer_read-Flows s worker j _ id k (λ q. sym (append-nil (undelivered s id)))
step_flows s (poll worker j) id h k = sym (append-nil (undelivered s id))
step_flows s deliver id h k = receive-Flows s s.mailbox id refl

-- A run of events, in which the workers are orderly, and all that it hands over and emits.
unfoldable pub run : Sessions → List Event → Reaction
run s [] = (s, [])
run s (e ∷ es) = let (s', now) = step s e in let (s'', later) = run s' es in (s'', now ++ later)

unfoldable pub IsOrderlyRun : Sessions → List Event → Type 0
IsOrderlyRun s [] = Unit
IsOrderlyRun s (e ∷ es) = IsOrderly s e × IsOrderlyRun (step s e).0 es

abbrev pub all_emitted : List Event → ℕ → List Chunk
all_emitted [] id = []
all_emitted (e ∷ es) id = emitted e id ++ all_emitted es id

all_handed-append :
    (xs ys : List Effect) (id : ℕ) → all_handed (xs ++ ys) id ≡ all_handed xs id ++ all_handed ys id
all_handed-append [] ys id = refl
all_handed-append (x ∷ xs) ys id =
    ap (◌++◌ (handed x id)) (all_handed-append xs ys id)
    ∙ sym (append_assoc (handed x id) (all_handed xs id) (all_handed ys id))

-- Over a whole run from a sound state, in which each worker asks for a session's output only once
-- the last answer has come: the chunks that the workers get of a session, followed by those still
-- undelivered, are those undelivered at first, followed by all that the session's command emits, in
-- that order. Nothing is lost, doubled or overtaken.
pub run_in_order :
    (s : Sessions) (es : List Event) (id : ℕ)
    → IsSound s
    → IsOrderlyRun s es
    → all_handed (run s es).1 id ++ undelivered (run s es).0 id
      ≡ undelivered s id ++ all_emitted es id
unfolding run IsOrderlyRun
run_in_order s [] id h k = sym (append-nil (undelivered s id))
run_in_order s (e ∷ es) id h (k, ks) =
    joined (run_in_order (step s e).0 es id (step-IsSound s e h) ks)
  where
    joined :
        all_handed (run (step s e).0 es).1 id ++ undelivered (run (step s e).0 es).0 id
          ≡ undelivered (step s e).0 id ++ all_emitted es id
        → all_handed ((step s e).1 ++ (run (step s e).0 es).1) id
            ++ undelivered (run (step s e).0 es).0 id
          ≡ undelivered s id ++ (emitted e id ++ all_emitted es id)
    joined r =
        ap (λ x. x ++ undelivered (run (step s e).0 es).0 id)
          (all_handed-append (step s e).1 (run (step s e).0 es).1 id)
        ∙ append_assoc (all_handed (step s e).1 id) (all_handed (run (step s e).0 es).1 id)
            (undelivered (run (step s e).0 es).0 id)
        ∙ ap (◌++◌ (all_handed (step s e).1 id)) r
        ∙ sym (
            append_assoc (all_handed (step s e).1 id) (undelivered (step s e).0 id)
              (all_emitted es id))
        ∙ ap (λ x. x ++ all_emitted es id) (step_flows s e id h k)
        ∙ append_assoc (undelivered s id) (emitted e id) (all_emitted es id)
