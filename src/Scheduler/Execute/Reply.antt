-- ===== src/Scheduler/Execute/Reply.antt =====
-- The way of a reply into the buffer of the worker that asked.
use wasmer_js.Prelude.{
  ℕ, ◌+◌, ◌≤◌, ◌<◌, ◌≡◌, ◌≢◌, refl, ap, ◌∙◌, List, [], ◌∷◌, Option, none, some, Bool, true, false,
  ◌==◌, if◌then◌else◌, arith, insert, length,
}
use wasmer_js.Memory.{Memory, word_mod}
use wasmer_js.Message.{PostMessagePayload, SchedulerMessage, StartResult}
use wasmer_js.Message
use wasmer_js.HostExec.Start.{Host}
use wasmer_js.HostExec.Response.{
  msg_type_exit, data_at, host_exec_buffer_size, write_read_response, output, read_response,
}
use wasmer_js.HostExec.Response.RoundTrip.{meaning, read_response-write}
use wasmer_js.HostExec.Sessions.{
  Sessions, Chunk, read_reply, host_exec_read, answer_read, pop_queue,
}
use wasmer_js.Scheduler.{WorkerHandle, SchedulerState}
use wasmer_js.Scheduler.Execute.{State, behind, update, respond, apply, react, execute}

-- The buffer of the first worker of a queue with an id, and of all workers.
abbrev pub first_of : Option Memory → Option Memory → Option Memory
first_of none o = o
first_of (some m) o = some m

abbrev pub buffer_in : List WorkerHandle → ℕ → Option Memory
buffer_in [] id = none
buffer_in (w ∷ ws) id = if w.id == id then some w.host_exec_buffer else buffer_in ws id

abbrev pub buffer_of : SchedulerState → ℕ → Option Memory
buffer_of s id = first_of (buffer_in s.idle id) (buffer_in s.busy id)

abbrev Updated :
    List WorkerHandle → ℕ → (Memory → Memory) → Option Memory → Bool × List WorkerHandle → Type 0
Updated ws id f none r = r ≡ (false, ws)
Updated ws id f (some m) r = (r.0 ≡ true) × (buffer_in r.1 id ≡ some (f m))

update_lem :
    (ws : List WorkerHandle) (id : ℕ) (f : Memory → Memory)
    → Updated ws id f (buffer_in ws id) (update ws id f)
unfolding update
update_lem [] id f = refl
update_lem (w ∷ ws) id f =
    go (w.id == id) refl (buffer_in ws id) (update ws id f) (update_lem ws id f)
  where
    go :
        (b : Bool)
        → (w.id == id) ≡ b
        → (o : Option Memory) (r : Bool × List WorkerHandle) → Updated ws id f o r
        → Updated (w ∷ ws) id f (if b then some w.host_exec_buffer else o) (
            if b
            then (true, record w { host_exec_buffer = f w.host_exec_buffer } ∷ ws)
            else behind w r)
    go true e o r h = (refl, ground (arith, e))
    go false e none (x, vs) h = ap (behind w) h
    go false e (some m) (x, vs) (p, q) = (p, ground (arith, e, q))

-- What is written for a worker is in its buffer.
pub respond_lem :
    (s : SchedulerState) (id : ℕ) (f : Memory → Memory) (m : Memory)
    → buffer_of s id ≡ some m
    → ((respond s id f).0 ≡ true) × (buffer_of (respond s id f).1 id ≡ some (f m))
unfolding respond
respond_lem s id f m h =
    go (buffer_in s.idle id) (buffer_in s.busy id) (update s.idle id f) (update s.busy id f) refl
      refl (update_lem s.idle id f) (update_lem s.busy id f) h
  where
    outcome : Bool × List WorkerHandle → Bool × List WorkerHandle → Bool × SchedulerState
    outcome a b = if a.0 then (true, record s { idle = a.1 }) else (b.0, record s { busy = b.1 })

    go :
        (o p : Option Memory) (a b : Bool × List WorkerHandle)
        → buffer_in s.idle id ≡ o
        → buffer_in s.busy id ≡ p
        → Updated s.idle id f o a
        → Updated s.busy id f p b
        → first_of o p ≡ some m
        → ((outcome a b).0 ≡ true) × (buffer_of (outcome a b).1 id ≡ some (f m))
    go (some m') p (true, a) b e₁ e₂ u v k = (refl, ground (arith, u.1, k))
    go (some m') p (false, a) b e₁ e₂ u v k = absurd (ground (arith, u.0))
    go none (some m') (true, a) b e₁ e₂ u v k = absurd (ground (arith, ap (λ r. r.0) u))
    go none (some m') (false, a) b e₁ e₂ u v k = (v.0, ground (arith, e₁, v.1, k))
    go none none a b e₁ e₂ u v k = absurd (ground (arith, k))

-- A worker that the scheduler knows asks for the output of a session below 2 ^ 31, in whose queue a
-- chunk of at most 65520 bytes, no exit, comes first: `execute` succeeds, and the worker reads this
-- chunk out of its buffer.
pub execute_read :
    (posts : ℕ → PostMessagePayload → Bool) (starts : ℕ → Bool) (host : Host) (s : State)
    (worker request session : ℕ) (msg_type : ℕ) (bytes : List ℕ) (q : List Chunk) (m : Memory)
    → buffer_of s.workers worker ≡ some m
    → s.sessions.output_queues session ≡ some ((msg_type, bytes) ∷ q)
    → session < 2147483648
    → msg_type < word_mod
    → msg_type ≢ msg_type_exit
    → data_at + length bytes ≤ host_exec_buffer_size
    → let r = execute posts starts host s (Message.host_exec_read worker request session) in
      (r.0 ≡ true)
      × ((n : Memory) × (buffer_of r.1.workers worker ≡ some n)
          × (read_response n session ≡ output (meaning msg_type bytes)))
execute_read posts starts host s worker request session msg_type bytes q m hm hq hs ht ne fits =
    unfold execute in rw answered (written)
  where
    s' : Sessions
    s' = record s.sessions { output_queues = insert s.sessions.output_queues session q }

    answered :
        host_exec_read s.sessions worker session
        ≡ (s', read_reply worker session msg_type (length bytes) (some bytes) ∷ [])
    answered =
        unfold host_exec_read answer_read in
        ap
          (λ o. answer_read s.sessions worker session (pop_queue o) (s.sessions.results session) (
            record s.sessions {
              pending_reads = insert s.sessions.pending_reads session (worker, session);
            },
            [],
          ))
          hq
        ∙ ap (λ n. (s', read_reply worker session msg_type n (some bytes) ∷ [])) (omega arith)

    found :
        ((respond s.workers worker
            (λ m. write_read_response m session msg_type (length bytes) (some bytes))).0
          ≡ true)
        × (buffer_of
              (respond s.workers worker
                (λ m. write_read_response m session msg_type (length bytes) (some bytes))).1
              worker
            ≡ some (write_read_response m session msg_type (length bytes) (some bytes)))
    found =
        respond_lem s.workers worker
          (λ m. write_read_response m session msg_type (length bytes) (some bytes)) m hm

    written :
        let r = react s (s', read_reply worker session msg_type (length bytes) (some bytes) ∷ []) in
        (r.0 ≡ true)
        × ((n : Memory) × (buffer_of r.1.workers worker ≡ some n)
            × (read_response n session ≡ output (meaning msg_type bytes)))
    written =
        unfold react apply in
        (
          found.0,
          (
            write_read_response m session msg_type (length bytes) (some bytes),
            found.1,
            (read_response-write m session msg_type bytes hs ht ne fits).0,
          ),
        )
