-- ===== src/HostExec/Sessions/Delivery/Queued.antt =====
-- What each way to hand a chunk over does to the chunks that are undelivered.
use wasmer_js.Prelude.{
  ℕ, ◌≡◌, ◌≢◌, refl, sym, ap, ◌∙◌, List, [], ◌∷◌, ◌++◌, Option, none, some, Bool, true, false, ◌==◌,
  append-nil, append_assoc, arith, ==→eq, insert,
}
use wasmer_js.HostExec.Response.{msg_type_exit}
use wasmer_js.HostExec.Sessions.{
  Chunk, ReadComplete, Sessions, wake, send_or_queue, wake_with, queue_and_wake, push_queue,
  pop_front, read_complete, exit_reply, from_le_bytes, to_le_bytes,
}
use wasmer_js.HostExec.Sessions.Delivery.{only, handed, in_flight, queued, undelivered, IsWaiting}

in_flight-append :
    (xs ys : List ReadComplete) (id : ℕ)
    → in_flight (xs ++ ys) id ≡ in_flight xs id ++ in_flight ys id
in_flight-append [] ys id = refl
in_flight-append (m ∷ xs) ys id =
    ap (◌++◌ (handed (read_complete m) id)) (in_flight-append xs ys id)
    ∙ sym (append_assoc (handed (read_complete m) id) (in_flight xs id) (in_flight ys id))

-- A message for a chunk that is no exit hands over that chunk.
handed-exit_reply :
    (m : ReadComplete) (code : Option ℕ) (id : ℕ)
    → m.msg_type ≢ msg_type_exit
    → handed (exit_reply m code) id ≡ only (id == m.session_id) (m.msg_type, m.bytes)
handed-exit_reply m none id h = refl
handed-exit_reply m (some code) id h = ground arith

queued-push_queue : (q : Option (List Chunk)) (c : Chunk) → push_queue q c ≡ queued q ++ (c ∷ [])
queued-push_queue none c = refl
queued-push_queue (some q) c = refl

-- A chunk that waits in the queue of another session, or at the end of this one's.
pub queued-insert :
    (s : Sessions) (j id : ℕ) (c : Chunk)
    → queued (insert s.output_queues j (push_queue (s.output_queues j) c) id)
      ≡ queued (s.output_queues id) ++ only (id == j) c
unfolding insert
queued-insert s j id c =
    ground
      (arith, append-nil (queued (s.output_queues id)), queued-push_queue (s.output_queues j) c)

-- A chunk of this session goes behind those in flight when none is queued.
behind :
    (f q : List Chunk) (b : Bool) (c : Chunk)
    → (b ≡ true → q ≡ [])
    → (f ++ (only b c ++ [])) ++ q ≡ (f ++ q) ++ only b c
behind f q true c h =
    ap (◌++◌ (f ++ (c ∷ []))) (h refl)
    ∙ append-nil (f ++ (c ∷ []))
    ∙ ap (λ x. x ++ (c ∷ [])) (sym (append-nil f) ∙ ap (◌++◌ f) (sym (h refl)))
behind f q false c h = ap (λ x. x ++ q) (append-nil f) ∙ sym (append-nil (f ++ q))

pub undelivered-wake :
    (s : Sessions) (j worker k : ℕ) (msg_type : ℕ) (bytes : List ℕ) (id : ℕ)
    → k ≡ j
    → queued (s.output_queues j) ≡ []
    → msg_type ≢ msg_type_exit
    → undelivered (wake s j (worker, k) (msg_type, bytes)) id
      ≡ undelivered s id ++ only (id == j) (msg_type, bytes)
undelivered-wake s j worker k msg_type bytes id e q h =
    ap (λ x. x ++ queued (s.output_queues id))
      (in_flight-append s.mailbox (m ∷ []) id
        ∙ ap (λ x. in_flight s.mailbox id ++ (x ++ []))
            (handed-exit_reply m (from_le_bytes bytes) id h
              ∙ ap (λ x. only (id == x) (msg_type, bytes)) e))
    ∙ behind (in_flight s.mailbox id) (queued (s.output_queues id)) (id == j) (msg_type, bytes)
        (λ t. ap (λ x. queued (s.output_queues x)) (==→eq id j t) ∙ q)
  where
    m : ReadComplete
    m = record { worker_id = worker; session_id = k; msg_type = msg_type; bytes = bytes }

-- An exit code on its way is no chunk.
pub undelivered-wake_exit :
    (s : Sessions) (j worker k code : ℕ) (id : ℕ)
    → undelivered (wake s j (worker, k) (msg_type_exit, to_le_bytes code)) id ≡ undelivered s id
undelivered-wake_exit s j worker k code id =
    ap (λ x. x ++ queued (s.output_queues id))
      (in_flight-append s.mailbox (m ∷ []) id ∙ append-nil (in_flight s.mailbox id))
  where
    m : ReadComplete
    m = record {
      worker_id = worker;
      session_id = k;
      msg_type = msg_type_exit;
      bytes = to_le_bytes code;
    }

pub undelivered-send_or_queue :
    (s : Sessions) (j : ℕ) (p : Option (ℕ × ℕ)) (c : Chunk) (id : ℕ)
    → IsWaiting s j p
    → c.0 ≢ msg_type_exit
    → undelivered (send_or_queue s j p c) id ≡ undelivered s id ++ only (id == j) c
unfolding send_or_queue
undelivered-send_or_queue s j none c id w h =
    ap (◌++◌ (in_flight s.mailbox id)) (queued-insert s j id c)
    ∙ sym (append_assoc (in_flight s.mailbox id) (queued (s.output_queues id)) (only (id == j) c))
undelivered-send_or_queue s j (some (worker, k)) (t, bytes) id w h =
    undelivered-wake s j worker k t bytes id w.0 w.1 h

pub undelivered-queue_and_wake :
    (s : Sessions) (j : ℕ) (c : Chunk) (id : ℕ)
    → IsWaiting s j (s.pending_reads j)
    → c.0 ≢ msg_type_exit
    → undelivered (queue_and_wake s j c) id ≡ undelivered s id ++ only (id == j) c
unfolding queue_and_wake
undelivered-queue_and_wake s j c id w h = go (s.pending_reads j) w
  where
    s' : Sessions
    s' = record s { output_queues = insert s.output_queues j (push_queue (s.output_queues j) c) }

    s'' : Sessions
    s'' = record s' { output_queues = insert s'.output_queues j [] }

    emptied :
        (i : ℕ)
        → queued (s.output_queues j) ≡ []
        → (queued (s''.output_queues j) ≡ [])
          × (queued (s''.output_queues i) ≡ queued (s.output_queues i))
    emptied i h = unfold insert in (ground arith, ground (arith, h))

    go :
        (p : Option (ℕ × ℕ))
        → IsWaiting s j p
        → undelivered (wake_with s' j p (pop_front (push_queue (s.output_queues j) c))) id
          ≡ undelivered s id ++ only (id == j) c
    go none w =
        unfold wake_with in
        ap (◌++◌ (in_flight s.mailbox id)) (queued-insert s j id c)
        ∙ sym
            (append_assoc (in_flight s.mailbox id) (queued (s.output_queues id)) (only (id == j) c))
    go (some (worker, k)) w =
        ap (λ q. undelivered (wake_with s' j (some (worker, k)) (pop_front q)) id)
          (queued-push_queue (s.output_queues j) c ∙ ap (λ q. q ++ (c ∷ [])) w.1)
        ∙ unfold wake_with in
          undelivered-wake s'' j worker k c.0 c.1 id w.0 (emptied j w.1).0 h
          ∙ ap (λ q. (in_flight s.mailbox id ++ q) ++ only (id == j) c) (emptied id w.1).1
