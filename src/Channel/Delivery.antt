-- ===== src/Channel/Delivery.antt =====
-- What the traffic to the scheduler is to achieve: each worker has a queue of messages, which arrive
-- in the order in which they were sent.
use wasmer_js.Prelude.{
  ℕ, ◌≡◌, refl, sym, ap₂, ◌∙◌, List, [], ◌∷◌, ◌++◌, map, Option, none, some, Bool, true, false,
  if◌then◌else◌, arith,
}
use mathlib.Core.List.{map-append}
use wasmer_js.Message.{SchedulerMessage}
use wasmer_js.Message
use wasmer_js.Message.Object.{◌>>=◌}
use wasmer_js.Message.Convert.{Texts}
use wasmer_js.Message.Worker.{
  WorkerMessage, scheduler, Envelope, into_js, try_from_js, IsEmittable, read_back,
  try_from_js-into_js_worker,
}
use wasmer_js.Channel.{
  Queue, Traffic, put, push, forward, on_message, post, emit, send, take_posted, Event,
  emit_message, send_message, deliver, close, end_task, step, run,
}

-- The messages that each worker has sent and that have not arrived, and those that have, with the
-- worker that they come from if it is one.
pub record Outboxes : Type 0 where
  pub outbox : ℕ → List WorkerMessage
  pub arrived : List (Option ℕ × SchedulerMessage)
  pub ended : Bool

-- Nothing arrives after the scheduler has ended.
abbrev pub arrive : Outboxes → Option ℕ → SchedulerMessage → Outboxes
arrive a origin msg = record a {
  arrived = if a.ended then a.arrived else a.arrived ++ ((origin, msg) ∷ []);
}

abbrev pub take_sent : Outboxes → ℕ → List WorkerMessage → Outboxes
take_sent a worker [] = a
take_sent a worker (msg ∷ rest) =
    arrive (record a { outbox = put a.outbox worker rest }) (some worker)
      (forward worker (read_back msg))

abbrev pub send_out : Outboxes → ℕ → WorkerMessage → Outboxes
send_out a worker msg = record a { outbox = put a.outbox worker (a.outbox worker ++ (msg ∷ [])) }

abbrev pub step_out : Outboxes → Event → Outboxes
step_out a (emit_message worker msg) = send_out a worker msg
step_out a (send_message (some worker) msg) = send_out a worker (scheduler msg)
step_out a (send_message none msg) = arrive a none msg
step_out a (deliver worker) = take_sent a worker (a.outbox worker)
step_out a close = arrive a none Message.close
step_out a end_task = record a { ended = true }

abbrev pub run_out : Outboxes → List Event → Outboxes
run_out a [] = a
run_out a (e ∷ es) = run_out (step_out a e) es

-- What workers send can be sent.
abbrev pub AreEmittable : Texts → List Event → Type 0
AreEmittable t [] = Unit
AreEmittable t (emit_message worker msg ∷ es) = IsEmittable t msg × AreEmittable t es
AreEmittable t (send_message (some worker) msg ∷ es) =
    IsEmittable t (scheduler msg) × AreEmittable t es
AreEmittable t (_ ∷ es) = AreEmittable t es

abbrev pub untag : Option ℕ × SchedulerMessage → SchedulerMessage
untag (origin, msg) = msg

-- The posted objects are those of the messages sent, and the channel holds what has arrived.
pub record Carries (t : Texts) (s : Traffic) (a : Outboxes) : Type 0 where
  pub carried :
      (w : ℕ) → map (try_from_js t) (s.ports w) ≡ map (λ m. some (read_back m)) (a.outbox w)
  pub arrived_same : s.channel.queue ≡ map untag a.arrived
  pub ended_same : s.channel.closed ≡ a.ended

map-put :
    (t : Texts) (es : ℕ → List Envelope) (ms : ℕ → List WorkerMessage) (w : ℕ) (x : List Envelope)
    (y : List WorkerMessage)
    → ((v : ℕ) → map (try_from_js t) (es v) ≡ map (λ m. some (read_back m)) (ms v))
    → map (try_from_js t) x ≡ map (λ m. some (read_back m)) y
    → (v : ℕ) → map (try_from_js t) (put es w x v) ≡ map (λ m. some (read_back m)) (put ms w y v)
map-put t es ms w x y h k v = ground (arith, k, h v)

-- A closed channel drops what `on_message` takes, an open one holds it.
on_message_lem :
    (c : Queue) (worker : ℕ) (msg : WorkerMessage)
    → (on_message c worker (some msg)).1 ≡ (push c (forward worker msg)).1
unfolding on_message push
on_message_lem c worker msg = ground arith

push-Carries :
    (t : Texts) (s : Traffic) (a : Outboxes) (origin : Option ℕ) (msg : SchedulerMessage)
    → Carries t s a
    → Carries t (record s { channel = (push s.channel msg).1 }) (arrive a origin msg)
unfolding push
push-Carries t s a origin msg h = record {
  carried = h.carried;
  arrived_same =
      ground (arith, h.arrived_same, h.ended_same, map-append untag a.arrived ((origin, msg) ∷ []));
  ended_same = ground (arith, h.ended_same);
}

module _ (t : Texts) (posts : Envelope → Bool) (all_posted : (e : Envelope) → posts e ≡ true) where
  emit-Carries :
      (s : Traffic) (a : Outboxes) (worker : ℕ) (msg : WorkerMessage)
      → IsEmittable t msg
      → Carries t s a
      → Carries t (emit t posts s worker msg).1 (send_out a worker msg)
  unfolding emit post
  emit-Carries s a worker msg ok h = go (into_js t msg) (try_from_js-into_js_worker t msg ok)
    where
      go :
          (o : Option Envelope)
          → (o >>= try_from_js t) ≡ some (read_back msg)
          → Carries t (post t posts s worker o).1 (send_out a worker msg)
      go none e = absurd (cc)
      go (some o) e = rw (all_posted o) (record {
        carried =
            map-put t s.ports a.outbox worker (s.ports worker ++ (o ∷ []))
              (a.outbox worker ++ (msg ∷ [])) h.carried
              (map-append (try_from_js t) (s.ports worker) (o ∷ [])
                ∙ ap₂ (λ xs x. xs ++ (x ∷ [])) (h.carried worker) e
                ∙ sym (map-append (λ m. some (read_back m)) (a.outbox worker) (msg ∷ [])));
        arrived_same = h.arrived_same;
        ended_same = h.ended_same;
      })

  deliver-Carries :
      (s : Traffic) (a : Outboxes) (worker : ℕ)
      → Carries t s a
      → Carries t
          (take_posted t posts s worker (s.ports worker))
          (take_sent a worker (a.outbox worker))
  unfolding take_posted
  deliver-Carries s a worker h = go (s.ports worker) (a.outbox worker) (h.carried worker)
    where
      go :
          (es : List Envelope) (ms : List WorkerMessage)
          → map (try_from_js t) es ≡ map (λ m. some (read_back m)) ms
          → Carries t (take_posted t posts s worker es) (take_sent a worker ms)
      go [] [] k = h
      go [] (m ∷ ms) k = absurd (cc)
      go (e ∷ es) [] k = absurd (cc)
      go (e ∷ es) (m ∷ ms) k =
          let e₀ : try_from_js t e ≡ some (read_back m) = cc in
          let rest : map (try_from_js t) es ≡ map (λ m. some (read_back m)) ms = cc in
          rw (e₀, on_message_lem s.channel worker (read_back m))
            (push-Carries t (record s { ports = put s.ports worker es })
              (record a { outbox = put a.outbox worker ms }) (some worker)
              (forward worker (read_back m))
              (record {
                carried = map-put t s.ports a.outbox worker es ms h.carried rest;
                arrived_same = h.arrived_same;
                ended_same = h.ended_same;
              }))

  step-Carries :
      (s : Traffic) (a : Outboxes) (e : Event) (es : List Event)
      → AreEmittable t (e ∷ es)
      → Carries t s a
      → Carries t (step t posts s e) (step_out a e) × AreEmittable t es
  unfolding step send
  step-Carries s a (emit_message worker msg) es ok h = (emit-Carries s a worker msg ok.0 h, ok.1)
  step-Carries s a (send_message none msg) es ok h = (push-Carries t s a none msg h, ok)
  step-Carries s a (send_message (some worker) msg) es ok h =
      (emit-Carries s a worker (scheduler msg) ok.0 h, ok.1)
  step-Carries s a (deliver worker) es ok h = (deliver-Carries s a worker h, ok)
  step-Carries s a close es ok h = (push-Carries t s a none Message.close h, ok)
  step-Carries s a end_task es ok h =
      (record { carried = h.carried; arrived_same = h.arrived_same; ended_same = refl }, ok)

  pub run-Carries :
      (s : Traffic) (a : Outboxes) (es : List Event)
      → AreEmittable t es
      → Carries t s a
      → Carries t (run t posts s es) (run_out a es)
  unfolding run
  run-Carries s a [] ok h = h
  run-Carries s a (e ∷ es) ok h =
      let (h', ok') = step-Carries s a e es ok h in
      run-Carries (step t posts s e) (step_out a e) es ok' h'

take_one :
    (t : Texts) (posts : Envelope → Bool) (s : Traffic) (worker : ℕ) (o : Envelope)
    (msg : WorkerMessage)
    → s.ports worker ≡ o ∷ []
    → s.channel.closed ≡ false
    → try_from_js t o ≡ some msg
    → (take_posted t posts s worker (s.ports worker)).channel.queue
      ≡ s.channel.queue ++ (forward worker msg ∷ [])
unfolding take_posted on_message push
take_one t posts s worker o msg posted live e = rw (posted, e) (ground (arith, live))

-- A message that is posted to an open channel by a worker that has nothing on its way is the next one
-- there once it is handed over.
pub deliver-emit :
    (t : Texts) (posts : Envelope → Bool) (s : Traffic) (worker : ℕ) (msg : WorkerMessage)
    → ((e : Envelope) → posts e ≡ true)
    → s.ports worker ≡ []
    → s.channel.closed ≡ false
    → IsEmittable t msg
    → (step t posts (emit t posts s worker msg).1 (deliver worker)).channel.queue
      ≡ s.channel.queue ++ (forward worker (read_back msg) ∷ [])
unfolding step emit
deliver-emit t posts s worker msg all_posted clear live ok =
    go (into_js t msg) (try_from_js-into_js_worker t msg ok)
  where
    go :
        (o : Option Envelope)
        → (o >>= try_from_js t) ≡ some (read_back msg)
        → (step t posts (post t posts s worker o).1 (deliver worker)).channel.queue
          ≡ s.channel.queue ++ (forward worker (read_back msg) ∷ [])
    go none e = absurd (cc)
    go (some o) e =
        unfold post in
        rw (all_posted o) (
          take_one t posts (record s { ports = put s.ports worker (s.ports worker ++ (o ∷ [])) })
            worker o (read_back msg) (ground (arith, clear)) live e)
