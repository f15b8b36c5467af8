-- ===== src/Channel.antt =====
-- How messages reach the scheduler: `Scheduler::send`, `close` and `is_closed` of
-- src/tasks/scheduler.rs, `WorkerMessage::emit` of src/tasks/worker_message.rs, and `on_message` of
-- src/tasks/worker_handle.rs, which takes on the scheduler's thread what a worker posted.
pub mod Delivery
pub mod Order
use wasmer_js.Prelude.{
  ℕ, List, [], ◌∷◌, ◌++◌, Option, none, some, Bool, true, false, ◌&&◌, ◌==◌, if◌then◌else◌,
}
use wasmer_js.Message.{SchedulerMessage, worker_busy, worker_idle}
use wasmer_js.Message
use wasmer_js.Message.Convert.{Texts}
use wasmer_js.Message.Worker.{
  WorkerMessage, mark_busy, mark_idle, scheduler, Envelope, into_js, try_from_js,
}

-- The channel into the scheduler's task; it is closed once the task has ended.
pub record Queue : Type 0 where
  pub closed : Bool
  pub queue : List SchedulerMessage

-- The channel, and for each worker what it posted and the event loop of the scheduler's thread has
-- not yet handed to `on_message`.
pub record Traffic : Type 0 where
  pub ports : ℕ → List Envelope
  pub channel : Queue

abbrev pub put {ℓ} : {A : Type ℓ} → (ℕ → A) → ℕ → A → ℕ → A
put f w x v = if v == w then x else f v

-- `UnboundedSender::send`.
unfoldable pub push : Queue → SchedulerMessage → Bool × Queue
push c msg = if c.closed then (false, c) else (true, record c { queue = c.queue ++ (msg ∷ []) })

abbrev pub is_idle : WorkerMessage → Bool
is_idle mark_idle = true
is_idle _ = false

-- What is sent to the scheduler for a message of a worker.
abbrev pub forward : ℕ → WorkerMessage → SchedulerMessage
forward worker_id mark_busy = worker_busy worker_id
forward worker_id mark_idle = worker_idle worker_id
forward worker_id (scheduler msg) = msg

-- `on_message`, with whether nothing is logged as unhandled. A closed scheduler's `MarkIdle` is
-- dropped.
unfoldable pub on_message : Queue → ℕ → Option WorkerMessage → Bool × Queue
on_message c worker_id none = (false, c)
on_message c worker_id (some msg) =
    if c.closed && is_idle msg then (true, c) else push c (forward worker_id msg)

-- `deliver` is a turn of the event loop for a worker, `close` the timer of `Scheduler::close`, which
-- ignores an error, and `end_task` the end of the scheduler's task.
pub data Event : Type 0 where
  emit_message : ℕ → WorkerMessage → Event
  send_message : Option ℕ → SchedulerMessage → Event
  deliver : ℕ → Event
  close end_task : Event

module _ (t : Texts) (posts : Envelope → Bool) where
  unfoldable pub post : Traffic → ℕ → Option Envelope → Bool × Traffic
  post s worker none = (false, s)
  post s worker (some e) =
      if posts e
      then (true, record s { ports = put s.ports worker (s.ports worker ++ (e ∷ [])) })
      else (false, s)

  -- `WorkerMessage::emit`.
  unfoldable pub emit : Traffic → ℕ → WorkerMessage → Bool × Traffic
  emit s worker msg = post s worker (into_js t msg)

  -- `Scheduler::send` on the scheduler's own thread, and on that of a worker.
  unfoldable pub send : Traffic → Option ℕ → SchedulerMessage → Bool × Traffic
  send s none msg = let (fine, c) = push s.channel msg in (fine, record s { channel = c })
  send s (some worker) msg = emit s worker (scheduler msg)

  unfoldable pub take_posted : Traffic → ℕ → List Envelope → Traffic
  take_posted s worker [] = s
  take_posted s worker (e ∷ rest) = record s {
    ports = put s.ports worker rest;
    channel = (on_message s.channel worker (try_from_js t e)).1;
  }

  unfoldable pub step : Traffic → Event → Traffic
  step s (emit_message worker msg) = (emit s worker msg).1
  step s (send_message thread msg) = (send s thread msg).1
  step s (deliver worker) = take_posted s worker (s.ports worker)
  step s close = record s { channel = (push s.channel Message.close).1 }
  step s end_task = record s { channel = record s.channel { closed = true } }

  unfoldable pub run : Traffic → List Event → Traffic
  run s [] = s
  run s (e ∷ es) = run (step s e) es
