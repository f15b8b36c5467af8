-- ===== src/Channel/Order.antt =====
-- Over a run of events, in which order the messages of each worker reach the scheduler.
use wasmer_js.Prelude.{
  ℕ, ◌≡◌, List, [], ◌∷◌, ◌++◌, map, Option, none, some, Bool, true, false, ◌==◌, if◌then◌else◌,
}
use wasmer_js.Message.{SchedulerMessage}
use wasmer_js.Message
use wasmer_js.Message.Worker.{WorkerMessage, scheduler, read_back}
use wasmer_js.Channel.{Traffic, forward, Event, emit_message, send_message, end_task}
use wasmer_js.Channel.Delivery.{Outboxes}

-- What a worker's messages become.
abbrev pub forwarded : ℕ → List WorkerMessage → List SchedulerMessage
forwarded w ms = map (λ m. forward w (read_back m)) ms

-- What an event sends from a worker.
abbrev pub sent_by : ℕ → Event → List WorkerMessage
sent_by w (emit_message v msg) = if v == w then msg ∷ [] else []
sent_by w (send_message (some v) msg) = if v == w then scheduler msg ∷ [] else []
sent_by w _ = []

abbrev pub all_sent_by : ℕ → List Event → List WorkerMessage
all_sent_by w [] = []
all_sent_by w (e ∷ es) = sent_by w e ++ all_sent_by w es

abbrev pub is_from : ℕ → Option ℕ → Bool
is_from w none = false
is_from w (some v) = v == w

-- The messages that come from a worker.
abbrev pub from_worker : ℕ → List (Option ℕ × SchedulerMessage) → List SchedulerMessage
from_worker w [] = []
from_worker w ((origin, msg) ∷ rest) =
    if is_from w origin then msg ∷ from_worker w rest else from_worker w rest

-- The scheduler's task does not end.
abbrev pub NeverEnds : List Event → Type 0
NeverEnds [] = Unit
NeverEnds (end_task ∷ es) = (false ≡ true)
NeverEnds (_ ∷ es) = NeverEnds es

-- What has arrived of a worker's messages, and what is on its way.
abbrev flow : ℕ → Outboxes → List SchedulerMessage
flow w a = from_worker w a.arrived ++ forwarded w (a.outbox w)

-- Nothing is on its way to an open channel.
abbrev pub opened : List SchedulerMessage → Traffic
opened queue = record { ports = λ w. []; channel = record { closed = false; queue = queue } }

abbrev opened_out : List SchedulerMessage → Outboxes
opened_out queue = record {
  outbox = λ w. [];
  arrived = map (λ msg. (none, msg)) queue;
  ended = false;
}
