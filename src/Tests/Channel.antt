-- ===== src/Tests/Channel.antt =====
-- Two workers that send to an open channel, and a read that comes back.
use wasmer_js.Prelude.{
  ℕ, ◌≡◌, refl, List, [], ◌∷◌, Option, none, some, Bool, true, false, arith, empty, insert,
}
use wasmer_js.Memory.{Memory}
use wasmer_js.Message.{PostMessagePayload}
use wasmer_js.Message
use wasmer_js.Message.Convert.{Texts}
use wasmer_js.Message.Worker.{mark_busy, mark_idle, Envelope}
use wasmer_js.Channel.{Event, emit_message, send_message, deliver, step}
use wasmer_js.Channel.Order.{opened}
use wasmer_js.HostExec.Start.{Host, promise}
use wasmer_js.HostExec.Response.{output, stdout, read_response}
use wasmer_js.HostExec.Requests.{Clients, Call, start, read, poll, host_exec_read, numbers}
use wasmer_js.HostExec.Requests.Numbers.{Ascends, numbers-Ascends}
use wasmer_js.HostExec.Requests.Answered.{host_exec_read-answered}
use wasmer_js.Scheduler.Execute.{State}
use wasmer_js.Scheduler.Execute.Reply.{buffer_of}
use wasmer_js.Scheduler.Execute.Receive.{receive}

abbrev texts : Texts
texts = record {
  print_hash = λ h. h;
  sha256_parse_hex = λ s. none;
  xxhash_parse_hex = λ s. some s;
  has_shared_memory = λ s. false;
}

abbrev sends : Envelope → Bool
sends e = true

-- Worker 1 marks itself, worker 2 sends a job meanwhile, and not all of it is handed over.
abbrev events : List Event
events =
    emit_message 1 mark_busy
    ∷ send_message (some 2) (Message.spawn_async 5)
    ∷ deliver 2
    ∷ emit_message 1 mark_idle
    ∷ send_message none (Message.spawn_blocking 6)
    ∷ deliver 1
    ∷ []

abbrev clients : Clients
clients = record { next_session_id = 4; traffic = opened [] }

abbrev calls : List (Option ℕ × Call)
calls = (some 1, start (some (7 ∷ []))) ∷ (none, read 4) ∷ (some 2, poll 4) ∷ []

numbers-Ascends_example : Ascends 4 7 (numbers texts sends clients calls)
numbers-Ascends_example = numbers-Ascends texts sends clients calls (omega arith)

-- Worker 2 is busy, and session 7 has a chunk for it.
abbrev state : State
state = record {
  workers = record {
    idle = [];
    busy = record { id = 2; inbox = []; host_exec_buffer = λ a. 0 } ∷ [];
    cached_modules = [];
    next_id = 3;
  };
  sessions = record {
    results = empty;
    pending_reads = empty;
    output_queues = insert empty 7 ((1, 72 ∷ []) ∷ []);
    stdin_writers = empty;
    signal_handlers = empty;
    child_output_handlers = empty;
    mailbox = [];
  };
  calls = [];
}

abbrev host : Host
host = record {
  parse = λ json. some 0;
  registered = true;
  call = λ s session request. (promise, s);
}

chunk_queued : state.sessions.output_queues 7 ≡ some ((1, 72 ∷ []) ∷ [])
unfolding insert
chunk_queued = refl

host_exec_read-answered_example :
    let asked = (host_exec_read texts sends (some 2) clients 7).1.traffic in
    let received =
      receive
        (λ id msg. true)
        (λ id. true)
        host
        state
        (step texts sends asked (deliver 2)).channel.queue in
    (n : Memory) × (buffer_of received.1.workers 2 ≡ some n)
    × (read_response n 7 ≡ output (stdout (72 ∷ [])))
host_exec_read-answered_example =
    host_exec_read-answered texts sends (λ e. refl) (λ id msg. true) (λ id. true) host clients state
      2 7 1 (72 ∷ []) [] (λ a. 0) refl refl refl refl chunk_queued (omega arith) (omega arith)
      (omega arith) (omega arith)
