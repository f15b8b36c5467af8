-- ===== src/HostExec/Requests.antt =====
-- The requests of a worker (src/runtime.rs, `HostExecImpl`): up to the message that each sends to the
-- scheduler. What a worker makes of the answer is in the module Response.
pub mod Numbers
pub mod Answered
use wasmer_js.Prelude.{ℕ, ◌+◌, ◌%◌, List, [], ◌∷◌, Option, none, some, Bool, true, false}
use wasmer_js.Message.{SchedulerMessage}
use wasmer_js.Message
use wasmer_js.Message.Convert.{Texts}
use wasmer_js.Message.Worker.{WorkerMessage, scheduler, Envelope}
use wasmer_js.Channel.{Traffic, emit}

-- The counter that all workers share, an `AtomicU64`, and the traffic to the scheduler.
pub record Clients : Type 0 where
  pub next_session_id : ℕ
  pub traffic : Traffic

abbrev pub long_mod : ℕ
long_mod = 18446744073709551616

-- `sent` has the number that the request took, which `host_exec_start` returns as the session.
pub data Answer : Type 0 where
  not_in_worker not_serialized not_sent : Answer
  sent : ℕ → Answer

abbrev pub emitted : ℕ → Bool × Traffic → ℕ → Answer × Clients
emitted next (true, traffic) id = (sent id, record { next_session_id = next; traffic = traffic })
emitted next (false, traffic) id = (not_sent, record { next_session_id = next; traffic = traffic })

-- `fetch_add`.
abbrev pub fetch_add : ℕ → ℕ
fetch_add n = (n + 1) % long_mod

-- `CURRENT_WORKER_ID` is an argument. It is looked at first, but by `host_exec_start`.
module _ (t : Texts) (posts : Envelope → Bool) (worker_id : Option ℕ) where
  abbrev pub request : Clients → Option ℕ → (ℕ → ℕ → SchedulerMessage) → Answer × Clients
  request s none build = (not_in_worker, s)
  request s (some worker) build =
      emitted (fetch_add s.next_session_id)
        (emit t posts s.traffic worker (scheduler (build worker s.next_session_id)))
        s.next_session_id

  abbrev pub start_request : Clients → Option ℕ → Option (List ℕ) → Answer × Clients
  start_request s none json =
      (not_in_worker, record s { next_session_id = fetch_add s.next_session_id })
  start_request s (some worker) none =
      (not_serialized, record s { next_session_id = fetch_add s.next_session_id })
  start_request s (some worker) (some json) =
      emitted (fetch_add s.next_session_id)
        (emit t posts s.traffic worker
          (scheduler (Message.host_exec_start worker s.next_session_id json)))
        s.next_session_id

  -- The request's text is `none` where it cannot be serialized.
  unfoldable pub host_exec_start : Clients → Option (List ℕ) → Answer × Clients
  host_exec_start s json = start_request s worker_id json

  unfoldable pub host_exec_read : Clients → ℕ → Answer × Clients
  host_exec_read s session =
      request s worker_id (λ worker id. Message.host_exec_read worker id session)

  unfoldable pub host_exec_write : Clients → ℕ → List ℕ → Answer × Clients
  host_exec_write s session bytes =
      request s worker_id (λ worker id. Message.host_exec_write worker id session bytes)

  unfoldable pub host_exec_close_stdin : Clients → ℕ → Answer × Clients
  host_exec_close_stdin s session =
      request s worker_id (λ worker id. Message.host_exec_close_stdin worker id session)

  unfoldable pub host_exec_try_read : Clients → ℕ → Answer × Clients
  host_exec_try_read s session =
      request s worker_id (λ worker id. Message.host_exec_try_read worker id session)

  unfoldable pub host_exec_poll : Clients → ℕ → Answer × Clients
  host_exec_poll s session =
      request s worker_id (λ worker id. Message.host_exec_poll worker id session)

  unfoldable pub host_exec_signal : Clients → ℕ → ℕ → Answer × Clients
  host_exec_signal s session signal =
      request s worker_id (λ worker id. Message.host_exec_signal worker id session signal)

  unfoldable pub host_exec_child_output : Clients → ℕ → ℕ → ℕ → List ℕ → Answer × Clients
  host_exec_child_output s session child msg_type bytes =
      request s worker_id
        (λ worker id. Message.host_exec_child_output worker id session child msg_type bytes)

-- A call of one of these.
pub data Call : Type 0 where
  start : Option (List ℕ) → Call
  read : ℕ → Call
  write : ℕ → List ℕ → Call
  close_stdin : ℕ → Call
  try_read : ℕ → Call
  poll : ℕ → Call
  signal : ℕ → ℕ → Call
  child_output : ℕ → ℕ → ℕ → List ℕ → Call

module _ (t : Texts) (posts : Envelope → Bool) where
  unfoldable pub call : Clients → Option ℕ → Call → Answer × Clients
  call s w (start json) = host_exec_start t posts w s json
  call s w (read session) = host_exec_read t posts w s session
  call s w (write session bytes) = host_exec_write t posts w s session bytes
  call s w (close_stdin session) = host_exec_close_stdin t posts w s session
  call s w (try_read session) = host_exec_try_read t posts w s session
  call s w (poll session) = host_exec_poll t posts w s session
  call s w (signal session sig) = host_exec_signal t posts w s session sig
  call s w (child_output session child msg_type bytes) =
      host_exec_child_output t posts w s session child msg_type bytes

-- What calls, each on its thread, return as the number they took, where they do.
abbrev pub with_number : Answer → List ℕ → List ℕ
with_number (sent id) ids = id ∷ ids
with_number _ ids = ids

module _ (t : Texts) (posts : Envelope → Bool) where
  abbrev pub numbers : Clients → List (Option ℕ × Call) → List ℕ
  numbers s [] = []
  numbers s ((w, c) ∷ cs) = with_number (call t posts s w c).0 (numbers (call t posts s w c).1 cs)
