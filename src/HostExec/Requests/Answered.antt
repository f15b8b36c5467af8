-- ===== src/HostExec/Requests/Answered.antt =====
-- The whole way of a read: from the worker's request through its port and the scheduler's channel to
-- the reply in the worker's response buffer.
use wasmer_js.Prelude.{
  ℕ, ◌+◌, ◌≤◌, ◌<◌, ◌≡◌, ◌≢◌, refl, List, [], ◌∷◌, some, Bool, true, false, length,
}
use wasmer_js.Memory.{Memory, word_mod}
use wasmer_js.Message.{PostMessagePayload}
use wasmer_js.Message
use wasmer_js.Message.Convert.{Texts}
use wasmer_js.Message.Worker.{Envelope, scheduler}
use wasmer_js.Channel.{Traffic, emit, step, deliver}
use wasmer_js.Channel.Delivery.{deliver-emit}
use wasmer_js.HostExec.Start.{Host}
use wasmer_js.HostExec.Response.{
  msg_type_exit, data_at, host_exec_buffer_size, output, read_response,
}
use wasmer_js.HostExec.Response.RoundTrip.{meaning}
use wasmer_js.HostExec.Requests.{Clients, emitted, fetch_add, host_exec_read}
use wasmer_js.Scheduler.Execute.{State}
use wasmer_js.Scheduler.Execute.Reply.{buffer_of, execute_read}
use wasmer_js.Scheduler.Execute.Receive.{receive}

emitted-traffic : (next id : ℕ) (r : Bool × Traffic) → (emitted next r id).1.traffic ≡ r.1
emitted-traffic next id (true, traffic) = refl
emitted-traffic next id (false, traffic) = refl

-- A worker asks for the output of a session below 2 ^ 31. `postMessage` does not fail, the worker has
-- nothing else on its way and the open channel is empty, the scheduler knows the worker, and in the
-- session's queue a chunk of at most 65520 bytes, no exit, comes first. Once the event loop has
-- handed the request over and the scheduler has received what is then in its channel, the worker
-- reads exactly that chunk out of its response buffer.
pub host_exec_read-answered :
    (t : Texts) (sends : Envelope → Bool)
    → ((e : Envelope) → sends e ≡ true)
    → (posts : ℕ → PostMessagePayload → Bool) (starts : ℕ → Bool) (host : Host) (s : Clients)
      (st : State) (worker session msg_type : ℕ) (bytes : List ℕ) (q : List (ℕ × List ℕ))
      (m : Memory)
    → s.traffic.ports worker ≡ []
    → s.traffic.channel.closed ≡ false
    → s.traffic.channel.queue ≡ []
    → buffer_of st.workers worker ≡ some m
    → st.sessions.output_queues session ≡ some ((msg_type, bytes) ∷ q)
    → session < 2147483648
    → msg_type < word_mod
    → msg_type ≢ msg_type_exit
    → data_at + length bytes ≤ host_exec_buffer_size
    → let asked = (host_exec_read t sends (some worker) s session).1.traffic in
      let received =
        receive posts starts host st (step t sends asked (deliver worker)).channel.queue in
      (n : Memory) × (buffer_of received.1.workers worker ≡ some n)
      × (read_response n session ≡ output (meaning msg_type bytes))
unfolding host_exec_read receive
host_exec_read-answered t sends all_sent posts starts host s st worker session msg_type bytes q m
      clear live empty known queued hs ht ne fits =
    rw
      (
        emitted-traffic (fetch_add s.next_session_id) s.next_session_id (
            emit t sends s.traffic worker
              (scheduler (Message.host_exec_read worker s.next_session_id session))),
        deliver-emit t sends s.traffic worker
            (scheduler (Message.host_exec_read worker s.next_session_id session)) all_sent clear
            live tt,
        empty,
      )
      (execute_read posts starts host st worker s.next_session_id session msg_type bytes q m known
        queued hs ht ne fits).1
