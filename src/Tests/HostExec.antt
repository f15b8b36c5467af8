-- ===== src/Tests/HostExec.antt =====
-- A session with a queue, and a worker's buffer.
use wasmer_js.Prelude.{
  ℕ, ◌+◌, ◌-◌, ◌≤◌, ◌≡◌, refl, true, List, [], ◌∷◌, ◌++◌, none, some, arith, length, take, empty,
  insert, remove, zero, suc, ap,
}
use wasmer_js.Memory.{Memory}
use wasmer_js.HostExec.Response.{
  msg_type_stdout, msg_type_exit, write_read_response, stdout, exit, output, session_mismatch,
  read_response, try_read_response, poll_response,
}
use wasmer_js.HostExec.Response.RoundTrip.{read_response-write, read_response-exit}
use wasmer_js.HostExec.Response.Limits.{zeros, room, read_response-long, read_response-sign}
use wasmer_js.HostExec.Response.Wakeup.{blocking_read, blocking_read_race}
use wasmer_js.HostExec.Sessions.{
  Sessions, read_reply, poll_reply, host_exec_read, host_exec_try_read, host_exec_poll, answer_read,
  on_stdout, send_or_queue, receive,
}
use wasmer_js.HostExec.Sessions.Delivery.{
  Event, emit_stdout, read, finish, deliver, step, all_handed, undelivered, IsSound,
}
use wasmer_js.HostExec.Sessions.Delivery.Waiting.{step-IsSound}
use wasmer_js.HostExec.Sessions.Delivery.Order.{run, IsOrderlyRun, all_emitted, run_in_order}
use wasmer_js.HostExec.Sessions.Delivery.Exit.{
  is_answered, host_exec_poll-try_read, host_exec_read-exit, finish_twice,
}

abbrev blank : Memory
blank a = 0

abbrev bytes : List ℕ
bytes = 72 ∷ 105 ∷ []

abbrev written : Memory
written = write_read_response blank 7 1 2 (some bytes)

read_response-write_example :
    (read_response written 7 ≡ output (stdout bytes))
    × (try_read_response written ≡ some (stdout bytes))
    × (poll_response written ≡ true)
read_response-write_example =
    read_response-write blank 7 1 bytes (omega arith) (omega arith) (omega arith) (omega arith)

abbrev exited : Memory
exited = write_read_response blank 7 3 4294967295 none

exit_read_back :
    (read_response exited 7 ≡ output (exit 4294967295))
    × (try_read_response exited ≡ some (exit 4294967295))
    × (poll_response exited ≡ true)
exit_read_back = read_response-exit blank 7 4294967295 (omega arith) (omega arith)

misread_session :
    read_response (write_read_response blank 2147483648 1 2 (some bytes)) 2147483648
    ≡ session_mismatch 2147483648 (2147483648 + 18446744069414584320)
misread_session =
    read_response-sign blank 2147483648 1 2 (some bytes) (omega arith) (omega arith) (omega arith)
      (omega arith)

-- A message of 65521 bytes.
length-zeros : (n : ℕ) → length (zeros n) ≡ n
unfolding zeros
length-zeros zero = refl
length-zeros (suc n) = ap suc (length-zeros n)

unfoldable long : List ℕ
long = zeros 65521

length-long : length long ≡ 65521
unfolding long
length-long = length-zeros 65521

long_enough : room ≤ length long
unfolding room
long_enough = omega (arith, length-long)

cut_message :
    read_response (write_read_response blank 7 msg_type_stdout (length long) (some long)) 7
    ≡ output (stdout (take room long ++ zeros (length long - room)))
cut_message = read_response-long blank 7 long (omega arith) long_enough (omega (arith, length-long))

abbrev answer : Memory → Memory
answer n = write_read_response n 7 1 2 (some bytes)

blocking_read_race_example :
    (blocking_read blank 7 (answer ∷ []) (answer ∷ []) [] ≡ some (output (stdout bytes)))
    × (blocking_read blank 7 (answer ∷ []) [] (answer ∷ []) ≡ some (output (stdout bytes)))
    × (blocking_read blank 7 (answer ∷ []) [] [] ≡ none)
blocking_read_race_example =
    blocking_read_race blank 7 1 bytes (answer ∷ []) [] (omega arith) (omega arith) (omega arith)
      (omega arith)

-- No session has begun.
abbrev start : Sessions
start = record {
  results = empty;
  pending_reads = empty;
  output_queues = empty;
  stdin_writers = empty;
  signal_handlers = empty;
  child_output_handlers = empty;
  mailbox = [];
}

start-IsSound : IsSound start
start-IsSound j worker k h = absurd (ground (arith, h))

step-IsSound_example : IsSound (step start (read 2 7)).0
step-IsSound_example = step-IsSound start (read 2 7) start-IsSound

abbrev events : List Event
events = read 2 7 ∷ emit_stdout 7 bytes ∷ emit_stdout 7 (33 ∷ []) ∷ deliver ∷ read 2 7 ∷ []

events-IsOrderlyRun : IsOrderlyRun start events
unfolding IsOrderlyRun step host_exec_read answer_read on_stdout send_or_queue receive insert remove
events-IsOrderlyRun = (refl, (tt, (tt, (tt, (refl, tt)))))

run_in_order_example :
    all_handed (run start events).1 7 ++ undelivered (run start events).0 7
    ≡ undelivered start 7 ++ all_emitted events 7
run_in_order_example = run_in_order start events 7 start-IsSound events-IsOrderlyRun

-- Session 7 has ended.
abbrev ended : Sessions
ended = record start { results = insert empty 7 3 }

ended_read : (host_exec_read ended 2 7).1 ≡ read_reply 2 7 msg_type_exit 3 none ∷ []
unfolding host_exec_read answer_read insert
ended_read = refl

host_exec_read-exit_example : (undelivered ended 7 ≡ []) × (ended.results 7 ≡ some 3)
host_exec_read-exit_example = host_exec_read-exit ended 2 7 3 refl ended_read

ended_polled :
    host_exec_poll ended 2 7
    ≡ (ended, poll_reply 2 7 (is_answered (host_exec_try_read ended 2 7).1) ∷ [])
ended_polled = host_exec_poll-try_read ended 2 7

-- Worker 2 waits for session 7.
abbrev waits : Sessions
waits = record start { pending_reads = insert empty 7 (2, 7) }

waits_pending : waits.pending_reads 7 ≡ some (2, 7)
unfolding insert
waits_pending = refl

exit_twice :
    (run waits (finish 7 3 ∷ deliver ∷ read 2 7 ∷ [])).1
    ≡ read_reply 2 7 msg_type_exit 3 none ∷ read_reply 2 7 msg_type_exit 3 none ∷ []
exit_twice = finish_twice waits 2 7 3 (omega arith) waits_pending refl refl
