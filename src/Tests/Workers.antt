-- ===== src/Tests/Workers.antt =====
-- Workers that take every message, and an environment that starts every worker.
use wasmer_js.Prelude.{List, ℕ, ◌≡◌, refl, Bool, true, [], ◌∷◌, some, arith, empty, insert}
use wasmer_js.Memory.{Memory}
use wasmer_js.Message.{
  PostMessagePayload, StartResult, started, blocking, thunk, cache_module, SchedulerMessage,
}
use wasmer_js.Message
use wasmer_js.HostExec.Start.{Host, promise}
use wasmer_js.HostExec.Response.{output, stdout, read_response}
use wasmer_js.HostExec.Sessions.{Sessions}
use wasmer_js.Scheduler.{
  WorkerHandle, SchedulerState, post_message, cache, send_all, send, next_available_worker,
  file_worker,
}
use wasmer_js.Scheduler.Ids.{IsUnique}
use wasmer_js.Scheduler.Blocking.{IsGiven, post_message_blocking}
use wasmer_js.Scheduler.Modules.{IsPrimed, post_message-IsPrimed, cache-IsPrimed}
use wasmer_js.Scheduler.Execute.{State, execute}
use wasmer_js.Scheduler.Execute.Identity.{execute-IsUnique}
use wasmer_js.Scheduler.Execute.Receive.{receive, execute_all, closes, without_close, receive_lem}
use wasmer_js.Scheduler.Execute.Counter.{execute_all-IsUnique}
use wasmer_js.Scheduler.Execute.Reply.{execute_read, buffer_of}

abbrev posts : ℕ → PostMessagePayload → Bool
posts id msg = true

abbrev starts : ℕ → Bool
starts id = true

abbrev host : Host
host = record {
  parse = λ json. some 0;
  registered = true;
  call = λ s session request. (promise, s);
}

-- Two idle workers that know module 6 under hash 5.
abbrev worker : ℕ → WorkerHandle
worker i = record { id = i; inbox = cache_module 5 6 ∷ []; host_exec_buffer = λ a. 0 }

abbrev two : SchedulerState
two = record {
  idle = worker 1 ∷ [];
  busy = worker 2 ∷ [];
  cached_modules = (5, 6) ∷ [];
  next_id = 3;
}

two-IsUnique : IsUnique two
two-IsUnique = (λ i. ground arith, λ i l. ground arith)

two-IsPrimed : IsPrimed two
two-IsPrimed hash wasm l = ((ground arith, tt), (ground arith, tt))

abbrev job : PostMessagePayload
job = blocking (thunk 9)

job_posted : (post_message posts starts two job).0 ≡ true
unfolding post_message next_available_worker file_worker send
job_posted = refl

post_message_blocking_example :
    (w : WorkerHandle) × IsGiven two job (post_message posts starts two job).1 w
post_message_blocking_example =
    post_message_blocking posts starts two job two-IsUnique (omega arith) refl job_posted

post_message-IsPrimed_example : IsPrimed (post_message posts starts two job).1
post_message-IsPrimed_example = post_message-IsPrimed posts starts two job two-IsPrimed

cached_fine : (cache posts starts two 7 8).0 ≡ true
unfolding cache send_all send
cached_fine = refl

cached_told : IsPrimed (cache posts starts two 7 8).1
cached_told = cache-IsPrimed posts starts two 7 8 two-IsPrimed cached_fine

-- Session 7 has a chunk for a reader.
abbrev sessions : Sessions
sessions = record {
  results = empty;
  pending_reads = empty;
  output_queues = insert empty 7 ((1, 72 ∷ []) ∷ []);
  stdin_writers = empty;
  signal_handlers = empty;
  child_output_handlers = empty;
  mailbox = [];
}

abbrev state : State
state = record { workers = two; sessions = sessions; calls = [] }

spawn_executed : IsUnique (execute posts starts host state (Message.spawn_blocking 9)).1.workers
spawn_executed =
    execute-IsUnique posts starts host state (Message.spawn_blocking 9) two-IsUnique (omega arith)

chunk_queued : sessions.output_queues 7 ≡ some ((1, 72 ∷ []) ∷ [])
unfolding insert
chunk_queued = refl

read_executed :
    ((execute posts starts host state (Message.host_exec_read 2 11 7)).0 ≡ true)
    × ((n : Memory) × (buffer_of
            (execute posts starts host state (Message.host_exec_read 2 11 7)).1.workers
            2
          ≡ some n)
        × (read_response n 7 ≡ output (stdout (72 ∷ []))))
read_executed =
    execute_read posts starts host state 2 11 7 1 (72 ∷ []) [] (λ a. 0) refl chunk_queued
      (omega arith) (omega arith) (omega arith) (omega arith)

abbrev queue : List SchedulerMessage
queue = Message.spawn_async 1 ∷ Message.close ∷ Message.worker_busy 1 ∷ Message.close ∷ []

receive_lem_example :
    receive posts starts host state queue
    ≡ (closes queue, execute_all posts starts host state (without_close queue))
receive_lem_example = receive_lem posts starts host state queue

execute_all-IsUnique_example : IsUnique (execute_all posts starts host state queue).workers
execute_all-IsUnique_example =
    execute_all-IsUnique posts starts host state queue two-IsUnique (omega arith)
