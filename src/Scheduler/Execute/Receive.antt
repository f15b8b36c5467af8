-- ===== src/Scheduler/Execute/Receive.antt =====
-- The task that receives the scheduler's messages: the loop in `Scheduler::spawn`
-- (src/tasks/scheduler.rs). What an error of `execute` is logged as is left out.
use wasmer_js.Prelude.{ℕ, ◌≡◌, refl, ap, List, [], ◌∷◌, Bool, true, false, ◌||◌, if◌then◌else◌}
use wasmer_js.Message.{PostMessagePayload, SchedulerMessage, close}
use wasmer_js.HostExec.Start.{Host}
use wasmer_js.Scheduler.Execute.{State, execute}

abbrev pub is_close : SchedulerMessage → Bool
is_close close = true
is_close _ = false

module _ (posts : ℕ → PostMessagePayload → Bool) (starts : ℕ → Bool) (host : Host) where
  -- The inner loop: what is left in the channel when `Close` is received, without another `Close`.
  unfoldable pub drain : State → List SchedulerMessage → State
  drain s [] = s
  drain s (msg ∷ rest) =
      let skipped = drain s rest in
      let handled = drain (execute posts starts host s msg).1 rest in
      if is_close msg then skipped else handled

  -- The messages in the channel are received in order; the flag says whether the task has ended.
  unfoldable pub receive : State → List SchedulerMessage → Bool × State
  receive s [] = (false, s)
  receive s (msg ∷ rest) =
      let drained = drain s rest in
      let later = receive (execute posts starts host s msg).1 rest in
      if is_close msg then (true, drained) else later

  -- All messages of a list are executed in order.
  unfoldable pub execute_all : State → List SchedulerMessage → State
  execute_all s [] = s
  execute_all s (msg ∷ rest) = execute_all (execute posts starts host s msg).1 rest

-- The messages but those to close, and whether there is one to close.
unfoldable pub without_close : List SchedulerMessage → List SchedulerMessage
without_close [] = []
without_close (msg ∷ rest) =
    let kept = without_close rest in if is_close msg then kept else msg ∷ kept

unfoldable pub closes : List SchedulerMessage → Bool
closes [] = false
closes (msg ∷ rest) = is_close msg || closes rest

module _ (posts : ℕ → PostMessagePayload → Bool) (starts : ℕ → Bool) (host : Host) where
  drain_lem :
      (s : State) (msgs : List SchedulerMessage)
      → drain posts starts host s msgs ≡ execute_all posts starts host s (without_close msgs)
  unfolding drain execute_all without_close
  drain_lem s [] = refl
  drain_lem s (msg ∷ rest) =
      go (is_close msg) (drain_lem s rest) (drain_lem (execute posts starts host s msg).1 rest)
    where
      go :
          (b : Bool)
          → drain posts starts host s rest ≡ execute_all posts starts host s (without_close rest)
          → drain posts starts host (execute posts starts host s msg).1 rest
            ≡ execute_all posts starts host (execute posts starts host s msg).1 (without_close rest)
          → (if b
              then drain posts starts host s rest
              else drain posts starts host (execute posts starts host s msg).1 rest)
            ≡ execute_all posts starts host s
                (if b then without_close rest else msg ∷ without_close rest)
      go true h k = h
      go false h k = k

  -- Whatever stands in the channel, and wherever a `Close` stands among it: every other message is
  -- executed, in order and once, and the task ends exactly if there is a `Close`. None of the
  -- messages behind a `Close` is lost.
  pub receive_lem :
      (s : State) (msgs : List SchedulerMessage)
      → receive posts starts host s msgs
        ≡ (closes msgs, execute_all posts starts host s (without_close msgs))
  unfolding receive execute_all without_close closes
  receive_lem s [] = refl
  receive_lem s (msg ∷ rest) =
      go (is_close msg) (drain_lem s rest) (receive_lem (execute posts starts host s msg).1 rest)
    where
      go :
          (b : Bool)
          → drain posts starts host s rest ≡ execute_all posts starts host s (without_close rest)
          → receive posts starts host (execute posts starts host s msg).1 rest ≡ (
            closes rest,
            execute_all posts starts host (execute posts starts host s msg).1 (without_close rest),
          )
          → (if b
              then (true, drain posts starts host s rest)
              else receive posts starts host (execute posts starts host s msg).1 rest)
            ≡ (
              b || closes rest,
              execute_all posts starts host s
                  (if b then without_close rest else msg ∷ without_close rest),
            )
      go true h k = ap (λ t. (true, t)) h
      go false h k = k
