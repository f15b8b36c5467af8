-- ===== src/Worker/Overlap/Marks.antt =====
-- The marks that tell the scheduler whether a worker is busy.
use wasmer_js.Prelude.{
  ℕ, zero, suc, ◌+◌, ◌≡◌, refl, ap, ◌∙◌, List, [], ◌∷◌, ◌++◌, Option, none, some, arith,
  Option-cases, inl, inr,
}
use wasmer_js.Message.{
  PostMessagePayload, async, blocking, cache_module, host_exec_start_response,
  host_exec_read_response, thunk, spawn_with_module, spawn_with_module_and_memory,
}
use wasmer_js.Message.Object.{◌>>=◌}
use wasmer_js.Message.Convert.{Texts}
use wasmer_js.Message.Payload.{try_from_js}
use wasmer_js.Message.Worker.{mark_busy, mark_idle}
use wasmer_js.Worker.{
  Action, ran_async, ran_blocking, ran_with_module, began, executed, emitted, World, act, busy,
  reconnect,
}
use wasmer_js.Worker.Overlap.{
  Task, running_async, beginning, executing, State, begin_payload, resume, take_task, behind, Event,
  arrived, resumed, step, run,
}

-- By how much the marks busy are more than the marks idle, after an action; `none` for what must not
-- be: more marks idle than busy, another mark, and a job that blocks where they are as many.
abbrev pub after : ℕ → Action → Option ℕ
after n (emitted mark_busy) = some (suc n)
after (suc n) (emitted mark_idle) = some n
after _ (emitted _) = none
after n (ran_async task) = some n
after n (began spawn) = some n
after (suc n) (ran_blocking task) = some (suc n)
after (suc n) (ran_with_module wasm task) = some (suc n)
after (suc n) (executed spawn wasm memory) = some (suc n)
after zero (ran_blocking task) = none
after zero (ran_with_module wasm task) = none
after zero (executed spawn wasm memory) = none

unfoldable pub after_all : ℕ → List Action → Option ℕ
after_all n [] = some n
after_all n (a ∷ rest) = after n a >>= λ now. after_all now rest

after_all-append :
    (n : ℕ) (xs ys : List Action)
    → after_all n (xs ++ ys) ≡ (after_all n xs >>= λ now. after_all now ys)
unfolding after_all
after_all-append n [] ys = refl
after_all-append n (x ∷ xs) ys = go (after n x) (λ k. after_all-append k xs ys)
  where
    go :
        (o : Option ℕ)
        → ((k : ℕ) → after_all k (xs ++ ys) ≡ (after_all k xs >>= λ now. after_all now ys))
        → (o >>= λ now. after_all now (xs ++ ys))
          ≡ ((o >>= λ now. after_all now xs) >>= λ now. after_all now ys)
    go none ih = refl
    go (some k) ih = ih k

-- How many calls execute something.
abbrev pub executions : List Task → ℕ
executions [] = 0
executions (executing spawn ∷ rest) = suc (executions rest)
executions (running_async task ∷ rest) = executions rest
executions (beginning spawn wasm memory ∷ rest) = executions rest

abbrev pub one : Task → ℕ
one (executing spawn) = 1
one (running_async task) = 0
one (beginning spawn wasm memory) = 0

executions-cons :
    (task : Task) (tasks : List Task) → executions (task ∷ tasks) ≡ one task + executions tasks
executions-cons (executing spawn) tasks = omega arith
executions-cons (running_async task) tasks = omega arith
executions-cons (beginning spawn wasm memory) tasks = omega arith

executions-append :
    (tasks : List Task) (task : Task)
    → executions (tasks ++ (task ∷ [])) ≡ executions tasks + one task
executions-append [] task = omega (arith, executions-cons task [])
executions-append (x ∷ rest) task = omega (
  arith,
  executions-append rest task,
  executions-cons x rest,
  executions-cons x (rest ++ (task ∷ [])),
)

abbrev total : Option (Task × List Task) → ℕ
total none = 0
total (some (task, others)) = one task + executions others

executions-take_task :
    (n : ℕ) (tasks : List Task) {task : Task} {others : List Task}
    → take_task n tasks ≡ some (task, others)
    → executions tasks ≡ one task + executions others
unfolding take_task
executions-take_task n [] h = cc
executions-take_task zero (x ∷ rest) h = executions-cons x rest ∙ ap total h
executions-take_task (suc n) (x ∷ rest) {task} {others} h =
    go (take_task n rest) (λ found left e. executions-take_task n rest e) h
  where
    go :
        (o : Option (Task × List Task))
        → ((found : Task) (left : List Task)
            → o ≡ some (found, left)
            → executions rest ≡ one found + executions left)
        → behind x o ≡ some (task, others)
        → executions (x ∷ rest) ≡ one task + executions others
    go none ih e = cc
    go (some (found, left)) ih e =
        omega
          (arith, executions-cons x rest, executions-cons x left, ih found left refl, ap total e)

-- The marks are in order so far, and the worker is marked busy once more than idle for each call that
-- executes something.
abbrev pub IsMarked : State → Type 0
IsMarked s = after_all 0 s.world.actions ≡ some (executions s.tasks)

act-after :
    (w : World) (done : List Action) (n k : ℕ)
    → after_all 0 w.actions ≡ some n
    → after_all n done ≡ some k
    → after_all 0 (act w done).actions ≡ some k
act-after w done n k h e =
    after_all-append 0 w.actions done ∙ ap (λ o. o >>= λ now. after_all now done) h ∙ e

begin_payload-IsMarked :
    (s : State) (msg : Option PostMessagePayload) → IsMarked s → IsMarked (begin_payload s msg)
unfolding begin_payload reconnect
begin_payload-IsMarked s none h = h
begin_payload-IsMarked s (some (async task)) h =
    act-after s.world (ran_async task ∷ []) (executions s.tasks)
      (executions (s.tasks ++ (running_async task ∷ []))) h
      (unfold after_all in ap some (omega (arith, executions-append s.tasks (running_async task))))
begin_payload-IsMarked s (some (blocking (thunk task))) h =
    act-after s.world (busy (ran_blocking task ∷ [])) (executions s.tasks) (executions s.tasks) h
      (unfold after_all in refl)
begin_payload-IsMarked s (some (blocking (spawn_with_module wasm task))) h =
    act-after s.world (busy (ran_with_module wasm task ∷ [])) (executions s.tasks)
      (executions s.tasks) h (unfold after_all in refl)
begin_payload-IsMarked s
      (some (blocking (spawn_with_module_and_memory wasm memory spawn stdio fork_pipes))) h =
    h ∙ ap some (omega (arith, executions-append s.tasks (beginning spawn wasm memory)))
begin_payload-IsMarked s (some (cache_module hash wasm)) h = h
begin_payload-IsMarked s (some (host_exec_start_response request result)) h = h
begin_payload-IsMarked s (some (host_exec_read_response request result)) h = h

resume-IsMarked :
    (w : World) (others : List Task) (task : Task)
    → after_all 0 w.actions ≡ some (one task + executions others)
    → IsMarked (resume w others task)
unfolding resume
resume-IsMarked w others (running_async task) h = h ∙ ap some (omega arith)
resume-IsMarked w others (beginning spawn wasm memory) h =
    act-after w (began spawn ∷ emitted mark_busy ∷ executed spawn wasm memory ∷ [])
      (executions others) (suc (executions others)) (h ∙ ap some (omega arith))
      (unfold after_all in refl)
resume-IsMarked w others (executing spawn) h =
    act-after w (emitted mark_idle ∷ []) (suc (executions others)) (executions others)
      (h ∙ ap some (omega arith)) (unfold after_all in refl)

step-IsMarked : (t : Texts) (s : State) (event : Event) → IsMarked s → IsMarked (step t s event)
unfolding step
step-IsMarked t s (arrived o) h = begin_payload-IsMarked s (try_from_js t o) h
step-IsMarked t s (resumed n) h = elim (Option-cases (take_task n s.tasks)) [
  | inl e ↦ rw e h
  | inr ((task, others), e) ↦
      rw e (resume-IsMarked s.world others task (h ∙ ap some (executions-take_task n s.tasks e)))
]

-- Whatever objects a worker is sent, also ones that it does not understand, and however the handling of
-- some goes on while that of others awaits something: its marks busy are always ahead of its marks
-- idle by the number of the spawns that it executes, and every job that may block begins while they
-- are ahead; so that they are as many again when nothing is executed, if they were so before.
pub run-IsMarked :
    (t : Texts) (s : State) (events : List Event) → IsMarked s → IsMarked (run t s events)
unfolding run
run-IsMarked t s [] h = h
run-IsMarked t s (event ∷ events) h =
    run-IsMarked t (step t s event) events (step-IsMarked t s event h)
