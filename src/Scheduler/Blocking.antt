-- ===== src/Scheduler/Blocking.antt =====
-- Where a job that blocks its worker goes.
use wasmer_js.Prelude.{
  ℕ, ◌+◌, ◌<◌, ◌≡◌, refl, sym, ap, ◌∙◌, List, [], ◌∷◌, ◌++◌, Option, none, some, Bool, true, false,
  arith, if◌then◌else◌, append_assoc, append-nil,
}
use wasmer_js.Memory.{word_mod}
use wasmer_js.Message.{PostMessagePayload, would_block, cache_module}
use wasmer_js.Scheduler.{
  WorkerHandle, SchedulerState, next_available_worker, start_worker, prime, send, file_worker,
  send_to, post_message, and_then,
}
use wasmer_js.Scheduler.Ids.{count, count-append, workers_with, IsUnique, AreBelow, held}
use wasmer_js.Scheduler.Ids.Post.{next_available_worker-AreBelow}

-- A worker that has been told something more.
abbrev pub told : WorkerHandle → List PostMessagePayload → WorkerHandle
told w msgs = record w { inbox = w.inbox ++ msgs }

abbrev pub modules_of : List (ℕ × ℕ) → List PostMessagePayload
modules_of [] = []
modules_of ((hash, wasm) ∷ rest) = cache_module hash wasm ∷ modules_of rest

-- The worker for a job: the first idle one, or, where none is idle, a new one, which has the next id
-- and was told of the cached modules.
abbrev pub IsChosen : SchedulerState → List WorkerHandle → WorkerHandle → Type 0
IsChosen s [] w = (w.id ≡ s.next_id) × (w.inbox ≡ modules_of s.cached_modules)
IsChosen s (v ∷ rest) w = v ≡ w

-- What a posted job makes of the workers: the chosen one, which was not busy, has the job as its last
-- message, and stands once, among the busy ones, which are as they were but for it.
abbrev pub IsGiven : SchedulerState → PostMessagePayload → SchedulerState → WorkerHandle → Type 0
IsGiven s msg s' w =
    IsChosen s s.idle w
    × (count w.id s.busy ≡ 0)
    × (s'.busy ≡ s.busy ++ (told w (msg ∷ []) ∷ []))
    × (count w.id s'.busy ≡ 1)
    × (count w.id s'.idle ≡ 0)

module _ (posts : ℕ → PostMessagePayload → Bool) (starts : ℕ → Bool) where
  prime-told :
      (w : WorkerHandle) (ms : List (ℕ × ℕ)) {v : WorkerHandle}
      → prime posts starts w ms ≡ some v
      → (v.id ≡ w.id) × (v.inbox ≡ w.inbox ++ modules_of ms)
  unfolding prime send
  prime-told w [] {v} h =
      let e : w ≡ v = cc in
      (
        ap (λ (u : WorkerHandle). u.id) (sym e),
        ap (λ (u : WorkerHandle). u.inbox) (sym e) ∙ sym (append-nil w.inbox),
      )
  prime-told w ((hash, wasm) ∷ rest) {v} h =
      go (posts w.id (cache_module hash wasm)) h
        (λ e. prime-told (told w (cache_module hash wasm ∷ [])) rest e)
    where
      go :
          (b : Bool)
          → and_then
              (if b then some (told w (cache_module hash wasm ∷ [])) else none)
              (λ u. prime posts starts u rest)
            ≡ some v
          → (prime posts starts (told w (cache_module hash wasm ∷ [])) rest ≡ some v
              → (v.id ≡ w.id)
                × (v.inbox ≡ (w.inbox ++ (cache_module hash wasm ∷ [])) ++ modules_of rest))
          → (v.id ≡ w.id) × (v.inbox ≡ w.inbox ++ modules_of ((hash, wasm) ∷ rest))
      go true e ih =
          let (i, l) = ih e in
          (i, l ∙ append_assoc w.inbox (cache_module hash wasm ∷ []) (modules_of rest))
      go false e ih = cc

  next_available_worker-IsChosen :
      (s : SchedulerState) (ws : List WorkerHandle) (w : WorkerHandle)
      → (next_available_worker posts starts s ws).0 ≡ some w
      → IsChosen s ws w
  unfolding next_available_worker start_worker
  next_available_worker-IsChosen s [] w h = go (starts s.next_id) h
    where
      go :
          (b : Bool)
          → (if b
              then prime posts starts
                  (record { id = s.next_id; inbox = []; host_exec_buffer = λ a. 0 })
                  s.cached_modules
              else none)
            ≡ some w
          → IsChosen s [] w
      go true e =
          prime-told (record { id = s.next_id; inbox = []; host_exec_buffer = λ a. 0 })
            s.cached_modules e
      go false e = cc
  next_available_worker-IsChosen s (v ∷ rest) w h = cc

  busy-next_available_worker :
      (s : SchedulerState) (ws : List WorkerHandle)
      → (next_available_worker posts starts s ws).1.busy ≡ s.busy
  unfolding next_available_worker start_worker
  busy-next_available_worker s [] = refl
  busy-next_available_worker s (w ∷ ws) = refl

  -- Where no two workers have the same id, all ids are below the counter, and the counter does not
  -- wrap round: a job that blocks and is posted without an error becomes the last message of a worker
  -- that was not busy, the first idle one or, where none is idle, a new one that was told of the
  -- cached modules; and this worker then stands once among the busy ones, which are otherwise as they
  -- were, and is not idle.
  pub post_message_blocking :
      (s : SchedulerState) (msg : PostMessagePayload)
      → IsUnique s
      → s.next_id + 1 < word_mod
      → would_block msg ≡ true
      → (post_message posts starts s msg).0 ≡ true
      → (w : WorkerHandle) × IsGiven s msg (post_message posts starts s msg).1 w
  unfolding post_message
  post_message_blocking s msg h small blocks fine =
      go (next_available_worker posts starts s s.idle) (would_block msg) blocks
        (next_available_worker-IsChosen s s.idle)
        (next_available_worker-AreBelow posts starts s h small)
        (busy-next_available_worker s s.idle) fine
    where
      given :
          (w : WorkerHandle) (s' : SchedulerState) (accepts : Bool)
          → IsChosen s s.idle w
          → AreBelow (λ i. held i (some w) + workers_with s' i) s'.next_id
          → s'.busy ≡ s.busy
          → let sent : Option WorkerHandle = if accepts then some (told w (msg ∷ [])) else none in
            let t : Bool × SchedulerState = file_worker posts starts s' true sent in
            t.0 ≡ true → (v : WorkerHandle) × IsGiven s msg t.1 v
      given w s' true c b e =
          unfold file_worker in
          λ f. (
            w,
            (
              c,
              ground (arith, b.0 w.id, ap (count w.id) e),
              ap (λ q. q ++ (told w (msg ∷ []) ∷ [])) e,
              ground (arith, b.0 w.id, count-append w.id s'.busy (told w (msg ∷ []) ∷ [])),
              ground (arith, b.0 w.id),
            ),
          )
      given w s' false c b e = unfold file_worker in λ f. absurd (ground (arith, f))

      go :
          (r : Option WorkerHandle × SchedulerState) (b : Bool)
          → b ≡ true
          → ((w : WorkerHandle) → r.0 ≡ some w → IsChosen s s.idle w)
          → AreBelow (λ i. held i r.0 + workers_with r.1 i) r.1.next_id
          → r.1.busy ≡ s.busy
          → let t = file_worker posts starts r.1 b (send_to posts starts r.0 msg) in
            t.0 ≡ true → (w : WorkerHandle) × IsGiven s msg t.1 w
      go (none, s') b e c a k = unfold file_worker in λ f. absurd (ground (arith, f))
      go (some w, s') true e c a k = unfold send in given w s' (posts w.id msg) (c w refl) a k
      go (some w, s') false e c a k = absurd (ground (arith, e))
