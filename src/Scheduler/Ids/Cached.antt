-- ===== src/Scheduler/Ids/Cached.antt =====
-- The identities of the workers when a module is cached.
use wasmer_js.Prelude.{
  ℕ, ◌≡◌, refl, List, [], ◌∷◌, ◌++◌, none, some, Bool, true, false, if◌then◌else◌, arith,
}
use wasmer_js.Message.{PostMessagePayload, cache_module}
use wasmer_js.Scheduler.{WorkerHandle, SchedulerState, sent, send, send_all, cache, insert_module}
use wasmer_js.Scheduler.Ids.{count, workers_with}

module _ (posts : ℕ → PostMessagePayload → Bool) (starts : ℕ → Bool) where
  count-sent :
      (w : WorkerHandle) (ws : List WorkerHandle) (msg : PostMessagePayload)
      (others : Bool × List WorkerHandle) (i : ℕ)
      → count i others.1 ≡ count i ws
      → count i (sent w ws (send posts starts w msg) others).1 ≡ count i (w ∷ ws)
  count-sent w ws msg (fine, vs) i h = unfold send in go (posts w.id msg)
    where
      go :
          (b : Bool)
          → count i
              (sent w ws
                (if b then some (record w { inbox = w.inbox ++ (msg ∷ []) }) else none)
                (fine, vs)).1
            ≡ count i (w ∷ ws)
      go true = omega (arith, h)
      go false = refl

  pub count-send_all :
      (ws : List WorkerHandle) (msg : PostMessagePayload) (i : ℕ)
      → count i (send_all posts starts ws msg).1 ≡ count i ws
  unfolding send_all
  count-send_all [] msg i = refl
  count-send_all (w ∷ ws) msg i =
      count-sent w ws msg (send_all posts starts ws msg) i (count-send_all ws msg i)

  -- To cache a module loses no worker and makes none, even where a worker does not take the message.
  pub count-cache :
      (s : SchedulerState) (hash wasm i : ℕ)
      → workers_with (cache posts starts s hash wasm).1 i ≡ workers_with s i
  count-cache s hash wasm i =
      unfold cache in
      go (send_all posts starts s.idle (cache_module hash wasm))
        (send_all posts starts s.busy (cache_module hash wasm))
        (count-send_all s.idle (cache_module hash wasm) i)
        (count-send_all s.busy (cache_module hash wasm) i)
    where
      s' : SchedulerState
      s' = record s { cached_modules = insert_module s.cached_modules hash wasm }

      go :
          (a b : Bool × List WorkerHandle)
          → count i a.1 ≡ count i s.idle
          → count i b.1 ≡ count i s.busy
          → let r : Bool × SchedulerState =
              if a.0
              then (b.0, record s' { idle = a.1; busy = b.1 })
              else (false, record s' { idle = a.1 }) in
            workers_with r.1 i ≡ workers_with s i
      go (true, a) b h k = omega (arith, h, k)
      go (false, a) b h k = omega (arith, h)

  pub next_id-cache :
      (s : SchedulerState) (hash wasm : ℕ) → (cache posts starts s hash wasm).1.next_id ≡ s.next_id
  next_id-cache s hash wasm =
      unfold cache in
      go (send_all posts starts s.idle (cache_module hash wasm))
        (send_all posts starts s.busy (cache_module hash wasm))
    where
      s' : SchedulerState
      s' = record s { cached_modules = insert_module s.cached_modules hash wasm }

      go :
          (a b : Bool × List WorkerHandle)
          → let r : Bool × SchedulerState =
              if a.0
              then (b.0, record s' { idle = a.1; busy = b.1 })
              else (false, record s' { idle = a.1 }) in
            r.1.next_id ≡ s.next_id
      go (true, a) b = refl
      go (false, a) b = refl
