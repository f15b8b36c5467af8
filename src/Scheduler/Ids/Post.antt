-- ===== src/Scheduler/Ids/Post.antt =====
-- The identities of the workers when a message is posted.
use wasmer_js.Prelude.{
  ℕ, ◌+◌, ◌≤◌, ◌<◌, ◌≡◌, refl, ap, List, [], ◌∷◌, ◌++◌, Option, none, some, Bool, true, false, ◌==◌,
  if◌then◌else◌, arith,
}
use wasmer_js.Memory.{word_mod}
use wasmer_js.Message.{PostMessagePayload, would_block, cache_module}
use wasmer_js.Scheduler.{
  WorkerHandle, SchedulerState, and_then, send, prime, start_worker, next_available_worker,
  file_worker, send_to, post_message,
}
use wasmer_js.Scheduler.Ids.{count, count-append, workers_with, IsUnique, AreBelow, held}

module _ (posts : ℕ → PostMessagePayload → Bool) (starts : ℕ → Bool) where
  pub held-send :
      (w : WorkerHandle) (msg : PostMessagePayload) (i : ℕ)
      → held i (send posts starts w msg) ≤ held i (some w)
  held-send w msg i = unfold send in go (posts w.id msg)
    where
      go :
          (b : Bool)
          → held i (if b then some (record w { inbox = w.inbox ++ (msg ∷ []) }) else none)
            ≤ held i (some w)
      go true = omega arith
      go false = omega arith

  held-and_then :
      (w : WorkerHandle) (o : Option WorkerHandle) (f : WorkerHandle → Option WorkerHandle) (i : ℕ)
      → held i o ≤ held i (some w)
      → ((v : WorkerHandle) → held i (f v) ≤ held i (some v))
      → held i (and_then o f) ≤ held i (some w)
  held-and_then w none f i h k = omega arith
  held-and_then w (some v) f i h k = omega (arith, h, k v)

  held-prime :
      (w : WorkerHandle) (ms : List (ℕ × ℕ)) (i : ℕ)
      → held i (prime posts starts w ms) ≤ held i (some w)
  unfolding prime
  held-prime w [] i = omega arith
  held-prime w ((hash, wasm) ∷ rest) i =
      held-and_then w (send posts starts w (cache_module hash wasm))
        (λ v. prime posts starts v rest) i (held-send w (cache_module hash wasm) i)
        (λ v. held-prime v rest i)

  held-start_worker :
      (s : SchedulerState) (i : ℕ)
      → held i (start_worker posts starts s).0 ≤ (if s.next_id == i then 1 else 0)
  held-start_worker s i = unfold start_worker in go (starts s.next_id)
    where
      go :
          (b : Bool)
          → held i (
              if b
              then prime posts starts
                  (record { id = s.next_id; inbox = []; host_exec_buffer = λ a. 0 })
                  s.cached_modules
              else none)
            ≤ (if s.next_id == i then 1 else 0)
      go true =
          held-prime (record { id = s.next_id; inbox = []; host_exec_buffer = λ a. 0 })
            s.cached_modules i
      go false = omega arith

  after_start :
      (s : SchedulerState)
      → s.next_id + 1 < word_mod
      → (i : ℕ)
      → (workers_with (start_worker posts starts s).1 i ≡ workers_with s i)
        × ((start_worker posts starts s).1.next_id ≡ s.next_id + 1)
  after_start s small i = unfold start_worker in (refl, omega arith)

  -- The worker that is taken and those that stay.
  pub next_available_worker-AreBelow :
      (s : SchedulerState)
      → IsUnique s
      → s.next_id + 1 < word_mod
      → let r = next_available_worker posts starts s s.idle in
        AreBelow (λ i. held i r.0 + workers_with r.1 i) r.1.next_id
  next_available_worker-AreBelow s (one, none_yet) small = go s.idle refl
    where
      go :
          (ws : List WorkerHandle)
          → s.idle ≡ ws
          → let r = next_available_worker posts starts s ws in
            AreBelow (λ i. held i r.0 + workers_with r.1 i) r.1.next_id
      go [] e =
          unfold next_available_worker in
          (
            λ i.
                ground (arith, held-start_worker s i, one i, none_yet i, (after_start s small i).0),
            λ i l. ground (arith, held-start_worker s i, none_yet i, after_start s small i),
          )
      go (w ∷ ws) e =
          unfold next_available_worker in
          (
            λ i. omega (arith, one i, ap (count i) e),
            λ i l. omega (arith, none_yet i l, ap (count i) e),
          )

  pub count-file_worker :
      (s : SchedulerState) (b : Bool) (o : Option WorkerHandle) (i : ℕ)
      → workers_with (file_worker posts starts s b o).1 i ≡ workers_with s i + held i o
  unfolding file_worker
  count-file_worker s b none i = omega arith
  count-file_worker s true (some w) i = omega (arith, count-append i s.busy (w ∷ []))
  count-file_worker s false (some w) i = omega (arith, count-append i s.idle (w ∷ []))

  pub held-send_to :
      (o : Option WorkerHandle) (msg : PostMessagePayload) (i : ℕ)
      → held i (send_to posts starts o msg) ≤ held i o
  held-send_to none msg i = omega arith
  held-send_to (some w) msg i = held-send w msg i

  pub next_id-file_worker :
      (s : SchedulerState) (b : Bool) (o : Option WorkerHandle)
      → (file_worker posts starts s b o).1.next_id ≡ s.next_id
  unfolding file_worker
  next_id-file_worker s b none = refl
  next_id-file_worker s true (some w) = refl
  next_id-file_worker s false (some w) = refl

  -- A message that is posted goes to a worker whose id no other worker has, whether a new worker is
  -- started for it or not, and whatever of this fails.
  pub post_message-IsUnique :
      (s : SchedulerState) (msg : PostMessagePayload)
      → IsUnique s
      → s.next_id + 1 < word_mod
      → IsUnique (post_message posts starts s msg).1
  post_message-IsUnique s msg h small =
      unfold post_message in
      go (next_available_worker posts starts s s.idle) (next_available_worker-AreBelow s h small)
    where
      go :
          (r : Option WorkerHandle × SchedulerState)
          → AreBelow (λ i. held i r.0 + workers_with r.1 i) r.1.next_id
          → IsUnique
              (file_worker posts starts r.1 (would_block msg) (send_to posts starts r.0 msg)).1
      go (o, s') (one, none_yet) = (
        λ i. omega (
          arith,
          one i,
          held-send_to o msg i,
          count-file_worker s' (would_block msg) (send_to posts starts o msg) i,
        ),
        λ i l. omega (
          arith,
          none_yet i,
          l,
          next_id-file_worker s' (would_block msg) (send_to posts starts o msg),
          held-send_to o msg i,
          count-file_worker s' (would_block msg) (send_to posts starts o msg) i,
        ),
      )
