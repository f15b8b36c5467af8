-- ===== src/Scheduler/Ids.antt =====
-- The identities of the workers.
pub mod Post
pub mod Cached
use wasmer_js.Prelude.{
  ℕ, ◌+◌, ◌≤◌, ◌<◌, ◌≡◌, refl, ap, List, [], ◌∷◌, ◌++◌, Option, none, some, Bool, true, false, ◌==◌,
  if◌then◌else◌, arith,
}
use wasmer_js.Memory.{word_mod}
use wasmer_js.Message.{PostMessagePayload, would_block, cache_module}
use wasmer_js.Scheduler.{
  WorkerHandle, SchedulerState, keep, remove_worker, move_to, move_worker, worker_busy, worker_idle,
  and_then, sent, send, prime, start_worker, next_available_worker, file_worker, send_to,
  post_message, send_all, cache, insert_module,
}

-- How many workers of a queue have an id.
abbrev pub count : ℕ → List WorkerHandle → ℕ
count i [] = 0
count i (w ∷ ws) = (if w.id == i then 1 else 0) + count i ws

pub count-append :
    (i : ℕ) (xs ys : List WorkerHandle) → count i (xs ++ ys) ≡ count i xs + count i ys
count-append i [] ys = omega arith
count-append i (x ∷ xs) ys = omega (arith, count-append i xs ys)

abbrev pub workers_with : SchedulerState → ℕ → ℕ
workers_with s i = count i s.idle + count i s.busy

-- No two workers have the same id, and the ids given out are below the counter, which has not yet
-- wrapped round.
abbrev pub IsUnique : SchedulerState → Type 0
IsUnique s = ((i : ℕ) → workers_with s i ≤ 1) × ((i : ℕ) → s.next_id ≤ i → workers_with s i ≡ 0)

abbrev taken : ℕ → Option (WorkerHandle × List WorkerHandle) → List WorkerHandle → ℕ
taken i none ws = count i ws
taken i (some (w, rest)) ws = (if w.id == i then 1 else 0) + count i rest

taken-keep :
    (i : ℕ) (b : Bool) (w : WorkerHandle) (ws : List WorkerHandle)
    (r : Option (WorkerHandle × List WorkerHandle))
    → taken i r ws ≡ count i ws
    → taken i (if b then some (w, ws) else keep w r) (w ∷ ws) ≡ count i (w ∷ ws)
taken-keep i true w ws r h = refl
taken-keep i false w ws none h = refl
taken-keep i false w ws (some (v, vs)) h = omega (arith, h)

taken-remove_worker :
    (i id : ℕ) (ws : List WorkerHandle) → taken i (remove_worker id ws) ws ≡ count i ws
unfolding remove_worker
taken-remove_worker i id [] = refl
taken-remove_worker i id (w ∷ ws) =
    taken-keep i (w.id == id) w ws (remove_worker id ws) (taken-remove_worker i id ws)

-- A move from one queue to another loses no worker and makes none.
pub count-move_worker :
    (i id : ℕ) (from to : List WorkerHandle)
    → count i (move_worker id from to).0 + count i (move_worker id from to).1
      ≡ count i from + count i to
count-move_worker i id from to = go (remove_worker id from) (taken-remove_worker i id from)
  where
    go :
        (r : Option (WorkerHandle × List WorkerHandle))
        → taken i r from ≡ count i from
        → count i (move_to r from to).0 + count i (move_to r from to).1 ≡ count i from + count i to
    go none h = unfold move_to in refl
    go (some (w, rest)) h = unfold move_to in omega (arith, h, count-append i to (w ∷ []))

-- What is known of the counts of all ids when the counter stands at `n`.
abbrev pub AreBelow : (ℕ → ℕ) → ℕ → Type 0
AreBelow f n = ((i : ℕ) → f i ≤ 1) × ((i : ℕ) → n ≤ i → f i ≡ 0)

fewer : (f g : ℕ → ℕ) (n : ℕ) → ((i : ℕ) → g i ≤ f i) → AreBelow f n → AreBelow g n
fewer f g n h (one, none_yet) =
    (λ i. omega (arith, h i, one i), λ i l. omega (arith, h i, none_yet i l))

abbrev pub held : ℕ → Option WorkerHandle → ℕ
held i none = 0
held i (some w) = if w.id == i then 1 else 0

pub count-worker_busy :
    (s : SchedulerState) (id i : ℕ) → workers_with (worker_busy s id) i ≡ workers_with s i
unfolding worker_busy
count-worker_busy s id i = count-move_worker i id s.idle s.busy

pub count-worker_idle :
    (s : SchedulerState) (id i : ℕ) → workers_with (worker_idle s id) i ≡ workers_with s i
unfolding worker_idle
count-worker_idle s id i = omega (arith, count-move_worker i id s.busy s.idle)
