-- ===== src/Scheduler/Modules.antt =====
-- The modules that the workers know.
use wasmer_js.Prelude.{
  ℕ, ◌+◌, ◌≤◌, ◌≡◌, refl, List, [], ◌∷◌, ◌++◌, Option, none, some, Bool, true, false, ◌==◌, ◌&&◌,
  if◌then◌else◌, arith, ◌⊎◌, inl, inr, Bool-cases,
}
use wasmer_js.Message.{PostMessagePayload, would_block, cache_module}
use wasmer_js.Scheduler.{
  WorkerHandle, SchedulerState, and_then, sent, send, prime, start_worker, next_available_worker,
  file_worker, send_to, post_message, send_all, cache, insert_module,
}

-- How often a module stands in the cache, and how often a worker was told of it.
abbrev pub cached : ℕ → ℕ → List (ℕ × ℕ) → ℕ
cached hash wasm [] = 0
cached hash wasm ((h, m) ∷ rest) = (if h == hash && m == wasm then 1 else 0) + cached hash wasm rest

abbrev pub announces : ℕ → ℕ → PostMessagePayload → ℕ
announces hash wasm (cache_module h m) = if h == hash && m == wasm then 1 else 0
announces hash wasm _ = 0

abbrev pub announced : ℕ → ℕ → List PostMessagePayload → ℕ
announced hash wasm [] = 0
announced hash wasm (p ∷ ps) = announces hash wasm p + announced hash wasm ps

announced-append :
    (hash wasm : ℕ) (xs ys : List PostMessagePayload)
    → announced hash wasm (xs ++ ys) ≡ announced hash wasm xs + announced hash wasm ys
announced-append hash wasm [] ys = omega arith
announced-append hash wasm (x ∷ xs) ys = omega (arith, announced-append hash wasm xs ys)

abbrev pub AllKnow : ℕ → ℕ → List WorkerHandle → Type 0
AllKnow hash wasm [] = Unit
AllKnow hash wasm (w ∷ ws) = (1 ≤ announced hash wasm w.inbox) × AllKnow hash wasm ws

-- Every worker was told of every module in the cache.
abbrev pub IsPrimed : SchedulerState → Type 0
IsPrimed s =
    (hash wasm : ℕ)
    → 1 ≤ cached hash wasm s.cached_modules
    → AllKnow hash wasm s.idle × AllKnow hash wasm s.busy

AllKnow-append :
    (hash wasm : ℕ) (xs : List WorkerHandle) (w : WorkerHandle)
    → AllKnow hash wasm xs
    → 1 ≤ announced hash wasm w.inbox
    → AllKnow hash wasm (xs ++ (w ∷ []))
AllKnow-append hash wasm [] w h k = (k, tt)
AllKnow-append hash wasm (x ∷ xs) w (h, hs) k = (h, AllKnow-append hash wasm xs w hs k)

cached-insert_module :
    (hash wasm h m : ℕ) (ms : List (ℕ × ℕ))
    → cached hash wasm (insert_module ms h m)
      ≤ cached hash wasm ms + (if h == hash && m == wasm then 1 else 0)
unfolding insert_module
cached-insert_module hash wasm h m [] = omega arith
cached-insert_module hash wasm h m ((h', m') ∷ ms) =
    ground (arith, cached-insert_module hash wasm h m ms)

module _ (posts : ℕ → PostMessagePayload → Bool) (starts : ℕ → Bool) where
  -- What a worker knows after a message was sent to it.
  abbrev Knew : ℕ → ℕ → ℕ → Option WorkerHandle → Type 0
  Knew hash wasm n none = Unit
  Knew hash wasm n (some v) = n ≤ announced hash wasm v.inbox

  Knew-weaken :
      (hash wasm : ℕ) (o : Option WorkerHandle) (a b : ℕ)
      → a ≤ b
      → Knew hash wasm b o
      → Knew hash wasm a o
  Knew-weaken hash wasm none a b h k = tt
  Knew-weaken hash wasm (some v) a b h k = omega (arith, h, k)

  send-Knew :
      (hash wasm : ℕ) (w : WorkerHandle) (msg : PostMessagePayload)
      → Knew hash wasm
          (announced hash wasm w.inbox + announces hash wasm msg)
          (send posts starts w msg)
  send-Knew hash wasm w msg = unfold send in go (posts w.id msg)
    where
      go :
          (b : Bool)
          → Knew hash wasm
              (announced hash wasm w.inbox + announces hash wasm msg)
              (if b then some (record w { inbox = w.inbox ++ (msg ∷ []) }) else none)
      go true = omega (arith, announced-append hash wasm w.inbox (msg ∷ []))
      go false = tt

  prime-Knew :
      (hash wasm : ℕ) (w : WorkerHandle) (ms : List (ℕ × ℕ))
      → Knew hash wasm (announced hash wasm w.inbox + cached hash wasm ms) (prime posts starts w ms)
  unfolding prime
  prime-Knew hash wasm w [] = omega arith
  prime-Knew hash wasm w ((h, m) ∷ rest) =
      go (send posts starts w (cache_module h m)) (send-Knew hash wasm w (cache_module h m))
        (λ v. prime-Knew hash wasm v rest)
    where
      go :
          (o : Option WorkerHandle)
          → Knew hash wasm (announced hash wasm w.inbox + announces hash wasm (cache_module h m)) o
          → ((v : WorkerHandle)
              → Knew hash wasm
                  (announced hash wasm v.inbox + cached hash wasm rest)
                  (prime posts starts v rest))
          → Knew hash wasm
              (announced hash wasm w.inbox + cached hash wasm ((h, m) ∷ rest))
              (and_then o (λ v. prime posts starts v rest))
      go none k f = tt
      go (some v) k f =
          Knew-weaken hash wasm (prime posts starts v rest)
            (announced hash wasm w.inbox + cached hash wasm ((h, m) ∷ rest))
            (announced hash wasm v.inbox + cached hash wasm rest) (omega (arith, k)) (f v)

  start_worker-Knew :
      (hash wasm : ℕ) (s : SchedulerState)
      → Knew hash wasm (cached hash wasm s.cached_modules) (start_worker posts starts s).0
  start_worker-Knew hash wasm s = unfold start_worker in go (starts s.next_id)
    where
      go :
          (b : Bool)
          → Knew hash wasm (cached hash wasm s.cached_modules) (
              if b
              then prime posts starts
                  (record { id = s.next_id; inbox = []; host_exec_buffer = λ a. 0 })
                  s.cached_modules
              else none)
      go true =
          Knew-weaken hash wasm
            (prime posts starts (record { id = s.next_id; inbox = []; host_exec_buffer = λ a. 0 })
              s.cached_modules)
            (cached hash wasm s.cached_modules) (0 + cached hash wasm s.cached_modules)
            (omega arith)
            (prime-Knew hash wasm (record { id = s.next_id; inbox = []; host_exec_buffer = λ a. 0 })
              s.cached_modules)
      go false = tt

  send_to-Knew :
      (hash wasm : ℕ) (o : Option WorkerHandle) (msg : PostMessagePayload)
      → Knew hash wasm 1 o
      → Knew hash wasm 1 (send_to posts starts o msg)
  send_to-Knew hash wasm none msg h = tt
  send_to-Knew hash wasm (some w) msg h =
      Knew-weaken hash wasm (send posts starts w msg) 1
        (announced hash wasm w.inbox + announces hash wasm msg) (omega (arith, h))
        (send-Knew hash wasm w msg)

  file_worker-IsPrimed :
      (s : SchedulerState) (b : Bool) (o : Option WorkerHandle)
      → IsPrimed s
      → ((hash wasm : ℕ) → 1 ≤ cached hash wasm s.cached_modules → Knew hash wasm 1 o)
      → IsPrimed (file_worker posts starts s b o).1
  unfolding file_worker
  file_worker-IsPrimed s b none h k = h
  file_worker-IsPrimed s true (some w) h k = λ hash wasm l.
      ((h hash wasm l).0, AllKnow-append hash wasm s.busy w (h hash wasm l).1 (k hash wasm l))
  file_worker-IsPrimed s false (some w) h k = λ hash wasm l.
      (AllKnow-append hash wasm s.idle w (h hash wasm l).0 (k hash wasm l), (h hash wasm l).1)

  -- If every worker was told of every cached module, then so it is once a message was posted, to an
  -- old worker or to a new one, and whatever of this failed.
  pub post_message-IsPrimed :
      (s : SchedulerState) (msg : PostMessagePayload)
      → IsPrimed s
      → IsPrimed (post_message posts starts s msg).1
  post_message-IsPrimed s msg h = unfold post_message in go s.idle h'
    where
      h' :
          (hash wasm : ℕ)
          → 1 ≤ cached hash wasm s.cached_modules
          → AllKnow hash wasm s.idle × AllKnow hash wasm s.busy
      h' = h

      go :
          (ws : List WorkerHandle)
          → ((hash wasm : ℕ)
              → 1 ≤ cached hash wasm s.cached_modules
              → AllKnow hash wasm ws × AllKnow hash wasm s.busy)
          → let r = next_available_worker posts starts s ws in
            IsPrimed
              (file_worker posts starts r.1 (would_block msg) (send_to posts starts r.0 msg)).1
      go [] k =
          unfold next_available_worker start_worker in
          file_worker-IsPrimed (start_worker posts starts s).1 (would_block msg)
            (send_to posts starts (start_worker posts starts s).0 msg) h
            (λ hash wasm l. send_to-Knew hash wasm (start_worker posts starts s).0 msg (
              Knew-weaken hash wasm (start_worker posts starts s).0 1
                (cached hash wasm s.cached_modules) l (start_worker-Knew hash wasm s)))
      go (w ∷ ws) k =
          unfold next_available_worker in
          file_worker-IsPrimed (record s { idle = ws }) (would_block msg)
            (send_to posts starts (some w) msg)
            (λ hash wasm l. ((k hash wasm l).0.1, (k hash wasm l).1))
            (λ hash wasm l. send_to-Knew hash wasm (some w) msg (k hash wasm l).0.0)

  -- Sent to all without an error, the message is known to all, and nothing is forgotten.
  send_all-AllKnow :
      (hash wasm h m : ℕ) (ws : List WorkerHandle)
      → (send_all posts starts ws (cache_module h m)).0 ≡ true
      → (1 ≤ (if h == hash && m == wasm then 1 else 0)) ⊎ AllKnow hash wasm ws
      → AllKnow hash wasm (send_all posts starts ws (cache_module h m)).1
  unfolding send_all
  send_all-AllKnow hash wasm h m [] ok k = tt
  send_all-AllKnow hash wasm h m (w ∷ ws) ok k =
      go (send posts starts w (cache_module h m)) (send_all posts starts ws (cache_module h m))
        (send-Knew hash wasm w (cache_module h m)) ok k (send_all-AllKnow hash wasm h m ws)
    where
      go :
          (o : Option WorkerHandle) (others : Bool × List WorkerHandle)
          → Knew hash wasm (announced hash wasm w.inbox + announces hash wasm (cache_module h m)) o
          → (sent w ws o others).0 ≡ true
          → (1 ≤ (if h == hash && m == wasm then 1 else 0)) ⊎ AllKnow hash wasm (w ∷ ws)
          → (others.0 ≡ true
              → (1 ≤ (if h == hash && m == wasm then 1 else 0)) ⊎ AllKnow hash wasm ws
              → AllKnow hash wasm others.1)
          → AllKnow hash wasm (sent w ws o others).1
      go none others n ok k f = absurd (ground (arith, ok))
      go (some v) (fine, vs) n ok (inl one) f = (omega (arith, n, one), f ok (inl one))
      go (some v) (fine, vs) n ok (inr (kw, kws)) f = (omega (arith, n, kw), f ok (inr kws))

  -- If every worker was told of every cached module, then so it is once another module was cached
  -- without an error.
  pub cache-IsPrimed :
      (s : SchedulerState) (hash wasm : ℕ)
      → IsPrimed s
      → (cache posts starts s hash wasm).0 ≡ true
      → IsPrimed (cache posts starts s hash wasm).1
  unfolding cache
  cache-IsPrimed s hash wasm h ok =
      go (send_all posts starts s.idle (cache_module hash wasm))
        (send_all posts starts s.busy (cache_module hash wasm))
        (λ h' m. send_all-AllKnow h' m hash wasm s.idle)
        (λ h' m. send_all-AllKnow h' m hash wasm s.busy) ok
    where
      s' : SchedulerState
      s' = record s { cached_modules = insert_module s.cached_modules hash wasm }

      outcome : Bool × List WorkerHandle → Bool × List WorkerHandle → Bool × SchedulerState
      outcome a b =
          if a.0
          then (b.0, record s' { idle = a.1; busy = b.1 })
          else (false, record s' { idle = a.1 })

      known :
          (h' m : ℕ)
          → 1 ≤ cached h' m (insert_module s.cached_modules hash wasm)
          → (ws : List WorkerHandle) → (1 ≤ cached h' m s.cached_modules → AllKnow h' m ws)
          → (1 ≤ (if hash == h' && wasm == m then 1 else 0)) ⊎ AllKnow h' m ws
      known h' m l ws f = elim (Bool-cases (hash == h' && wasm == m)) [
        | inl e ↦ inl (ground (arith, e))
        | inr e ↦
            inr (f (ground (arith, e, l, cached-insert_module h' m hash wasm s.cached_modules)))
      ]

      go :
          (a b : Bool × List WorkerHandle)
          → ((h' m : ℕ)
              → a.0 ≡ true
              → (1 ≤ (if hash == h' && wasm == m then 1 else 0)) ⊎ AllKnow h' m s.idle
              → AllKnow h' m a.1)
          → ((h' m : ℕ)
              → b.0 ≡ true
              → (1 ≤ (if hash == h' && wasm == m then 1 else 0)) ⊎ AllKnow h' m s.busy
              → AllKnow h' m b.1)
          → (outcome a b).0 ≡ true
          → IsPrimed (outcome a b).1
      go (true, a) (y, b) f g e = λ h' m l. (
        f h' m refl (known h' m l s.idle (λ k. (h h' m k).0)),
        g h' m e (known h' m l s.busy (λ k. (h h' m k).1)),
      )
      go (false, a) (y, b) f g e = absurd (ground (arith, e))
