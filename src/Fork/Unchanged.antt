-- ===== src/Fork/Unchanged.antt =====
-- What reconnecting a forked process's pipes comes to.
use wasmer_js.Prelude.{
  ℕ, ◌+◌, ◌<◌, ◌≡◌, refl, sym, ap, ap₂, fun_ext, List, [], ◌∷◌, none, some, Bool, true, false,
  arith, ne→==,
}
use wasmer_js.Memory.{Memory, load, store, word_mod, add32, sub32}
use wasmer_js.Memory.Laws.{load-store_self}
use wasmer_js.Pipe.{SharedPipeTx, SharedPipeRx, header_size, tx_count_at}
use wasmer_js.Pipe.Ends.{tx_from_pool_offset, rx_from_pool_offset, drop_tx}
use wasmer_js.Fork.{
  Kind, virtual_pipe_tx, virtual_pipe_rx, other, WasiEnv, Buffer, extract_one, extract,
  extract_pipe_buffers, fork_pipes, get_fd, reconnect_kind, set_kind, reconnect_inode,
  reconnect_pipe_buffers, reconnect_fork_pipes,
}

-- A pipe's end as the code makes it, with its writers counted and one more to come without wrapping
-- the count round.
abbrev pub IsLive : Memory → Kind → Type 0
IsLive m (virtual_pipe_tx (some tx)) =
    (tx.data_capacity ≡ sub32 tx.buffer_size header_size)
    × (0 < load m (tx_count_at tx.pool_offset))
    × (load m (tx_count_at tx.pool_offset) + 1 < word_mod)
IsLive m (virtual_pipe_rx (some rx)) = rx.data_capacity ≡ sub32 rx.buffer_size header_size
IsLive m _ = Unit

-- A buffer names a descriptor that is such an end of such a pipe.
abbrev pub Matches : Kind → Bool → ℕ → ℕ → Type 0
Matches (virtual_pipe_tx (some tx)) true offset size =
    (tx.pool_offset ≡ offset) × (tx.buffer_size ≡ size)
Matches (virtual_pipe_rx (some rx)) false offset size =
    (rx.pool_offset ≡ offset) × (rx.buffer_size ≡ size)
Matches _ _ _ _ = (false ≡ true)

abbrev pub Describes : WasiEnv → Buffer → Type 0
Describes env (fd, is_tx, offset, size) =
    (inode : ℕ) × (get_fd env.fd_map fd ≡ some inode) × Matches (env.kinds inode) is_tx offset size

abbrev pub All {ℓ} : {A : Type ℓ} → (A → Type 0) → List A → Type 0
All P [] = Unit
All P (x ∷ xs) = P x × All P xs

-- No two entries of the map have the same descriptor.
abbrev Finds : List (ℕ × ℕ) → ℕ × ℕ → Type 0
Finds fd_map (fd, inode) = get_fd fd_map fd ≡ some inode

abbrev pub IsMap : WasiEnv → Type 0
IsMap env = All (Finds env.fd_map) env.fd_map

extract-Describes :
    (env : WasiEnv) (l : List (ℕ × ℕ))
    → All (Finds env.fd_map) l
    → All (Describes env) (extract l env.kinds)
unfolding extract extract_one
extract-Describes env [] h = tt
extract-Describes env ((fd, inode) ∷ rest) h =
    go (env.kinds inode) refl (extract rest env.kinds) (extract-Describes env rest h.1)
  where
    go :
        (k : Kind)
        → env.kinds inode ≡ k
        → (bs : List Buffer) → All (Describes env) bs
        → All (Describes env) (extract_one fd k bs)
    go (virtual_pipe_tx (some tx)) e bs r = ((inode, h.0, rw e (refl, refl)), r)
    go (virtual_pipe_rx (some rx)) e bs r = ((inode, h.0, rw e (refl, refl)), r)
    go (virtual_pipe_tx none) e bs r = r
    go (virtual_pipe_rx none) e bs r = r
    go other e bs r = r

-- A word that is stored again as it stood changes no byte.
store-load :
    (m : Memory) (a v b : ℕ) → ((c : ℕ) → m c < 256) → store (store m a v) a (load m a) b ≡ m b
unfolding store load
store-load m a v b bytes = ground (arith, bytes a, bytes (a + 1), bytes (a + 2), bytes (a + 3))

-- A new transmit end is counted, and the old one uncounted: the pipe does not close.
again_tx :
    (m : Memory) (tx : SharedPipeTx)
    → ((c : ℕ) → m c < 256)
    → IsLive m (virtual_pipe_tx (some tx))
    → drop_tx (tx_from_pool_offset m tx.pool_offset tx.buffer_size).1 tx ≡ m
unfolding drop_tx tx_from_pool_offset
again_tx m tx bytes live =
    rw
      (
        load-store_self m (tx_count_at tx.pool_offset)
            (add32 (load m (tx_count_at tx.pool_offset)) 1) (omega arith),
        ne→== (add32 (load m (tx_count_at tx.pool_offset)) 1) 1 (omega arith),
        back,
      )
      (fun_ext λ b.
        store-load m (tx_count_at tx.pool_offset) (add32 (load m (tx_count_at tx.pool_offset)) 1) b
          bytes)
  where
    back :
        sub32 (add32 (load m (tx_count_at tx.pool_offset)) 1) 1
        ≡ load m (tx_count_at tx.pool_offset)
    back = omega arith

same_tx :
    (m : Memory) (tx : SharedPipeTx)
    → tx.data_capacity ≡ sub32 tx.buffer_size header_size
    → (tx_from_pool_offset m tx.pool_offset tx.buffer_size).0 ≡ tx
unfolding tx_from_pool_offset
same_tx m tx h = λ i. record {
  pool_offset = tx.pool_offset;
  buffer_size = tx.buffer_size;
  data_capacity = sym h i;
}

same_rx :
    (rx : SharedPipeRx)
    → rx.data_capacity ≡ sub32 rx.buffer_size header_size
    → rx_from_pool_offset rx.pool_offset rx.buffer_size ≡ rx
unfolding rx_from_pool_offset
same_rx rx h = λ i. record {
  pool_offset = rx.pool_offset;
  buffer_size = rx.buffer_size;
  data_capacity = sym h i;
}

reconnect_kind-same :
    (m : Memory) (k : Kind) (is_tx : Bool) (offset size : ℕ)
    → ((c : ℕ) → m c < 256)
    → IsLive m k
    → Matches k is_tx offset size
    → reconnect_kind m k is_tx offset size ≡ (k, m)
unfolding reconnect_kind
reconnect_kind-same m (virtual_pipe_tx (some tx)) true offset size bytes live h =
    rw (← h.0, ← h.1)
      (ap₂ (λ k n. (virtual_pipe_tx (some k), n)) (same_tx m tx live.0) (again_tx m tx bytes live))
reconnect_kind-same m (virtual_pipe_rx (some rx)) false offset size bytes live h =
    rw (← h.0, ← h.1) (ap (λ k. (virtual_pipe_rx (some k), m)) (same_rx rx live))
reconnect_kind-same m (virtual_pipe_tx (some tx)) false offset size bytes live h = absurd (cc)
reconnect_kind-same m (virtual_pipe_rx (some rx)) true offset size bytes live h = absurd (cc)
reconnect_kind-same m (virtual_pipe_tx none) is_tx offset size bytes live h = absurd (cc)
reconnect_kind-same m (virtual_pipe_rx none) is_tx offset size bytes live h = absurd (cc)
reconnect_kind-same m other is_tx offset size bytes live h = absurd (cc)

set_kind-same : (kinds : ℕ → Kind) (inode : ℕ) → set_kind kinds inode (kinds inode) ≡ kinds
set_kind-same kinds inode = fun_ext λ i. ground arith

reconnect-same :
    (env : WasiEnv) (m : Memory) (bs : List Buffer)
    → ((c : ℕ) → m c < 256)
    → ((inode : ℕ) → IsLive m (env.kinds inode))
    → All (Describes env) bs
    → reconnect_pipe_buffers env m bs ≡ (env, m)
unfolding reconnect_pipe_buffers reconnect_inode
reconnect-same env m [] bytes live h = refl
reconnect-same env m ((fd, is_tx, offset, size) ∷ rest) bytes live ((inode, found, fits), h) =
    rw
      (
        found,
        reconnect_kind-same m (env.kinds inode) is_tx offset size bytes (live inode) fits,
        set_kind-same env.kinds inode,
      )
      (reconnect-same env m rest bytes live h)

-- A process whose descriptors are a map, in a memory of bytes, with its pipes as the code makes them
-- and their writers counted, is forked: whatever order the extracted pipes come in, and whatever text
-- for debugging goes along, reconnecting them changes no descriptor and no byte, so that no pipe
-- loses data, a writer or its end.
pub reconnect-fork_pipes :
    (into_vec : List Buffer → List Buffer)
    → ((P : Buffer → Type 0) (bs : List Buffer) → All P bs → All P (into_vec bs))
    → (env : WasiEnv) (m : Memory) (all_fds_debug : ℕ) → IsMap env
    → ((c : ℕ) → m c < 256)
    → ((inode : ℕ) → IsLive m (env.kinds inode))
    → reconnect_fork_pipes env m (fork_pipes into_vec env all_fds_debug) ≡ (env, m)
unfolding fork_pipes reconnect_fork_pipes
reconnect-fork_pipes into_vec same env m dbg is_map bytes live =
    go (extract_pipe_buffers env)
      (unfold extract_pipe_buffers in extract-Describes env env.fd_map is_map)
  where
    go :
        (bs : List Buffer)
        → All (Describes env) bs
        → reconnect_fork_pipes env m (elim bs [
          | [] ↦ none
          | buffer ∷ rest ↦
              some (record { buffers = into_vec (buffer ∷ rest); all_fds_debug = dbg })
        ])
          ≡ (env, m)
    go [] h = refl
    go (b ∷ bs) h =
        reconnect-same env m (into_vec (b ∷ bs)) bytes live (same (Describes env) (b ∷ bs) h)
