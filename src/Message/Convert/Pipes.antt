-- ===== src/Message/Convert/Pipes.antt =====
-- The pipes of a fork in an object, and read back from it.
use wasmer_js.Prelude.{
  ℕ, suc, ◌<◌, ◌≡◌, refl, ap, ◌∙◌, List, [], ◌∷◌, Option, none, some, Bool, false, ◌==◌, length,
  arith,
}
use wasmer_js.Message.{ForkPipeBuffers}
use wasmer_js.Message.Object.{
  number, boolean, undefined, plain, indexed, Object, set, ◌>>=◌, as_number,
}
use wasmer_js.Message.Key
use wasmer_js.Message.Convert.{
  set_pipe, set_pipes, set_fork_pipes, get_pipes, get_fork_pipes, with_pipes,
}

-- The pipes of a fork without the text for debugging, which is not sent.
abbrev pub without_debug : Option ForkPipeBuffers → Option ForkPipeBuffers
without_debug none = none
without_debug (some pipes) = some (record pipes { all_fds_debug = 0 })

-- Setting the pipes from an index on leaves the plain fields and those of lower indices alone.
set_pipes_plain :
    (o : Object) (i : ℕ) (ps : List (ℕ × Bool × ℕ × ℕ)) (k : ℕ)
    → set_pipes o i ps (plain k) ≡ o (plain k)
unfolding set_pipes set_pipe set
set_pipes_plain o i [] k = refl
set_pipes_plain o i (pipe ∷ rest) k = set_pipes_plain (set_pipe o i pipe) (suc i) rest k

set_pipes_lower :
    (o : Object) (i : ℕ) (ps : List (ℕ × Bool × ℕ × ℕ)) (k j : ℕ)
    → j < i
    → set_pipes o i ps (indexed k j) ≡ o (indexed k j)
unfolding set_pipes
set_pipes_lower o i [] k j h = refl
set_pipes_lower o i (pipe ∷ rest) k j h =
    set_pipes_lower (set_pipe o i pipe) (suc i) rest k j (omega arith) ∙ below o i pipe k j h
  where
    below :
        (o : Object) (i : ℕ) (pipe : ℕ × Bool × ℕ × ℕ) (k j : ℕ)
        → j < i
        → set_pipe o i pipe (indexed k j) ≡ o (indexed k j)
    below o i (fd, is_tx, offset, size) k j h = unfold set_pipe set in ground arith

-- The fields of a pipe are those that were set for it.
pipe_fields :
    (o : Object) (i fd : ℕ) (is_tx : Bool) (offset size : ℕ) (rest : List (ℕ × Bool × ℕ × ℕ))
    → let o' = set_pipes o i ((fd, is_tx, offset, size) ∷ rest) in
      (o' (Key.fd i) ≡ number fd)
      × (o' (Key.is_tx i) ≡ boolean is_tx)
      × (o' (Key.offset i) ≡ number offset)
      × (o' (Key.size i) ≡ number size)
unfolding set_pipes
pipe_fields o i fd is_tx offset size rest = (
  kept 0 ∙ unfold set_pipe set in ground arith,
  kept 1 ∙ unfold set_pipe set in ground arith,
  kept 2 ∙ unfold set_pipe set in ground arith,
  kept 3 ∙ unfold set_pipe set in ground arith,
)
  where
    kept :
        (k : ℕ)
        → set_pipes (set_pipe o i (fd, is_tx, offset, size)) (suc i) rest (indexed k i)
          ≡ set_pipe o i (fd, is_tx, offset, size) (indexed k i)
    kept k = set_pipes_lower (set_pipe o i (fd, is_tx, offset, size)) (suc i) rest k i (omega arith)

get_pipes-set_pipes :
    (o : Object) (i : ℕ) (ps : List (ℕ × Bool × ℕ × ℕ))
    → get_pipes (set_pipes o i ps) i (length ps) ≡ some ps
unfolding get_pipes set_pipes
get_pipes-set_pipes o i [] = refl
get_pipes-set_pipes o i ((fd, is_tx, offset, size) ∷ rest) =
    rw (f.0, f.1, f.2, f.3)
      (ap (λ r. r >>= λ rest. some ((fd, is_tx, offset, size) ∷ rest))
        (get_pipes-set_pipes (set_pipe o i (fd, is_tx, offset, size)) (suc i) rest))
  where
    f :
        let o' = set_pipes o i ((fd, is_tx, offset, size) ∷ rest) in
        (o' (Key.fd i) ≡ number fd)
        × (o' (Key.is_tx i) ≡ boolean is_tx)
        × (o' (Key.offset i) ≡ number offset)
        × (o' (Key.size i) ≡ number size)
    f = pipe_fields o i fd is_tx offset size rest

-- The pipes of a fork leave all plain fields but their count alone.
pub set_fork_pipes_plain :
    (o : Object) (fork_pipes : Option ForkPipeBuffers) (k : ℕ)
    → (k == 13) ≡ false
    → set_fork_pipes o fork_pipes (plain k) ≡ o (plain k)
unfolding set_fork_pipes
set_fork_pipes_plain o none k h = refl
set_fork_pipes_plain o (some pipes) k h =
    set_pipes_plain (set o Key.count (number (length pipes.buffers))) 0 pipes.buffers k
    ∙ unfold set in ground arith

-- They are read back, less the text for debugging, from an object that had no count of pipes.
pub get_fork_pipes-set :
    (o : Object) (fork_pipes : Option ForkPipeBuffers)
    → o Key.count ≡ undefined
    → get_fork_pipes
        (set_fork_pipes o fork_pipes)
        (as_number (set_fork_pipes o fork_pipes Key.count))
      ≡ some (without_debug fork_pipes)
unfolding set_fork_pipes get_fork_pipes
get_fork_pipes-set o none h = rw h
get_fork_pipes-set o (some pipes) h =
    rw (set_pipes_plain (set o Key.count (number (length pipes.buffers))) 0 pipes.buffers 13) (
      unfold set in
      ap with_pipes
        (get_pipes-set_pipes (set o Key.count (number (length pipes.buffers))) 0 pipes.buffers))
