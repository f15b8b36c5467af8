-- ===== src/Subprocess.antt =====
-- The task that prints what a subprocess writes: `poll_subprocess_output` in src/tasks/scheduler.rs.
pub mod Closing
use wasmer_js.Prelude.{
  ℕ, zero, suc, List, [], ◌∷◌, ◌++◌, Option, none, some, Bool, true, false, ◌&&◌, if◌then◌else◌,
  take,
}
use wasmer_js.Memory.{Memory}
use wasmer_js.Pipe.{is_closed, try_read}
use wasmer_js.Pipe.Ends.{SharedPipe, drop_pipe}

-- The buffer of a read, `[0u8; 4096]`.
abbrev pub poll_buffer_size : ℕ
poll_buffer_size = 4096

unfoldable pub zeroed : ℕ → List ℕ
zeroed zero = []
zeroed (suc n) = 0 ∷ zeroed n

-- `extend_from_slice(&buf[..n])` of a read that got something.
abbrev pub read_bytes : Option ℕ → List ℕ → List ℕ
read_bytes none buf = []
read_bytes (some n) buf = take n buf

-- What one round prints of the two pipes, and whether it is the last.
pub record Round : Type 0 where
  pub stdout : List ℕ
  pub stderr : List ℕ
  pub last : Bool
  pub after : Memory

unfoldable pub poll_round : Memory → SharedPipe → SharedPipe → Round
poll_round m out err =
    let buf = zeroed poll_buffer_size in
    let r = try_read m out.rx buf in
    let s = try_read r.2 err.rx buf in
    record {
      stdout = read_bytes r.0 r.1;
      stderr = read_bytes s.0 s.1;
      last = is_closed s.2 out.rx.pool_offset && is_closed s.2 err.rx.pool_offset;
      after = s.2;
    }

-- With the last round the two pipes are removed from the map and dropped.
abbrev pub removed : Memory → SharedPipe → SharedPipe → Memory
removed m out err = drop_pipe (drop_pipe m out) err

abbrev pub after_round : Bool → Memory → SharedPipe → SharedPipe → Memory
after_round last m out err = if last then removed m out err else m

-- The loop, with what the other workers do during each wait. The flag says whether it has ended.
unfoldable pub poll_output :
    Memory → SharedPipe → SharedPipe → List (Memory → Memory) → List ℕ × List ℕ × Bool × Memory
poll_output m out err [] =
    let r = poll_round m out err in (r.stdout, r.stderr, r.last, after_round r.last r.after out err)
poll_output m out err (wait ∷ waits) =
    let r = poll_round m out err in
    let (stdout, stderr, last, after) = poll_output (wait r.after) out err waits in
    if r.last
    then (r.stdout, r.stderr, true, removed r.after out err)
    else (r.stdout ++ stdout, r.stderr ++ stderr, last, after)
