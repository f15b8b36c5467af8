-- ===== src/Stdio.antt =====
-- `SharedStdioPipes` of src/pipes/mod.rs: the three pipes of a subprocess and the handles that the
-- two sides take. A handle that a function does not return is dropped at its end.
pub mod Handles
use wasmer_js.Prelude.{ℕ}
use wasmer_js.Memory.{Memory}
use wasmer_js.Pipe.{SharedPipeTx, SharedPipeRx}
use wasmer_js.Pipe.Ends.{SharedPipe, from_pool_offset, drop_tx}

pub record SharedStdioPipes : Type 0 where
  pub stdin : SharedPipe
  pub stdout : SharedPipe
  pub stderr : SharedPipe

-- Where a pipe lies: `pool_offset` and `buffer_size`, which are those of its transmit end.
abbrev pub Place : Type 0
Place = ℕ × ℕ

abbrev pub place : SharedPipe → Place
place p = (p.tx.pool_offset, p.tx.buffer_size)

unfoldable pub child_offsets : SharedStdioPipes → Place × Place × Place
child_offsets s = (place s.stdin, place s.stdout, place s.stderr)

unfoldable pub child_from_offsets : Place × Place × Place → SharedStdioPipes
unfolding from_pool_offset
child_from_offsets (i, o, e) = record {
  stdin = from_pool_offset i.0 i.1;
  stdout = from_pool_offset o.0 o.1;
  stderr = from_pool_offset e.0 e.1;
}

-- The parent keeps stdin's transmit end; those of stderr and stdout are dropped, in this order.
unfoldable pub parent_handles :
    Memory → SharedStdioPipes → SharedPipeTx × SharedPipeRx × SharedPipeRx × Memory
parent_handles m s =
    (s.stdin.tx, s.stdout.rx, s.stderr.rx, drop_tx (drop_tx m s.stderr.tx) s.stdout.tx)

-- The child keeps stdout's and stderr's transmit ends; that of stdin is dropped.
unfoldable pub child_handles :
    Memory → SharedStdioPipes → SharedPipeRx × SharedPipeTx × SharedPipeTx × Memory
child_handles m s = (s.stdin.rx, s.stdout.tx, s.stderr.tx, drop_tx m s.stdin.tx)
