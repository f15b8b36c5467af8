-- ===== src/HostExec/Sessions/Input.antt =====
-- What a worker sends to a host command, and what the command registers to get it: standard input,
-- signals, and the output of the children it asked for (src/tasks/scheduler.rs, `execute` and
-- `create_host_exec_context`).
use wasmer_js.Prelude.{ℕ, List, [], ◌∷◌, Option, none, some, ◌==◌, if◌then◌else◌, insert, remove}
use wasmer_js.HostExec.Sessions.{
  Sessions, Effect, call_bytes, call_number, call_none, Reaction, from_le_bytes,
  msg_type_child_stdout, msg_type_child_stderr, msg_type_child_exit,
}

abbrev pub write_effects : Option (ℕ × ℕ) → List ℕ → List Effect
write_effects none bytes = []
write_effects (some (writer, closer)) bytes = call_bytes writer bytes ∷ []

-- `HostExecWrite`.
unfoldable pub host_exec_write : Sessions → ℕ → List ℕ → Reaction
host_exec_write s session bytes = (s, write_effects (s.stdin_writers session) bytes)

abbrev pub close_effects : Option (ℕ × ℕ) → List Effect
close_effects none = []
close_effects (some (writer, closer)) = call_none closer ∷ []

-- `HostExecCloseStdin`.
unfoldable pub host_exec_close_stdin : Sessions → ℕ → Reaction
host_exec_close_stdin s session = (
  record s { stdin_writers = remove s.stdin_writers session },
  close_effects (s.stdin_writers session),
)

abbrev pub signal_effects : Option ℕ → ℕ → List Effect
signal_effects none signal = []
signal_effects (some kill) signal = call_number kill signal ∷ []

-- `HostExecSignal`.
unfoldable pub host_exec_signal : Sessions → ℕ → ℕ → Reaction
host_exec_signal s session signal = (s, signal_effects (s.signal_handlers session) signal)

abbrev pub exit_code_or : Option ℕ → ℕ
exit_code_or none = 0
exit_code_or (some code) = code

abbrev pub child_effects : Option (ℕ × ℕ × ℕ) → ℕ → List ℕ → List Effect
child_effects none msg_type bytes = []
child_effects (some (on_stdout, on_stderr, on_exit)) msg_type bytes =
    if msg_type == msg_type_child_stdout
    then call_bytes on_stdout bytes ∷ []
    else if msg_type == msg_type_child_stderr
    then call_bytes on_stderr bytes ∷ []
    else if msg_type == msg_type_child_exit
    then call_number on_exit (exit_code_or (from_le_bytes bytes)) ∷ []
    else []

-- `HostExecChildOutput`.
unfoldable pub host_exec_child_output : Sessions → ℕ → ℕ → List ℕ → Reaction
host_exec_child_output s child_id msg_type bytes =
    (s, child_effects (s.child_output_handlers child_id) msg_type bytes)

-- `setStdinWriter`, `setKillFunction` and `setChildOutputHandlers`, called with functions.
unfoldable pub set_stdin_writer : Sessions → ℕ → ℕ → ℕ → Sessions
set_stdin_writer s session writer closer = record s {
  stdin_writers = insert s.stdin_writers session (writer, closer);
}

unfoldable pub set_kill_function : Sessions → ℕ → ℕ → Sessions
set_kill_function s session kill = record s {
  signal_handlers = insert s.signal_handlers session kill;
}

unfoldable pub set_child_output_handlers : Sessions → ℕ → ℕ × ℕ × ℕ → Sessions
set_child_output_handlers s session callbacks = record s {
  child_output_handlers = insert s.child_output_handlers session callbacks;
}
