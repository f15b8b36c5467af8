-- ===== src/HostExec/Start.antt =====
-- The start of a session: `HostExecStart` in src/tasks/scheduler.rs. The parser of the request and the
-- JavaScript handler are the host's.
use wasmer_js.Prelude.{ℕ, List, Option, none, some, Bool, true, false}
use wasmer_js.Message.{StartResult, started, not_started}
use wasmer_js.HostExec.Sessions.{Sessions}

-- What the handler's call comes to. Meanwhile the handler may have called the session's callbacks.
pub data Called : Type 0 where
  promise other_value thrown : Called

-- The texts of the errors.
abbrev pub parse_failed : ℕ
parse_failed = 0

abbrev pub not_registered : ℕ
not_registered = 1

abbrev pub no_promise : ℕ
no_promise = 2

abbrev pub handler_failed : ℕ
handler_failed = 3

-- `serde_json::from_slice` of a request, whether a handler is registered, and its call for a session.
pub record Host : Type 0 where
  pub parse : List ℕ → Option ℕ
  pub registered : Bool
  pub call : Sessions → ℕ → ℕ → Called × Sessions

abbrev pub answer_start : ℕ → Called × Sessions → StartResult × Sessions
answer_start session (promise, s) = (started session, s)
answer_start session (other_value, s) = (not_started no_promise, s)
answer_start session (thrown, s) = (not_started handler_failed, s)

abbrev pub with_request : Host → Bool → Sessions → ℕ → Option ℕ → StartResult × Sessions
with_request host registered s session none = (not_started parse_failed, s)
with_request host false s session (some request) = (not_started not_registered, s)
with_request host true s session (some request) = answer_start session (host.call s session request)

-- The request's number becomes the session's.
unfoldable pub host_exec_start : Host → Sessions → ℕ → List ℕ → StartResult × Sessions
host_exec_start host s request_id request_json =
    with_request host host.registered s request_id (host.parse request_json)
