-- ===== src/HostExec.antt =====
-- host_exec: programs that a WASIX process asks the JavaScript host to run. The scheduler's side is in
-- src/tasks/scheduler.rs, the worker's in src/runtime.rs.
pub mod Response
pub mod Sessions
pub mod Start
pub mod Requests
