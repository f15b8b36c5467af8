-- ===== src/Message.antt =====
-- The messages of the scheduler and its workers (src/tasks/post_message_payload.rs). A JS object, a
-- closure and a text are numbers.
pub mod Object
pub mod Ty
pub mod Key
pub mod Convert
pub mod Payload
pub mod Worker
use wasmer_js.Prelude.{ℕ, List, Option, Bool, true, false}

-- `SubprocessStdioBuffers` and `ForkPipeBuffers`.
pub record SubprocessStdioBuffers : Type 0 where
  pub stdin_offset : ℕ
  pub stdin_size : ℕ
  pub stdout_offset : ℕ
  pub stdout_size : ℕ
  pub stderr_offset : ℕ
  pub stderr_size : ℕ

pub record ForkPipeBuffers : Type 0 where
  pub buffers : List (ℕ × Bool × ℕ × ℕ)
  pub all_fds_debug : ℕ

pub data BlockingJob : Type 0 where
  thunk : ℕ → BlockingJob
  spawn_with_module : ℕ → ℕ → BlockingJob
  spawn_with_module_and_memory :
      ℕ → Option ℕ → ℕ → Option SubprocessStdioBuffers → Option ForkPipeBuffers → BlockingJob

pub data StartResult : Type 0 where
  started : ℕ → StartResult
  not_started : ℕ → StartResult

pub data ReadReply : Type 0 where
  data_read : ℕ → List ℕ → ReadReply
  read_error : ℕ → ReadReply

pub data PostMessagePayload : Type 0 where
  async : ℕ → PostMessagePayload
  blocking : BlockingJob → PostMessagePayload
  cache_module : ℕ → ℕ → PostMessagePayload
  host_exec_start_response : ℕ → StartResult → PostMessagePayload
  host_exec_read_response : ℕ → ReadReply → PostMessagePayload

abbrev pub would_block : PostMessagePayload → Bool
would_block (blocking job) = true
would_block _ = false

-- `SchedulerMessage` of src/tasks/scheduler_message.rs. The request of `host_exec_start` is its bytes.
pub data SchedulerMessage : Type 0 where
  spawn_async spawn_blocking : ℕ → SchedulerMessage
  worker_busy worker_idle : ℕ → SchedulerMessage
  cache_module : ℕ → ℕ → SchedulerMessage
  spawn_with_module : ℕ → ℕ → SchedulerMessage
  spawn_with_module_and_memory :
      ℕ → Option ℕ → ℕ → Option SubprocessStdioBuffers → Option ForkPipeBuffers → SchedulerMessage
  host_exec_start : ℕ → ℕ → List ℕ → SchedulerMessage
  host_exec_read : ℕ → ℕ → ℕ → SchedulerMessage
  host_exec_read_complete : ℕ → ℕ → ℕ → List ℕ → SchedulerMessage
  host_exec_write : ℕ → ℕ → ℕ → List ℕ → SchedulerMessage
  host_exec_close_stdin : ℕ → ℕ → ℕ → SchedulerMessage
  host_exec_try_read : ℕ → ℕ → ℕ → SchedulerMessage
  host_exec_poll : ℕ → ℕ → ℕ → SchedulerMessage
  host_exec_signal : ℕ → ℕ → ℕ → ℕ → SchedulerMessage
  host_exec_child_output : ℕ → ℕ → ℕ → ℕ → ℕ → List ℕ → SchedulerMessage
  close : SchedulerMessage
