-- ===== src/Lib.antt =====
-- wasmer-js runs WASIX programs in JavaScript. Its processes run in Web Workers, which share no
-- JavaScript objects: what they share is SharedArrayBuffers, and messages through the scheduler on
-- the main thread. This library models the parts of the Rust crate under src/ that carry that
-- traffic, and beside them the trees of a package, the cache of downloads, and the creation of
-- directories.
--
-- Memory models the SharedArrayBuffers: bytes, little-endian 32-bit words behind `Atomics`, typed
-- array views with what JavaScript does out of range. `Atomics.notify` changes no memory.
--
-- Pool models src/pipes/pool.rs, the allocator of the pool that all pipes live in. Its
-- compare-and-exchange loop runs against a list of rival allocations, one for each contended
-- round, and the regions that the rivals are given are part of the model.
--
-- Pipe models src/pipes/mod.rs. Pipe.antt has the ring buffer: `write_data`, `try_read`, `close`
-- and what they use. Pipe/Queue is what a pipe promises, a bounded queue of bytes, which
-- Pipe/Write and Pipe/Read show to be kept; Pipe/Stream runs any sequence of calls. Pipe/Ends has
-- construction, the count of transmit ends, and drop. Pipe/Poll has the loops that wait, for which
-- the doings of other workers are given round by round: `poll_read` and `poll_read_ready` make at
-- most 200 rounds, as the code does, and `read_blocking` as many as are given, with what happens
-- when they run out. Stdio has the three pipes of a subprocess. There a call on a pipe is one step
-- of the memory. Pipe/Interleaved takes the calls apart, into a look at the header, the copy and
-- the store of the position, between which the other end goes on.
--
-- HostExec models host_exec, by which a WASIX process has the JavaScript host run a command.
-- HostExec/Sessions has the scheduler's side (src/tasks/scheduler.rs): the maps of a session's
-- results, pending reads and queues, what each message about a session does to them, and the
-- callbacks that the command is given. HostExec/Sessions/Input has standard input, signals and
-- children; HostExec/Start the start of a session. HostExec/Response has the buffer through which
-- a worker (src/runtime.rs) gets its answers.
--
-- Scheduler models `SchedulerState` of src/tasks/scheduler.rs and `WorkerHandle` of
-- src/tasks/worker_handle.rs: the queues of idle and busy workers, the start of workers, the cache
-- of modules. Scheduler/Execute is `execute`, which joins this to the sessions and the response
-- buffers, and Scheduler/Execute/Receive the loop that receives the messages. Subprocess models
-- `poll_subprocess_output` of src/tasks/scheduler.rs, the task that prints what a subprocess
-- writes.
--
-- HostExec/Requests has the worker's requests up to the message that each sends, and
-- HostExec/Requests/Answered joins a read's request to the reply in the buffer.
--
-- Message has the types of src/tasks/scheduler_message.rs and src/tasks/post_message_payload.rs.
-- Message/Object has the JavaScript objects that messages travel as (src/tasks/interop.rs),
-- Message/Convert the conversions of a `SchedulerMessage`, Message/Payload those of a
-- `PostMessagePayload`, and Message/Worker those of a `WorkerMessage`
-- (src/tasks/worker_message.rs).
--
-- Channel models the way of messages to the scheduler: `Scheduler::send` and `close` of
-- src/tasks/scheduler.rs, `WorkerMessage::emit`, and `on_message` of src/tasks/worker_handle.rs,
-- as a sequence of events of which the environment chooses the order. Channel/Delivery has the
-- queues of messages that this is to amount to, and Channel/Order what follows of the order of
-- arrival.
--
-- Worker models `ThreadPoolWorker` of src/tasks/thread_pool_worker.rs: what a worker does with a
-- payload; Worker/Overlap has messages whose handling overlaps, and the worker's marks. Fork
-- models src/pipes/extract.rs and what src/tasks/task_wasm.rs makes of it; Fork/Copy has
-- `copy_memory`, whose loop has fuel for as many chunks as the source has and two more.
--
-- Package models src/registry/package/package_utils/mem_volumes.rs: the trees of files, the
-- volumes, the atoms and the metadata that `createPackage` takes out of a manifest. Package/Value
-- has the JavaScript values that it is made of. `create_node` has fuel, one for each level of
-- nested objects, and Package/Height shows how much is enough.
--
-- FileSystem has the two functions that create a directory with its parents, of
-- src/fs/directory.rs and of src/instance.rs, over any file system, given by the calls that they
-- make and by what it promises.
--
-- PackageLoader has the cache of src/package_loader.rs, with downloads that overlap: a call begins
-- with an event, and goes on with the event of its response.
--
-- What JavaScript and other crates decide is a parameter: whether `postMessage` and the start of a
-- worker succeed, the parser of a host_exec request and the handler, the text of a module's hash,
-- whether the run of a module succeeds, whether a module shares its memory. JavaScript values,
-- closures, modules and texts are numbers. A word of 32 bits is its bit pattern, and `usize`
-- arithmetic wraps at 2 ^ 32 as on wasm32.
--
-- Not modelled: the thread pool, the rest of the file system, the registry's network requests,
-- streams, networking and the bindings, which are JavaScript glue or calls of third-party code.
pub mod Prelude
pub mod Memory
pub mod Pool
pub mod Package
pub mod FileSystem
pub mod PackageLoader
pub mod Pipe
pub mod Stdio
pub mod Fork
pub mod Worker
pub mod HostExec
pub mod Message
pub mod Channel
pub mod Scheduler
pub mod Subprocess
pub mod Tests
