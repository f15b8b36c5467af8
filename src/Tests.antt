-- ===== src/Tests.antt =====
-- The theorems at concrete inputs, where their hypotheses hold.
mod Pipes
mod Ends
mod HostExec
mod Workers
mod Messages
mod Subprocess
mod Channel
mod Fork
mod Package
mod Interleaved
mod FileSystem
mod PackageLoader
