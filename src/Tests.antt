-- ===== src/Tests.antt =====
-- The theorems at concrete inputs.
mod Wire
mod Sockets
mod Main
mod Base
mod Io
mod Turns
mod Starting
mod System
mod Queues
mod Threads
mod Client
mod Config
mod Logging
