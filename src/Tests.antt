-- ===== src/Tests.antt =====
-- The theorems at concrete inputs, and runs of the definitions on inputs that can be followed in the
-- source.
mod Registration
mod Sockets
mod Resumed
mod SocketTurns
mod Tasks
mod Channels
mod Driving
mod CustomEvents
mod CompletionPort
mod Turns
mod Workers
mod Joint
mod EventLoops
mod Running
mod Registrations
