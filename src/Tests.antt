-- ===== src/Tests.antt =====
-- The theorems at concrete inputs, with a concrete encoding in the place of protobuf.
mod Framing
mod Codecs
mod Heaps
mod Registry
mod Server
mod Client
mod Buffers
mod Pools
mod Loops
mod Wires
mod Commands
mod Connections
