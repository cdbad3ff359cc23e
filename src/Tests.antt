-- ===== src/Tests.antt =====
-- Every result at a concrete input.
mod Caches
mod Headers
mod Streams
mod Loops
mod Queues
mod Resolvers
mod Descriptors
mod Kernels
mod Servers
mod Starts
mod Runs
mod Replays
