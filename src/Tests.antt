-- ===== src/Tests.antt =====
-- The theorems applied at concrete inputs, a module for each group of source files.
mod Planning
mod Records
mod Stealing
mod Deque
mod Merkle
mod Breaker
mod Stream
mod Writer
mod State
mod Engine
