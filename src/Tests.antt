-- ===== src/Tests.antt =====
-- Runs of the development on concrete inputs: the theorems at channels and wakers of numbers.
mod Queues
mod Wakers
mod Channels
mod Unbounded
mod Blocking
mod Zero
