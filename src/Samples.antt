-- ===== src/Samples.antt =====
-- Concrete inputs at which the theorems apply.
mod Runs
mod Examples
mod Streams
mod Results
mod Locks
mod SharedLocks
mod Events
mod Resumption
mod Composition
