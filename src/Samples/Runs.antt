-- ===== src/Samples/Runs.antt =====
-- What the programs of examples/ print when they run.
mod Programs
mod Streams
mod WaitCombinators
