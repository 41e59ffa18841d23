-- ===== src/Examples.antt =====
-- The programs of examples/. A test coroutine that only `block_on` runs is a plain function in which
-- `co_await` is a call of `await`, and it gives what it prints.
pub mod WaitCombinators
pub mod Drain
pub mod AsioInterop
pub mod Cache
pub mod Exceptions
pub mod References
pub mod Locks
pub mod CInterop
pub mod Pipelines
pub mod Generic
pub mod Allocator
pub mod CustomAwaitable
pub mod Streams
pub mod Fib
pub mod Counter
pub mod Interop
