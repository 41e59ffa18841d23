-- ===== src/Lib.antt =====
-- A model of pollcoro, the library of poll-based coroutines under src/, and its correctness.
--
-- An awaitable is polled with a waker. The poll gives the outcome, and the awaitable keeps the
-- waker until polling again is worth while. `Poll S R` (Awaitable.antt) is such a poll as a
-- function from the waker and the state of the object to the new state, the outcome and the wakers
-- that were called meanwhile, in order; `none` is a call that the source leaves undefined, such as
-- the dereference of a null pointer, or a loop that ran out of fuel.
--
-- Which file models which part:
--   Waker.antt                src/waker.cppm
--   Awaitable.antt, Awaitable/  src/awaitable.cppm
--   StreamAwaitable.antt      src/stream_awaitable.cppm
--   Mutex.antt, Mutex/        src/mutex.cppm
--   SharedMutex.antt, SharedMutex/  src/shared_mutex.cppm
--   Generic.antt              src/generic.cppm
--   Ref.antt                  src/ref.cppm
--   Resumable.antt, Resumable/  src/resumable.cppm, both bridges
--   Sleep.antt, Sleep/        src/sleep.cppm
--   SingleEvent.antt          src/single_event.cppm
--   Task.antt, Task/          src/task.cppm, and of src/detail_promise.cppm the promise of a task
--   Wait/All.antt, Wait/All/  src/wait_all.cppm, for a pack of awaitables
--   Wait/Iter.antt, Wait/Iter/  src/wait_all.cppm, for a container of awaitables
--   Wait/First.antt           src/wait_first.cppm
--   Yield.antt                src/yield.cppm, src/ready.cppm, src/pending.cppm
--   Stream/Take.antt, ...     src/take.cppm, ...: one file for each adapter of the same name
--   Stream/Coroutine.antt, Stream/Coroutine/  src/stream.cppm, and of src/detail_promise.cppm the promise
--                             of a stream
--   BlockOn.antt, BlockOn/    src/block_on.cppm, src/sync_iter.cppm
--   Stream/Sources.antt       src/range.cppm, src/repeat.cppm, src/empty.cppm, src/iter.cppm
--   Examples/CustomAwaitable.antt, ...  examples/custom_awaitable.cc
--   Examples/WaitCombinators.antt, ...  examples/wait_combinators.cc
--   Examples/Streams.antt, ...  examples/stream.cc
--   Examples/Drain.antt, ...  the loop `while (auto value = co_await next(s))` of the examples
--   Examples/Pipelines.antt   examples/pipelines.cc
--   Examples/Generic.antt     examples/generic.cc
--   Examples/Allocator.antt, ...  examples/allocator.cc
--   Examples/CInterop.antt, ...  examples/c_interop.h, c_interop_impl.cc and c_interop.c
--   Examples/Exceptions.antt  examples/exceptions.cc
--   Examples/References.antt  examples/reference.cc, examples/modules.cc
--   Examples/Fib.antt, ...    examples/fib.cc
--   Examples/Counter.antt, ...  examples/mutex.cc, the counter and its tasks
--   Examples/Interop.antt, ...  examples/interop_asio.cc and examples/interop_cppcoro.cc, the tasks
--   Examples/Locks.antt       examples/mutex.cc, the tests of one coroutine alone
--   Examples/Cache.antt, ...  examples/mutex.cc, the cache
--   Examples/AsioInterop.antt, ...  examples/interop_asio.cc, the adapters
-- Definitions have the names of the source's classes and functions, fields the names of the members
-- without the underscore. `poll` and `poll_next` take the polls of the awaitables below them as
-- arguments. Base.antt has the shared helpers, and Samples/ concrete runs.
--
-- Stream.antt says what streams and awaitables come to: `Emits` is a stream that delivers a list
-- and ends, `Delivers` one that delivers a list, `Resolves` an awaitable that becomes ready; each
-- allows any number of pending polls in between. What an adapter delivers is stated from what its
-- upstream delivers.
--
-- Mutex/System.antt has any number of clients of a mutex, and SharedMutex/System.antt of a
-- read-write lock; their steps interleave in any order, and in Examples/Counter.antt so do those of
-- the tasks that count. What a call does while it holds `mtx_` is one step, and so is each read of
-- `is_ready_` without it. A `shared_ptr` to a waiter is a number, and the state has what it points
-- to.
--
-- The examples are clients of the library. A coroutine that others poll is the body of a task or
-- the frames of a stream. One that only `block_on` runs is a plain function in which `co_await` is
-- a call of `await`, which polls like `block_on`. What a program prints is a list of tokens
-- (Console.antt). `rounds` bounds the polls of one `co_await` and the rounds of a loop; the
-- termination theorems say that enough of them give the result. An `int` that is never negative is
-- a natural number, and its overflow, which is undefined, is not modelled. There is one thread:
-- where the source waits for another, there is no outcome; but the loop of examples/c_interop.c is
-- given how often `cnd_wait` returns, and what other threads have called by then.
--
-- The timer of src/sleep.cppm is an argument, with one law: a callback that is registered is added
-- to those that have yet to be called. A task of examples/fib.cc awaits tasks of its own kind, so
-- its type has the depth of the nesting as an index, and a depth above `n` is enough for `n`. In
-- Resumable/ToResumable.antt a wake during the poll that finds `resumed` reset resumes the
-- coroutine, which leaves the awaiter behind; `await_suspend` then writes to it, and such a poll is
-- undefined. A reference of src/ref.cppm leads to a place of a store, by the way that its type has.
--
-- A `std::size_t` is a number below 2 ^ 64, and wraps round. Loops that go on as long as the
-- upstream has items are recursive on fuel: a list of `n` items needs fuel above `n`, and
-- `flatten`, which takes two rounds for each inner stream, fuel above twice their number. A value
-- that the source moves from is kept as it was, but for the result of a single event: there an
-- argument gives what a move leaves.
--
-- Not modelled: void results; move constructors but for those of guards and locks; the factory
-- functions and pipe operators, which call constructors; the ownership and the memory of coroutine
-- frames, with src/allocator.cppm; src/co_awaitable.cppm and src/is_blocking.cppm, which have types
-- and tags for the compiler only. Of the examples: the coroutines of cppcoro and of ASIO
-- themselves, which are arguments where a task awaits them; the logs of the demonstrations with
-- ASIO, cppcoro, threads and timers; examples/map.cc; what the tests print in which several
-- coroutines compete; and those that compute with `double`. The functions that a client passes in
-- are total and throw nothing; a waker's function does not call back into the object that calls it.
mod Base
mod Samples
pub mod Waker
pub mod Awaitable
pub mod StreamAwaitable
pub mod Stream
pub mod Mutex
pub mod SharedMutex
pub mod SingleEvent
pub mod Wait
pub mod Task
pub mod Yield
pub mod BlockOn
pub mod Resumable
pub mod Sleep
pub mod Generic
pub mod Ref
mod Console
pub mod Examples
