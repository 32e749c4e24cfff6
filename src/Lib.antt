-- ===== src/Lib.antt =====
-- zchan: channels for tokio, bounded (src/array.rs), unbounded (src/list.rs) and of no capacity
-- (src/zero.rs), with wakers for tasks (src/atomic_serial_waker.rs). Senders and receivers share a
-- channel by a reference counter (src/counter.rs); the channel of no capacity keeps its blocked
-- threads in queues (src/waker.rs) of contexts (src/context.rs, src/select.rs).
--
-- The bounded channel is a ring of slots with stamps. A sender moves the tail by a compare-exchange
-- and then writes the slot; a receiver moves the head and then reads it. A stamp packs an index, a
-- mark bit (the channel is disconnected) and a lap in one `usize`. Each side has an
-- `AtomicSerialWaker`, in which tasks that found the channel full or empty wait for a wake-up by the
-- other side.
--
-- The files:
--   Base, Base/*           tests on numbers, lists and options, shared by all
--   Word, Word/*           `usize`: wrap-around, bit masks and `next_power_of_two`
--   Error                  the error types of src/error.rs, and `Result`, `Async`, `AsyncSink`
--   SerialWaker            `AtomicSerialWaker` and `positive_update` (src/atomic_serial_waker.rs)
--   SerialWaker/Queue      crossbeam's `ArrayQueue` and the tasks, as a parameter
--   SerialWaker/Laws, Runs, Wakeups    what a waker keeps over any history, what a wake-up is worth
--   SerialWaker/Race       `wake` by single accesses, with a registration between two of them
--   SerialWaker/Threads, Interleaved    all operations by single accesses of several threads, and what is kept
--   Array                  the state of src/array.rs (`Slot`, `Array`, `Channel`), `with_capacity`
--   Array/Send             `start_send`, `write`, `try_send`, `send` and `Sink::start_send`
--   Array/Recv             `start_recv`, `read`, `poll_read`, `try_recv` and `Stream::poll`
--   Array/Query            `len`, `capacity`, `is_empty`, `is_full`, `shutdown`, `is_shutdown`, `drop`
--   Array/Stamp, Inv       stamps as words; what a channel holds while no operation is under way
--   Array/Spec, Refine, Runs    the bounded queue, and that the channel implements it
--   Array/Deadline, Tokio  `send` with a deadline, and the `Sink` and the `Stream`
--   Unbounded              the state of src/list.rs: blocks of slots in a store, `Channel`, `Channel::new`
--   Unbounded/Send         `start_send`, `write`, `send`, `try_send` and `Sink::start_send`
--   Unbounded/Send/Entry, Reserve, Run    a round up to its compare-exchange, after it, and the loop
--   Unbounded/Recv         `Block::destroy`, `start_recv`, `read`, `poll_read`, `try_recv`, `Stream::poll`
--   Unbounded/Recv/Round, Reserve, Take, Run    a round, a reserved slot, its read, and the loop
--   Unbounded/Query        `len`, `capacity`, `is_empty`, `is_full`, `shutdown`, `is_shutdown`, `drop`
--   Unbounded/Query/Laws, Rest, Drop    what the queries tell; rounds of `drop`, and the whole of it
--   Unbounded/Memory, Inv, Inv/*    accesses of the store; the chain of blocks that holds the messages
--   Unbounded/Place, Holds    indices as words; what a channel holds between operations
--   Unbounded/Spec, Refine, Tokio, Runs    the queue without a capacity, and that the channel implements it
--   Counter                `Counter`, `acquire` and `release` (src/counter.rs), as steps of threads
--   Counter/Sides, Steps, Runs    one side, what each step keeps, and any interleaving
--   Select                 `Operation` and `Selected` (src/select.rs)
--   Context, Context/Laws  `Context` (src/context.rs): one selection, and the wait for it
--   Context/Cache          `Context::with`: the context that a thread keeps between calls
--   Waker, Waker/*         `Waker` (src/waker.rs): the queue of blocked threads
--   Spinlock, Spinlock/Exclusion    `Spinlock` (src/utils.rs), as a step relation
--   Zero                   the state of src/zero.rs (`Packet`, `Channel`), `try_send`, `try_recv`, `shutdown`
--   Zero/Blocking          `_send` (here `send`) and `recv`
--   Zero/Tokio             `Stream::poll` and `Sink::start_send`
--   Zero/Wait, Meet         a call that blocks, and the call that selects it
--   Zero/Pair, Shut, Alone    a blocked thread's partner, a shutdown, and no partner
--   Zero/Timely, Poll      results of `recv` and `try_recv`, and the first poll of the `Stream`
--   Channel                `bounded`, `unbounded` and `zero` of src/channel.rs
--   Channel/Handles        an unbounded channel while its handles are released
--   Tests, Tests/*         concrete runs
--
-- How the code is modelled. `usize` has 64 bits, written out as `% 2 ^ 64` where the source wraps.
-- `start_send` and `start_recv` are steps of one atomic access each (`send_step`, `recv_step`) on
-- the channel and the thread's locals; the functions of the same names run these steps with no
-- other thread, with `fails` spurious failures of the weak compare-exchange. Their loops run on fuel,
-- and `2 * fails + 3` steps are enough. `wake_all` runs on the fuel 5, for the four tasks that its
-- queue can hold and the round that finds it empty. A slot that was never written holds no message;
-- a read of such memory, a failed assertion and fuel that runs out are `none`. A clock is the list
-- of times that it returns. The log `notified` stands for the calls of `Task::notify`.
-- In SerialWaker/Threads each step of a thread is one access, where a push or a pop of crossbeam's
-- queue is one access, and so is `positive_update`, at the compare-exchange that succeeds or the load
-- of 0; a schedule says who calls what and which thread moves.
--
-- In src/list.rs a pointer to a block is an address of a store, which counts the allocations; an access
-- of an address without a block, and a second free, are faults. A round of the loops of `start_send`
-- and `start_recv` is a function (`send_round`, `recv_round`) on the channel and the locals, and
-- `fails + 1` rounds are enough. `drop` runs on the fuel of two steps for each message and one more.
-- The counter of laps wraps with the index; a channel is bounded only by a full turn, 31 * 2 ^ 58
-- messages less 31, so that the tail does not meet the head again.
--
-- In src/counter.rs a handle is a pointer and nothing else, so a state counts the threads at each
-- point of `acquire` and `release`, and a schedule says which of them moves. A context of
-- src/context.rs is an index into a store; `wait_until` is given the selections of other threads
-- and the times that it reads, round by round. What one thread does with a queue of src/waker.rs is
-- one step, since the code holds it under a lock.
--
-- In src/zero.rs a packet is at an address of a memory, and a caller brings its thread, its context, the
-- address of its variable `zero` and that of its packet. A call that blocks is given what the other
-- threads do in the meantime, as a function on the state; if that selects nothing, the call does not
-- return (`none`). The reset of the context by `Context::with` is part of the registration.
--
-- A capacity is bounded by 2 ^ 62 - 1: beyond that `next_power_of_two` or `one_lap` overflows.
--
-- Not modelled: interference of several threads within one call of src/array.rs,
-- src/list.rs, or outside the critical sections of src/zero.rs, memory orderings,
-- the allocation of buffers, the text of errors, the conversions from crossbeam's errors and the
-- benchmarks.
pub mod Base
pub mod Word
pub mod Error
pub mod SerialWaker
pub mod Array
pub mod Unbounded
pub mod Counter
pub mod Select
pub mod Context
pub mod Waker
pub mod Spinlock
pub mod Zero
pub mod Channel
pub mod Tests
