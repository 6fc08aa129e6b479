-- ===== src/Lib.antt =====
-- A verification library for `oneshot`, a channel that carries one message from one sender to one
-- receiver. The two endpoints share one heap object and coordinate through one atomic byte; the last
-- endpoint that uses the object frees it.
--
-- The program and the files that model it
--
--   src/states.rs    the five values of the byte: States.
--   src/channel.rs   `Channel<T>` with its state, message and waker fields: Memory, as a record with a
--                    `Slot` for a `MaybeUninit` field; its methods, one effect each, and
--                    `write_async_waker`: Channel.
--   src/sender.rs    `send`, `is_closed`, `Drop`: Sender. `SendError` of src/errors.rs, which takes over
--                    the sender's end, stands there too (`into_inner`, `as_inner`, `drop_error`).
--   src/receiver.rs  `try_recv`, `recv`, `recv_ref`, `start_recv_ref`, `is_closed`, `has_message`,
--                    `Drop`: Receiver. `recv_timeout`, `recv_deadline`, `wait_for_unpark`:
--                    Receiver.Timed. The future's `poll`, `is_closed`, `has_message`, `Drop`:
--                    Receiver.Async.
--   src/waker.rs     Waker; `ReceiverWaker::unpark` is `Sender.unpark`.
--   src/errors.rs    the receive errors: Errors; the texts that the errors print: Errors.Texts.
--   src/atomic.rs    the operations on `AtomicU8` that the source makes, with their orderings: Atomic.
--   src/lib.rs       `channel`, `async_channel` and `dealloc` over a heap of channels: Endpoints, with
--                    the endpoints' structs and raw pointers in Endpoints.Sender, Endpoints.Receiver
--                    and Endpoints.AsyncReceiver. In a program of one channel `dealloc` is the effect
--                    `Channel.dealloc`, and the new object is `fresh`.
--   src/loombox.rs   the `Box` of builds for the loom checker: LoomBox, over the blocks of a heap
--                    (LoomBox.Blocks), its comparisons (LoomBox.Comparison), and its `Display`,
--                    `Debug` and `Hash` (LoomBox.Contents). loom's allocator and the traits of the
--                    content are parameters.
--
-- How the code is modelled
--
--   A function is a `Program` (Program): the sequence of its effects, each with its continuation. Between
--   two effects the other endpoint may act. `unreachable!()` is a program of its own. A match on the
--   state is a chain of tests of the value that was read, in the order of the source's arms. The arms of
--   a long match are definitions of their own: `recv_parked` and `recv_swapped` for `recv`,
--   `recv_expired`, `recv_deadline_round` and `recv_deadline_parked` for `recv_deadline`,
--   `poll_receiving`, `poll_exchange_error` and `poll_unparking` for `poll`.
--
--   Memory gives each effect its meaning. An access to freed memory, the read of a field that holds
--   nothing and, in the model `release_acquire`, a conflicting access that is not ordered by
--   happens-before are faults. What is overwritten or freed with a value in it counts as a leak.
--   Memory.HappensBefore keeps, for each thread, which cells of the other thread's accesses it has
--   synchronised with, what the state carries for it (with release sequences: an RMW continues one, a
--   store ends it), and what a fence would take in. Both models let every load of the byte read its
--   latest value; a load that reads an older value is not modelled.
--
--   Machine runs two programs over one memory, one effect at a time in any order. `park` consumes a
--   token or blocks, and may return spuriously; `park_timeout` never blocks; time passes at any moment.
--   Machine.Schedule runs given orders, Machine.Effects and Machine.Counting count effects.
--
-- How the theorems are organised
--
--   Protocol is an abstract specification of the two endpoints: phases of each (Phases), the operations
--   a phase allows and what they may answer (SenderRules, ReceiverRules), and what a pair of phases
--   says of the memory (Agreement). Conformance takes the source's methods one by one through the
--   rules; Soundness takes a step of the machine through the agreement. Client composes the methods
--   into the uses that the types of the crate allow: calls that borrow an endpoint, then one that
--   consumes it or makes it a future; Client.Promised and Client.Refusals put a test between them.
--   Delivery draws the consequences for two threads, Delivery.Promises those that the documentation
--   states. Promptness follows the receiver from the sender's last operation on and counts the effects
--   that are left; Promptness.Conclusion runs such a receiver to its end, for Delivery.Termination,
--   Delivery.Returns and, with a future, Delivery.FutureReturns. LoomBox.Lifetime and
--   LoomBox.Separation are about one box and about boxes beside each other; Endpoints.Channels uses
--   them. Flaws has two schedules that end in a fault. Tests applies the theorems at concrete
--   inputs.
--
-- Bounds
--
--   The state is a byte, `fetch_add` wraps at 256. Each loop of the receiver runs on fuel, of which a
--   round uses one; `out_of_fuel` is not an end of the program. A statement that needs fuel says how
--   much: fuel above the number of the receiver's effects is never used up, and once the sender's
--   thread has ended eight effects for each call, for each use of a future and for the end are
--   enough.
--   An `Instant` is a number of ticks, and `checked_add` fails beyond the last instant.
--
-- Not modelled
--
--   The derived instances of the errors and structs; the `park_timeout` of src/thread.rs for loom, which yields, as a `park_timeout`
--   here may return at once; the builds without the features `std` and `async`, which leave out
--   functions; panics in the destructor of a message or in a task's waker; the benchmarks, examples
--   and tests.
pub mod Prelude
pub mod States
pub mod Waker
pub mod Atomic
pub mod Program
pub mod Memory
pub mod Errors
pub mod Channel
pub mod Sender
pub mod Receiver
pub mod Machine
pub mod Protocol
pub mod Conformance
pub mod Soundness
pub mod Client
pub mod Promptness
pub mod LoomBox
pub mod Endpoints
pub mod Delivery
pub mod Flaws
pub mod Tests
