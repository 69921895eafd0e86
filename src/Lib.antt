-- ===== src/Lib.antt =====
-- The receiver, the doorbells and the readiness registry of tdlua, a Lua binding of TDLib.
--
-- One worker thread reads TDLib for all clients. `receiver::Runtime` (include/tdlua/common/receiver.h)
-- starts and stops it on demand, decides which envelopes are kept, and puts them in the `Mailbox` of
-- their client; a client takes them out. Updates that nobody waits for are bounded by `GenericTicket`s.
-- `IdentityHistory` remembers each client id ever registered. `ReadinessHub` maps clients to owners (Lua
-- states) and rings an owner's `WakeTarget`, a kernel object that an event loop can wait on.
-- `FailureCleanup` keeps a record of each client that TDLib may still hold; when the receiver fails, its
-- thread drains the ledger: it closes clients, waits for their ends and reports them.
--
-- Which file models which part:
--   Prelude         lists, maps and tests over the native numbers
--   Identity        include/tdlua/common/identity_history.h
--   Ticket          include/tdlua/common/receiver.h, GenericTicket and its metrics
--   Mailbox         include/tdlua/common/receiver.h, Mailbox
--   Receiver        include/tdlua/common/receiver.h, Runtime: State (members), Demand and Interest
--                   (leases, one-shots, retention interests), Lifecycle (owners, clients, stop, join,
--                   failure), Generic (the bounded buffer), Publish (routing), Worker (the loop of the
--                   worker), Receive (a client's wait), Sends (the admission of a send, with the
--                   ledger), Status (the snapshot); Leases, Failure, Registration,
--                   Detachment and Shutdown (what holds of them)
--   Wake            include/tdlua/common/wake.h
--   Readiness       include/tdlua/common/readiness.h
--   View            include/tdlua/common/readiness_view.h, ReadinessView and its watch
--   Cleanup         include/tdlua/common/failure_cleanup.h, FailureCleanup: Queues (the intrusive queues),
--                   Ledger (the operations), Drain (the drain of a failed receiver); Cores, Counters,
--                   Laws, Invariant, Retirement, Change, Steps, Entry, Shut, Pins, Reached and
--                   Drained (what holds of them)
--   Examples        concrete runs
--
-- Each operation keeps the name of its function, in snake case; a function that holds a mutex is one
-- step. State is passed and returned. An exception is a value of Outcome, or `none`, beside the state
-- it leaves. Objects that C++ shares by shared_ptr stand in a store: tickets by address in `Buffers`,
-- mailboxes by client id in `Runtime`. Maps are association lists sorted by key. A time is a number of
-- clock ticks. What the system, the clock, a hook or another thread answers is an argument, in the
-- order of the questions. A call that starts the worker is told whether the thread can be created, and
-- a lease, a send or a subscription whether there is memory for what it allocates: `Means`, `Memory`
-- and `Heap`. Other allocations are taken to succeed.
--
-- Assumed of the system: a write to a doorbell would block only while the kernel object is full, and a
-- full object is readable.
--
-- Bounds: counters are natural numbers, and do not reach 2 ^ 64; the subtraction of an atomic wraps.
-- Identities are 32-bit and blocks 64-bit. `pop_until` runs on a list of wake-ups and `clear` on a list
-- of the answers of reads, so neither needs fuel; the loops of the generic buffer are recursions on the
-- fifo. A drain runs on a list of rounds, in which other threads, TDLib and the clock have their say; a
-- record of the ledger is pointed to by its id.
--
-- Not modelled: the request router and its scheduler, the runtime's `classifyForRetention`, the client
-- pump; the two backends, the Lua bindings and the C host interface, which are glue to libraries
-- outside the repository; memory orders weaker than sequential consistency.
pub mod Prelude
pub mod Identity
pub mod Ticket
pub mod Mailbox
pub mod Receiver
pub mod Cleanup
pub mod View
pub mod Wake
pub mod Readiness
pub mod Examples
