-- ===== src/Receiver.antt =====
-- include/tdlua/common/receiver.h, class Runtime: the shared receiver of every VM of the process.
-- State holds its data, Demand the leases and interests, Generic the bounded buffer of generic
-- envelopes, Publish the routing of one envelope, Lifecycle the owners, clients and the worker
-- thread, Worker the rounds of the worker's loop.
pub mod State
pub mod Demand
pub mod Interest
pub mod Lifecycle
pub mod Generic
pub mod Publish
pub mod Leases
pub mod Failure
pub mod Registration
pub mod Detachment
pub mod Shutdown
pub mod Receive
pub mod Worker
pub mod Sends
pub mod Status
