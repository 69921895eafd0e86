-- ===== src/Examples.antt =====
-- Concrete runs of the model: each applies a result to a small state.
mod Stores
mod Queues
mod Hubs
mod Doorbells
mod Routing
mod Failures
mod Buffering
mod Workers
mod Clients
mod Receives
mod Cleanups
mod Sends
mod Views
