-- ===== src/Queue.antt =====
-- qmanager/policies/base/queue_policy_base.hpp: the state of a queue and its operations.
pub mod Job
pub mod State
pub mod Pending
pub mod Provisional
pub mod Remove
pub mod Pop
pub mod Running
pub mod Ledger
pub mod Frame
pub mod Invariant
pub mod Behaviour
pub mod Transitions
pub mod Stuck
pub mod Params
