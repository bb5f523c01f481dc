-- ===== src/Policy.antt =====
-- qmanager/policies: the scheduling loops.
pub mod Fcfs
pub mod Backfill
pub mod Dispatch
pub mod Outcome
pub mod Params
pub mod Invariant
pub mod FcfsInvariant
pub mod BackfillInvariant
