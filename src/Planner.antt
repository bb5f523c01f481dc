-- ===== src/Planner.antt =====
-- resource/planner: how much of one resource is free when, kept as scheduled points in time.
pub mod State
pub mod Points
pub mod Avail
pub mod Spans
pub mod Lifecycle
pub mod Walk
pub mod View
pub mod Usage
pub mod Describes
pub mod Steps
pub mod Sound
pub mod Attach
pub mod Window
pub mod Fits
pub mod Entering
pub mod AddSpan
pub mod Adding
pub mod Release
pub mod Subtract
pub mod RemSpan
pub mod Reduce
pub mod Fresh
pub mod Total
pub mod Serve
pub mod Answers
pub mod Least
pub mod Search
pub mod Found
pub mod Reaching
pub mod Succeeds
pub mod Tree
