-- ===== src/Analysis.antt =====
-- compiler/internal/analysis: which functions and statements may block.
pub mod Info
pub mod Propagate
pub mod MayBlock
pub mod Entries
pub mod Visiting
pub mod Absorbing
pub mod Invariant
pub mod Shrinking
pub mod Visits
pub mod Exact
pub mod Propagated
pub mod Control
pub mod Growing
pub mod Marking
pub mod Statements
pub mod Finished
pub mod Looping
pub mod Quiet
pub mod Whole
pub mod BoolValue
pub mod Search
pub mod Reaching
pub mod Walking
pub mod Searching
mod Examples
