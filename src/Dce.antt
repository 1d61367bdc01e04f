-- ===== src/Dce.antt =====
-- compiler/internal/dce: dead-code elimination. `Info` is info.go, `Collector` is collector.go,
-- `Selector` is selector.go; `Live` says which declarations have to stay.
pub mod Info
pub mod Collector
pub mod Selector
pub mod Live
mod Invariant
mod Including
mod Selecting
mod Rounds
pub mod Correct
pub mod Order
pub mod Collecting
mod Examples
