-- ===== src/TypeParams.antt =====
-- compiler/internal/typeparams: the map and the sets that are keyed by instances of generic types.
pub mod Instance
pub mod Same
pub mod InstanceMap
pub mod Bucket
pub mod Placing
pub mod Deleting
pub mod Apart
pub mod MapLaws
pub mod Answers
pub mod Promised
pub mod InstanceSet
pub mod Numbering
pub mod Ids
pub mod Draining
mod Examples
