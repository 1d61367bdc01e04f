-- ===== src/Build.antt =====
-- build/build.go and compiler/astutil: the merge of the native overlays into the files of a package
-- of the standard library.
pub mod Syntax
pub mod Directives
pub mod Squeeze
pub mod Finalize
pub mod Imports
pub mod Overlay
pub mod Original
pub mod Gathering
pub mod Declared
pub mod Pruned
pub mod Hollow
pub mod Values
pub mod Emptied
pub mod Fates
pub mod Augmenting
pub mod Keys
pub mod Overriding
pub mod Signing
pub mod Overlaid
pub mod OverlaidFiles
pub mod Apart
pub mod Merged
pub mod Unused
pub mod Blanking
pub mod Imported
pub mod Pruning
pub mod Parsed
pub mod Total
pub mod Matching
mod Examples
pub mod Kept
pub mod Keeping
