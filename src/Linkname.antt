-- ===== src/Linkname.antt =====
-- compiler/linkname and compiler/internal/symbol: `//go:linkname` directives. `Directive` reads one
-- comment, `Parse` a file, and `Set` collects the links of a program.
pub mod Directive
pub mod Fields
pub mod Symbol
pub mod Reading
pub mod Mitigated
pub mod Parse
pub mod Sound
pub mod Exact
pub mod Set
pub mod Links
pub mod Adding
mod Examples
