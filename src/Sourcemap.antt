-- ===== src/Sourcemap.antt =====
-- internal/sourcemapx: source map hints inside the generated code, and the writer that takes them
-- out again. `Hint` is hint.go and identifier.go, `Filter` is filter.go.
pub mod Hint
pub mod Filter
pub mod HintLaws
mod Lines
pub mod Stream
pub mod Filtering
pub mod Ending
pub mod Mapping
pub mod Placing
mod Examples
