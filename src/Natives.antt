-- ===== src/Natives.antt =====
-- compiler/natives/src: the parts of Go's standard library that GopherJS replaces.
mod Bits
mod Slices
mod Strings
mod Counting
mod Finding
mod Repeating
mod Semaphore
mod Waking
mod Atomic
mod ValueTypes
mod MapHash
mod Chunks
mod Examples
mod Words
mod Division
mod Shifting
mod Divide
