-- ===== src/Nosync.antt =====
-- nosync: the stand-ins for package sync in a program with one thread. A method is a function from
-- the object to the object and the panic that it raises, if any: what was written before a panic
-- stays written.
pub mod Method
pub mod Mutex
pub mod RwMutex
pub mod WaitGroup
pub mod Once
pub mod Pool
pub mod Keys
pub mod Map
pub mod Answering
mod Examples
