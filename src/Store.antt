-- ===== src/Store.antt =====
-- src/runtime/kv_storage.h, typed keys and values over the bytes of a database.
pub mod Serde
pub mod Bytes
pub mod Database
pub mod Iterator
pub mod Storage
pub mod Open
pub mod Encoded
pub mod Refine
pub mod Iterating
pub mod Claims
pub mod Once
mod Tests
