-- ===== src/Storage.antt =====
-- adapters/storage: how events are stored, and the stores.
pub mod Numerals
pub mod Codec
pub mod Serialization
pub mod Contract
pub mod Memory
pub mod Sqlite
pub mod Postgres
mod Examples
