-- ===== src/Adapters.antt =====
-- adapters: the projections of a continuation to other protocols, and the HTTP interface.
pub mod Identifiers
pub mod Protocol
pub mod Payloads
pub mod A2a
pub mod Agui
pub mod Mcp
pub mod Http
mod Examples
