-- ===== src/Adapters/Http.antt =====
-- adapters/http/app.ts
pub mod Errors
pub mod Requests
pub mod Handlers
pub mod Projections
pub mod Projected
pub mod Answers
pub mod Traffic
pub mod Readiness
mod Examples
