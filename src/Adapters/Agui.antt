-- ===== src/Adapters/Agui.antt =====
-- adapters/agui/interrupt.ts
pub mod Preflight
pub mod Receipts
pub mod Issuing
pub mod Cohorts
pub mod Resuming
pub mod Distinct
pub mod Issued
pub mod Commands
pub mod Matching
pub mod Batches
pub mod Replays
pub mod Retries
pub mod Reordering
pub mod Answering
mod Examples
