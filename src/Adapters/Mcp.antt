-- ===== src/Adapters/Mcp.antt =====
-- adapters/mcp/elicitation.ts
pub mod Urls
pub mod Schemas
pub mod Definitions
pub mod Requests
pub mod Issuing
pub mod Results
pub mod Trust
pub mod Issued
pub mod Shown
pub mod Bound
pub mod Outcomes
mod Examples
