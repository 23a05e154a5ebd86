-- ===== src/Service.antt =====
-- application/continuation-service.ts
pub mod Token
pub mod Program
pub mod Inputs
pub mod Lookup
pub mod Outcomes
pub mod Expiry
pub mod Methods
pub mod Ensures
pub mod Interleaving
pub mod Bounded
pub mod Ending
pub mod Progress
pub mod Promises
pub mod Reads
pub mod Expiring
pub mod Resuming
pub mod Cancelling
pub mod Creating
pub mod Calls
pub mod Settled
pub mod Exclusive
pub mod Samples
mod Scenarios
