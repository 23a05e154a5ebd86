-- ===== src/Domain.antt =====
-- The domain of the program, domain/: types, events, errors and the lifecycle reducer.
pub mod Types
pub mod Events
pub mod Errors
pub mod Reducer
mod Examples
