-- ===== src/Ports.antt =====
-- The ports of the program, ports/: what the service is given by its host.
pub mod Failure
pub mod Platform
pub mod Observer
pub mod EventStore
