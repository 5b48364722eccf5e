-- ===== src/Control.antt =====
-- src/controller: Algorithm 1 and its parts.
pub mod Central
pub mod BestResponse
pub mod Synchronous
pub mod Feasibility
pub mod Diagnostics
pub mod Algorithm
