-- ===== src/Distributed.antt =====
-- src/distributed: the workers of the distributed run.
pub mod Broker
pub mod Source
pub mod Settings
pub mod Protocol
pub mod Controller
pub mod Measures
pub mod Rounds
