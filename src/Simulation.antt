-- ===== src/Simulation.antt =====
-- src/simulation: the discrete-event simulation of the queues.
pub mod Queues
pub mod Events
pub mod Engine
pub mod Handler
