-- ===== src/Tests.antt =====
-- Runs of the code on small systems, in whole units: the theorems' hypotheses hold there.
pub mod Systems
pub mod Topologies
pub mod Iterations
pub mod Simulations
pub mod Brokers
pub mod Sources
pub mod Protocols
pub mod Controllers
pub mod Configurations
pub mod Gradients
pub mod Sections
pub mod Batches
pub mod Centrals
pub mod Records
pub mod Capacities
pub mod Certificates
pub mod Algorithms
