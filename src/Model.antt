-- ===== src/Model.antt =====
-- src/model: rates and capacities, marginal costs.
pub mod MarginalCosts
pub mod Dynamics
pub mod Symmetric
pub mod Modes
pub mod Sections
pub mod Topology
