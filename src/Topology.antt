-- ===== src/Topology.antt =====
-- pkg/topology/topology.go, a module for each stage of `DiscoverTopology`.
pub mod Types
pub mod Graph
pub mod Tiers
pub mod Normalize
pub mod Zones
pub mod Groups
pub mod Parents
pub mod Build
pub mod Pipeline
mod Examples
