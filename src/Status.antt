-- ===== src/Status.antt =====
-- pkg/controller/topologystatus/build.go: the status of a Topology from the labels of Nodes and
-- Switches.
pub mod Types
pub mod Labels
pub mod Names
pub mod Domains
pub mod Build
pub mod Examples
