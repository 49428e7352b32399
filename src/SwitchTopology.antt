-- ===== src/SwitchTopology.antt =====
-- pkg/controller/switchtopology: the labels that the discovered topology gives to Nodes and Switches.
pub mod Types
pub mod Labels
pub mod DomainNames
pub mod ResourceNames
pub mod Objects
pub mod Inputs
pub mod Plan
pub mod Discovered
pub mod Build
pub mod Apply
pub mod Examples
