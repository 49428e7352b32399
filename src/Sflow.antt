-- ===== src/Sflow.antt =====
-- pkg/sflow: flow records and the Pods that their addresses belong to.
pub mod Types
pub mod PodIps
pub mod Cache
pub mod Decoder
pub mod Examples
