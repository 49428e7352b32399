-- ===== src/TopologyLabel.antt =====
-- pkg/topologylabel/template.go: the templates of the label keys that carry a tier.
pub mod Types
pub mod Template
pub mod Language
pub mod Examples
