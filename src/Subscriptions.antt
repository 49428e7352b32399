-- ===== src/Subscriptions.antt =====
-- The streams of LLDP snapshots from the switches: pkg/controller/switchtopology/subscription_manager.go.
pub mod Manager
pub mod Snapshots
pub mod Examples
