-- ===== src/Hub.antt =====
-- The emulated root hub: `dummy_hub_status`, `dummy_hub_control`, `dummy_bus_suspend` and
-- `dummy_bus_resume` of patch/kernel/dummy_hcd.c.
pub mod Port
pub mod Control
pub mod Defined
pub mod Reset
