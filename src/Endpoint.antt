-- ===== src/Endpoint.antt =====
-- The endpoint operations that the controller offers to gadget drivers (`dummy_ep_ops` of
-- patch/kernel/dummy_hcd.c). A pointer that may be null is an `Option`.
pub mod Enable
pub mod Queue
pub mod Halt
pub mod Legal
pub mod Owned
pub mod Cancel
pub mod Stall
