-- ===== src/Audit.antt =====
-- proxy/src/audit.rs
pub mod Reason
pub mod Record
pub mod Request
pub mod Finish
