-- ===== src/Examples.antt =====
-- Concrete parameters and inputs for the theorems on proxy/src.
mod Toy
mod Parameters
mod Attested
mod Forwarding
mod Replayed
mod Limited
mod Named
mod Expanded
mod Closed
mod Started
pub mod Served
