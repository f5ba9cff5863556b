-- ===== src/Proxy.antt =====
-- proxy/src/main.rs: `DenBrowserProxy` and its `request_filter`. The state that requests share is
-- passed in and returned. What other requests do to it between two locked steps of a call, what the
-- clocks read and what the resolver answers are arguments of the call.
pub mod Http
pub mod State
pub mod Steps
pub mod Filter
pub mod Refusals
pub mod Decision
pub mod Checks
pub mod Forwarded
pub mod Strip
pub mod Audited
pub mod OneUse
pub mod Exchange
pub mod Counting
pub mod Logged
pub mod Reached
