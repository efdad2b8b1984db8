-- ===== src/Proxy.antt =====
-- app/routers/proxy.py: what follows a failed attempt, the policy of a router key, and its routes.
pub mod Retry
pub mod Policy
pub mod Route
pub mod Dispatch
mod Tests
