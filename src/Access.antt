-- ===== src/Access.antt =====
-- Who may use the gateway: the console's login and its sessions, and the callers' keys.
pub mod Store
pub mod Login
pub mod Keys
pub mod Caller
