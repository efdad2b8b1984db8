-- ===== src/Keys.antt =====
-- app/config.py: the credential pools, their rotation, and the providers.
pub mod State
pub mod Rotation
pub mod Qwen
pub mod Custom
pub mod Add
pub mod Remove
pub mod Active
pub mod Providers
pub mod Catalog
pub mod Cooldown
pub mod Journal
pub mod Boot
pub mod Listing
mod Tests
