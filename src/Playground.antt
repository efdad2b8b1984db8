-- ===== src/Playground.antt =====
-- app/routers/playground.py: what is kept of an answer before it is shown and stored.
pub mod Stripper
