-- ===== src/Translator.antt =====
-- app/translator.py: the translation between the Anthropic and the OpenAI protocol.
pub mod Tags
pub mod Stream
pub mod Compact
pub mod Turns
