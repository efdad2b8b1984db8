-- ===== src/OpenAi.antt =====
-- app/translator_openai.py: the OpenAI-compatible endpoint's view of Anthropic messages and streams.
pub mod Tools
pub mod Messages
pub mod Stream
