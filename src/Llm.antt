-- ===== src/Llm.antt =====
-- pkg/llm: the clients of the model providers.
pub mod MultiClient
pub mod Chat
pub mod Pricing
