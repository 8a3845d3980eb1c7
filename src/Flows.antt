-- ===== src/Flows.antt =====
-- internal/agent/flows: the conversation flows of the agent.
pub mod Question
pub mod State
pub mod Registry
