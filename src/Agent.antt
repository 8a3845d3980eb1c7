-- ===== src/Agent.antt =====
-- internal/agent: the agent's runtime (runtime), and the gate that judges its answers (quality).
pub mod Sanitizer
pub mod Quality
pub mod Loop
pub mod Dispatcher
pub mod Store
pub mod Orchestrator
pub mod Http
