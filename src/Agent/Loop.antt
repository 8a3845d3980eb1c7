-- ===== src/Agent/Loop.antt =====
-- `agentLoop` of internal/agent/runtime/agent_loop.go: what it works with. The loop itself is in
-- Loop/Round and Loop/Tools (one pass) and Loop/Turn (all of them). Its model, its tools, the
-- quality gate's model and the clock answer by the number of their call; `taken n` says whether
-- the client is still there for the n-th chunk that is offered to it, and `writes n` whether the
-- n-th write to the database goes well. Ids and times of the rows that are written are left out.
use go_saas_api.Common.{ℕ, suc, ◌+◌, String, Bool, Option, List, [], ◌∷◌, ◌++◌, if◌then◌else◌}
use go_saas_api.Common.Effect.{Result, ok, err, M}
use go_saas_api.Common.Bytes.{Bytes}
use go_saas_api.Flows.State.{Metadata}
use go_saas_api.Flows.State.Update.{Calls}
use go_saas_api.Llm.Chat as Chat
use go_saas_api.Llm.Chat.{ToolCall, Chunk, Request}
use go_saas_api.Agent.Quality.{AgentRole, GateCalls}
pub mod Round
pub mod Tools
pub mod Turn
pub mod Closed
pub mod Passes
pub mod Bounds
pub mod Ending
pub mod Ended
pub mod Billed
pub mod Reread

-- The flow of the conversation: the one that collects fields, or another, by its methods.
pub data Flow : Type 0 where
  api_integration_flow : Flow
  other_flow : (name : String) → (update : Metadata → Bytes → Metadata) → Flow

abbrev pub flow_name : Flow → String
flow_name api_integration_flow = "api_integration"
flow_name (other_flow name update) = name

-- A tool returns a result, of which a non-empty `error` is reported, or fails.
pub data ToolReply : Type 0 where
  replied : (content error : Bytes) → ToolReply
  crashed : (message : Bytes) → ToolReply

pub record Tool : Type 0 where
  pub execute : (call : ℕ) → (arguments : Metadata) → ToolReply

pub record Agent : Type 0 where
  pub role : AgentRole
  pub model : String

pub data MessageRole : Type 0 where
  user assistant system tool : MessageRole

-- A row of the table of messages.
pub record Row : Type 0 where
  pub conversation_id : String
  pub role : MessageRole
  pub content : Bytes
  pub tool_calls : List ToolCall
  pub tool_call_id : String
  pub tool_name : String
  pub model : String
  pub tokens_input : ℕ
  pub tokens_output : ℕ
  pub latency_ms : ℕ

-- usage.Record
pub record UsageRecord : Type 0 where
  pub user_id : String
  pub conversation_id : String
  pub model : String
  pub tokens_input : ℕ
  pub tokens_output : ℕ
  pub latency_ms : ℕ
  pub cost_usd : ℕ

-- What the loop calls, and what it is called with. `not_found` and `llm_error` are the texts of
-- two errors, `tracked` says whether there is a usage tracker.
pub record Environment : Type 0 where
  pub stream : ℕ → Request → Result Bytes (List Chunk)
  pub complete : ℕ → Bytes → Option Bytes
  pub latency : ℕ → ℕ
  pub taken : ℕ → Bool
  pub writes : ℕ → Bool
  pub new_id : ℕ → String
  pub registry : List (String × Tool)
  pub not_found : (tool : String) → Bytes
  pub llm_error : (cause : Bytes) → Bytes
  pub progress : Bytes
  pub feedback : (reason : Bytes) → Bytes
  pub normalize : String → String
  pub gate : GateCalls
  pub flow_calls : Calls
  pub tracked : Bool
  pub agent : Agent
  pub tool_defs : List Chat.ToolDefinition
  pub conversation_id : String
  pub user_id : String
  pub user_message : Bytes
  pub active_flow : Option Flow
  pub metadata : Metadata

-- What the loop leaves: the chunks that the client took, the rows, the metadata that was stored,
-- the usage that was recorded, and the number of calls of each kind.
pub record World : Type 0 where
  pub sent : List Chunk
  pub rows : List Row
  pub stored : Option Metadata
  pub records : List UsageRecord
  pub offered : ℕ
  pub asked : ℕ
  pub judgements : ℕ
  pub executed : ℕ
  pub written : ℕ

-- Why the function has returned.
pub data Return : Type 0 where
  client_gone llm_failed finished : Return

abbrev pub Step : Type 0 → Type 0
Step A = M World Return A

-- The variables that live through the passes.
pub record Locals : Type 0 where
  pub messages : List Chat.Message
  pub all_content : Bytes
  pub all_tool_calls : List ToolCall
  pub quality_retry_done : Bool
  pub total_latency_ms : ℕ
  pub total_input_tokens : ℕ
  pub total_output_tokens : ℕ
  pub real_deliverables : List String

module _ (env : Environment) where
  -- select { case outCh <- chunk: case <-ctx.Done(): return }
  unfoldable pub send : Chunk → Step (Unit {0})
  send chunk w =
      if env.taken w.offered
      then (ok tt, record w { sent = w.sent ++ chunk ∷ []; offered = suc w.offered })
      else (err client_gone, record w { offered = suc w.offered })

  -- A write that may fail; the caller ignores the error.
  unfoldable pub write : (World → World) → Step (Unit {0})
  write change w =
      let counted = record w { written = suc w.written } in
      (ok tt, if env.writes w.written then change counted else counted)

  unfoldable pub add_message : Row → Step (Unit {0})
  unfolding write
  add_message row = write (λ w. record w { rows = w.rows ++ row ∷ [] })
