-- ===== src/Agent/Loop/Turn.antt =====
-- What `agentLoop` (internal/agent/runtime/agent_loop.go) does with an answer that calls no tool,
-- and the loop over the passes with its end.
use go_saas_api.Common.{
  ℕ, zero, suc, ◌+◌, String, true, false, not, ◌&&◌, Option, none, some, List, [], ◌∷◌, ◌++◌,
  if◌then◌else◌,
}
use go_saas_api.Common.Bytes.{Bytes}
use go_saas_api.Common.Bytes.Ascii.{ascii}
use go_saas_api.Common.Effect.{◌>>=◌, ◌>>◌, pure, fail, ok}
use go_saas_api.Flows.Question.{enforce_single_question, strip_flow_state_block}
use go_saas_api.Flows.State.{Metadata, get_status}
use go_saas_api.Flows.State.Update.{Calls, update_state, add_real_deliverables}
use go_saas_api.Llm.Chat as Chat
use go_saas_api.Llm.Chat.{ToolCall, Chunk, plain, content_chunk}
use go_saas_api.Llm.Pricing.{resolve_pricing, calculate_cost}
use go_saas_api.Agent.Quality.{Evaluation, should_evaluate, evaluate}
use go_saas_api.Agent.Loop.{
  Flow, api_integration_flow, other_flow, Row, assistant, UsageRecord, Environment, World, finished,
  Step, Locals, send, write, add_message,
}
use go_saas_api.Agent.Loop.Round.{
  is_api, Received, opened, visible_of_stream, raw_of_stream, add_usage, with_content, ask, receive,
  flush_rest,
}
use go_saas_api.Agent.Loop.Tools.{act}

abbrev pub max_agent_iterations : ℕ
max_agent_iterations = 10

-- activeFlow.UpdateState
abbrev pub flow_update : Calls → Flow → Metadata → Bytes → Metadata
flow_update calls api_integration_flow metadata content = update_state calls metadata content
flow_update calls (other_flow name update) metadata content = update metadata content

-- The files that the tools wrote are added in the API integration flow only.
abbrev pub flow_deliver : Flow → List String → Metadata → Metadata
flow_deliver api_integration_flow [] metadata = metadata
flow_deliver api_integration_flow (name ∷ names) metadata =
    add_real_deliverables metadata (name ∷ names)
flow_deliver (other_flow name update) names metadata = metadata

abbrev pub progress_chunk : Bytes → Chunk
progress_chunk content = record (content_chunk content) { event = "progress" }

abbrev pub done_chunk : Bytes → Chunk
done_chunk content = record (content_chunk content) { done = true }

-- The feedback of the gate, for the one retry.
abbrev pub with_feedback : (visible feedback : Bytes) → Locals → Locals
with_feedback visible feedback l = record l {
  messages = (l.messages ++ plain "assistant" visible ∷ []) ++ plain "system" feedback ∷ [];
  quality_retry_done = true;
}

-- The type of the flow, not its name.
abbrev pub final_content : Option Flow → (status : String) → Bytes → Bytes
final_content none status content = content
final_content (some api_integration_flow) status content =
    enforce_single_question (strip_flow_state_block content) status
final_content (some (other_flow name update)) status content = content

abbrev pub max_reached : Bytes
max_reached =
    10
    ∷ 10
    ∷ ascii
        "I've reached the maximum number of reasoning steps. Please continue the conversation if you need more work done."

-- The reason to answer again, if there is one.
abbrev pub reason_of : Evaluation → Option Bytes
reason_of eval = elim eval.reason [
  | [] ↦ none
  | b ∷ reason ↦ if eval.regenerate then some (b ∷ reason) else none
]

abbrev pub initial : List Chat.Message → Locals
initial messages = record {
  messages = messages;
  all_content = [];
  all_tool_calls = [];
  quality_retry_done = false;
  total_latency_ms = 0;
  total_input_tokens = 0;
  total_output_tokens = 0;
  real_deliverables = [];
}

module _ (env : Environment) where
  abbrev pub final_row : Bytes → Locals → Row
  final_row content l = record {
    conversation_id = env.conversation_id;
    role = assistant;
    content = content;
    tool_calls = l.all_tool_calls;
    tool_call_id = "";
    tool_name = "";
    model = env.agent.model;
    tokens_input = l.total_input_tokens;
    tokens_output = l.total_output_tokens;
    latency_ms = l.total_latency_ms;
  }

  unfoldable pub store_metadata : Option Flow → (raw : Bytes) → Locals → Step (Unit {0})
  unfolding write
  store_metadata none raw l = pure tt
  store_metadata (some flow) raw l = write env λ w. record w {
    stored =
        some (
          flow_deliver flow l.real_deliverables (flow_update env.flow_calls flow env.metadata raw));
  }

  abbrev pub usage_of : Locals → UsageRecord
  usage_of l = record {
    user_id = env.user_id;
    conversation_id = env.conversation_id;
    model = env.agent.model;
    tokens_input = l.total_input_tokens;
    tokens_output = l.total_output_tokens;
    latency_ms = l.total_latency_ms;
    cost_usd =
        calculate_cost (resolve_pricing env.normalize env.agent.model) l.total_input_tokens
          l.total_output_tokens;
  }

  -- `usageTracker.Record`, whose error is ignored.
  unfoldable pub track_usage : Locals → Step (Unit {0})
  unfolding write
  track_usage l =
      if env.tracked
      then write env (λ w. record w { records = w.records ++ usage_of l ∷ [] })
      else pure tt

  -- The row of the answer, the state of the flow and the usage, in this order.
  unfoldable pub save_answer : (content raw : Bytes) → Locals → Step (Unit {0})
  unfolding add_message store_metadata track_usage
  save_answer content raw l =
      add_message env (final_row content l)
      >> (store_metadata env.active_flow raw l >> track_usage l)

  -- The gate is asked while no retry was made, and only for code.
  abbrev pub judgement : (visible : Bytes) → World → Evaluation
  judgement visible w = evaluate env.gate (env.complete w.judgements) env.user_message visible

  unfoldable pub review : (visible : Bytes) → Locals → Step (Option Bytes)
  unfolding evaluate should_evaluate
  review visible l w =
      if not l.quality_retry_done && should_evaluate env.gate.to_lower env.agent.role visible
      then (ok (reason_of (judgement visible w)), record w { judgements = suc w.judgements })
      else (ok none, w)

  unfoldable pub conclude : (visible raw : Bytes) → Locals → Option Bytes → Step Locals
  unfolding save_answer send
  conclude visible raw l (some reason) =
      send env (progress_chunk env.progress) >> pure (with_feedback visible (env.feedback reason) l)
  conclude visible raw l none =
      let content =
        if is_api env.active_flow
        then enforce_single_question visible (get_status env.metadata)
        else visible in
      save_answer content raw l >> (send env (done_chunk []) >> fail finished)

  -- An answer without calls.
  unfoldable pub reply : (visible raw : Bytes) → Locals → Step Locals
  unfolding review conclude
  reply visible raw l =
      review visible (with_content visible l) >>= conclude visible raw (with_content visible l)

  unfoldable pub act_or_reply : List ToolCall → (visible raw : Bytes) → Locals → Step Locals
  unfolding act reply
  act_or_reply [] visible raw l = reply visible raw l
  act_or_reply (tc ∷ calls) visible raw l = act env tc calls visible l

  -- The totals behind an answer; the latency is that of the call before.
  unfoldable pub count_answer : Option Chat.Usage → (raw : Bytes) → Locals → Step Locals
  count_answer used raw l w = (
    ok (
        add_usage used raw
          (record l { total_latency_ms = l.total_latency_ms + env.latency w.asked })),
    w,
  )

  unfoldable pub settle : Received → Locals → Step Locals
  unfolding flush_rest count_answer act_or_reply
  settle r l = flush_rest env r.sanitizer >>= λ s.
      let visible = visible_of_stream s r.fallback_content in
      let raw = raw_of_stream s r.fallback_content in
      count_answer r.chunk_usage raw l >>= act_or_reply r.tool_calls visible raw

  -- One pass.
  unfoldable pub round : Locals → Step Locals
  unfolding ask receive settle
  round l = ask env l.messages >>= λ chunks.
      receive env chunks (opened env.active_flow env.metadata) >>= λ r. settle r l

  -- The end where no pass was the last: the client is told, and may be gone, before all is saved.
  unfoldable pub give_out : Locals → Step (Unit {0})
  unfolding send save_answer
  give_out l w =
      let content = l.all_content ++ max_reached in
      let saved = final_content env.active_flow (get_status env.metadata) content in
      save_answer saved content l (send env (done_chunk max_reached) w).1

  unfoldable pub rounds : ℕ → Locals → Step (Unit {0})
  unfolding round give_out
  rounds zero l = give_out l
  rounds (suc n) l = round l >>= rounds n

  unfoldable pub agent_loop : List Chat.Message → Step (Unit {0})
  unfolding rounds
  agent_loop messages = rounds max_agent_iterations (initial messages)
