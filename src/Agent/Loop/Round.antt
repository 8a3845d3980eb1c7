-- ===== src/Agent/Loop/Round.antt =====
-- One pass of the loop in `agentLoop` (internal/agent/runtime/agent_loop.go): a request and its
-- chunks; Loop/Tools has the calls of tools, Loop/Turn what is done with an answer.
use go_saas_api.Common.{
  suc, ◌+◌, Bool, true, false, Option, none, some, List, [], ◌∷◌, ◌++◌, ◌==◌, string_eq,
  if◌then◌else◌,
}
use go_saas_api.Common.Bytes.{Bytes}
use go_saas_api.Common.Effect.{Result, ok, err, ◌>>=◌, ◌>>◌, pure}
use go_saas_api.Flows.State.{Metadata, get_status}
use go_saas_api.Llm.Chat as Chat
use go_saas_api.Llm.Chat.{
  ToolCall, Chunk, Request, Usage, content_chunk, estimate_tokens, estimate_request_tokens,
}
use go_saas_api.Agent.Sanitizer.{Sanitizer, fresh, process, flush, visible_content, raw_content}
use go_saas_api.Agent.Loop.{
  Flow, flow_name, Environment, World, Return, llm_failed, Step, Locals, send,
}

-- The name of the flow is that of the API integration.
abbrev pub is_api : Option Flow → Bool
is_api none = false
is_api (some flow) = flow_name flow == "api_integration"

-- What is gathered from the chunks of one answer.
pub record Received : Type 0 where
  pub sanitizer : Option Sanitizer
  pub fallback_content : Bytes
  pub tool_calls : List ToolCall
  pub chunk_usage : Option Usage

abbrev pub add_call : Option ToolCall → List ToolCall → List ToolCall
add_call none calls = calls
add_call (some tc) calls = calls ++ tc ∷ []

abbrev pub or_before : Option Usage → Option Usage → Option Usage
or_before none before = before
or_before (some u) before = some u

abbrev pub noted : Chunk → Received → Received
noted chunk r = record r {
  tool_calls = add_call chunk.tool_call r.tool_calls;
  chunk_usage = or_before chunk.usage r.chunk_usage;
}

abbrev pub sanitizer_for : Option Flow → Metadata → Option Sanitizer
sanitizer_for flow metadata =
    if is_api flow then some (fresh (get_status metadata == "collecting")) else none

abbrev pub opened : Option Flow → Metadata → Received
opened flow metadata = record {
  sanitizer = sanitizer_for flow metadata;
  fallback_content = [];
  tool_calls = [];
  chunk_usage = none;
}

abbrev pub visible_of_stream : Option Sanitizer → Bytes → Bytes
visible_of_stream none fallback = fallback
visible_of_stream (some s) fallback = visible_content s

abbrev pub raw_of_stream : Option Sanitizer → Bytes → Bytes
raw_of_stream none fallback = fallback
raw_of_stream (some s) fallback = raw_content s

abbrev pub add_usage : Option Usage → (raw : Bytes) → Locals → Locals
add_usage (some u) raw l = record l {
  total_input_tokens = l.total_input_tokens + u.prompt_tokens;
  total_output_tokens = l.total_output_tokens + u.completion_tokens;
}
add_usage none raw l = record l {
  total_input_tokens = l.total_input_tokens + estimate_request_tokens l.messages;
  total_output_tokens = l.total_output_tokens + estimate_tokens raw;
}

abbrev pub with_content : (visible : Bytes) → Locals → Locals
with_content visible l = record l { all_content = l.all_content ++ visible }

module _ (env : Environment) where
  -- The answer of the model: on an error the client is told, if it is there, and all is over.
  abbrev pub answered : Result Bytes (List Chunk) → World → Result Return (List Chunk) × World
  answered (ok chunks) w = (ok chunks, w)
  answered (err cause) w =
      let error = record (content_chunk (env.llm_error cause)) { event = "error"; done = true } in
      (err llm_failed, (send env error w).1)

  unfoldable pub ask : List Chat.Message → Step (List Chunk)
  unfolding send
  ask messages w =
      let request : Request = record {
        model = env.agent.model;
        messages = messages;
        tools = env.tool_defs;
      } in
      answered (env.stream w.asked request) (record w { asked = suc w.asked })

  unfoldable pub send_some : Bytes → Step (Unit {0})
  send_some [] = pure tt
  send_some (b ∷ out) = send env (content_chunk (b ∷ out))

  -- One chunk's content, through the sanitizer if there is one.
  unfoldable pub forward : Option Sanitizer → Bytes → Received → Step Received
  unfolding send_some
  forward s [] r = pure r
  forward none (b ∷ content) r =
      send env (content_chunk (b ∷ content))
      >> pure (record r { fallback_content = r.fallback_content ++ b ∷ content })
  forward (some s) (b ∷ content) r =
      send_some (process (b ∷ content) s).0
      >> pure (record r { sanitizer = some (process (b ∷ content) s).1 })

  unfoldable pub receive : List Chunk → Received → Step Received
  unfolding forward
  receive [] r = pure r
  receive (chunk ∷ chunks) r = forward r.sanitizer chunk.content r >>= λ r'.
      if chunk.done then pure (noted chunk r') else receive chunks (noted chunk r')

  unfoldable pub flush_rest : Option Sanitizer → Step (Option Sanitizer)
  unfolding send_some
  flush_rest none = pure none
  flush_rest (some s) = send_some (flush s).0 >> pure (some (flush s).1)
