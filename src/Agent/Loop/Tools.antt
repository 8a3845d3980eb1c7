-- ===== src/Agent/Loop/Tools.antt =====
-- The calls of tools in one pass of `agentLoop` (internal/agent/runtime/agent_loop.go).
use go_saas_api.Common.{
  ℕ, suc, String, not, ◌&&◌, Option, none, some, List, [], ◌∷◌, ◌++◌, ◌==◌, string_eq,
  if◌then◌else◌,
}
use go_saas_api.Common.Assoc.{lookup}
use go_saas_api.Common.Bytes.{Bytes, starts_with}
use go_saas_api.Common.Bytes.Ascii.{ascii}
use go_saas_api.Common.Effect.{ok, ◌>>=◌, ◌>>◌, pure}
use go_saas_api.Flows.State.{Metadata, text_or}
use go_saas_api.Llm.Chat as Chat
use go_saas_api.Llm.Chat.{ToolCall, Chunk, plain, content_chunk}
use go_saas_api.Agent.Loop.Round.{with_content}
use go_saas_api.Agent.Loop.{
  ToolReply, replied, crashed, Tool, Row, assistant, tool, Environment, Step, Locals, send,
  add_message,
}

abbrev pub result_content : ToolReply → Bytes
result_content (crashed message) = ascii "Error: " ++ message
result_content (replied content []) = content
result_content (replied content (b ∷ error)) = ascii "Error: " ++ b ∷ error

abbrev pub run_tool : Option Tool → (missing : Bytes) → (call : ℕ) → Metadata → ToolReply
run_tool none missing call arguments = crashed missing
run_tool (some t) missing call arguments = t.execute call arguments

-- The file that a call of file_write has written.
unfoldable pub delivered : ToolCall → (content : Bytes) → List String
unfolding ascii
delivered tc [] = []
delivered tc (b ∷ content) =
    let name = text_or "" (lookup "name" tc.arguments) in
    if tc.name == "file_write"
      && not (starts_with (ascii "Error:") (b ∷ content))
      && not (name == "")
    then name ∷ []
    else []

abbrev pub tool_start : ToolCall → Chunk
tool_start tc = record (content_chunk []) {
  event = "tool_start";
  tool_name = tc.name;
  tool_call = some tc;
}

abbrev pub tool_result : ToolCall → Bytes → Chunk
tool_result tc content = record (content_chunk content) {
  event = "tool_result";
  tool_name = tc.name;
}

abbrev pub result_message : ToolCall → Bytes → Chat.Message
result_message tc content = record (plain "tool" content) { tool_call_id = tc.id; name = tc.name }

abbrev pub assistant_row : Environment → Bytes → List ToolCall → Row
assistant_row env content calls = record {
  conversation_id = env.conversation_id;
  role = assistant;
  content = content;
  tool_calls = calls;
  tool_call_id = "";
  tool_name = "";
  model = env.agent.model;
  tokens_input = 0;
  tokens_output = 0;
  latency_ms = 0;
}

abbrev pub tool_row : Environment → ToolCall → Bytes → Row
tool_row env tc content = record {
  conversation_id = env.conversation_id;
  role = tool;
  content = content;
  tool_calls = [];
  tool_call_id = tc.id;
  tool_name = tc.name;
  model = "";
  tokens_input = 0;
  tokens_output = 0;
  latency_ms = 0;
}

module _ (env : Environment) where
  -- A call without an id gets one, in the copy that the loop over the calls works on.
  unfoldable pub identified : ToolCall → Step ToolCall
  identified tc w = (ok (if tc.id == "" then record tc { id = env.new_id w.executed } else tc), w)

  -- `registry.Execute`
  unfoldable pub execute : ToolCall → Step Bytes
  execute tc w =
      let found = lookup tc.name env.registry in
      (
        ok (result_content (run_tool found (env.not_found tc.name) w.executed tc.arguments)),
        record w { executed = suc w.executed },
      )

  unfoldable pub call_tool : ToolCall → Locals → Step (Chat.Message × Locals)
  unfolding identified execute delivered
  call_tool call l = do
    tc ← identified call
    send env (tool_start tc)
    content ← execute tc
    send env (tool_result tc content)
    pure (
      result_message tc content,
      record l {
        real_deliverables = l.real_deliverables ++ delivered tc content;
        all_tool_calls = l.all_tool_calls ++ tc ∷ [];
      },
    )

  unfoldable pub call_tools : List ToolCall → Locals → Step (List Chat.Message × Locals)
  unfolding call_tool
  call_tools [] l = pure ([], l)
  call_tools (tc ∷ calls) l =
      call_tool tc l >>= λ (m, l'). call_tools calls l' >>= λ (ms, l''). pure (m ∷ ms, l'')

  -- A row for each call, with the content of the result at its place.
  unfoldable pub save_results : List ToolCall → List Chat.Message → Step (Unit {0})
  unfolding add_message
  save_results [] ms = pure tt
  save_results (tc ∷ calls) [] = add_message env (tool_row env tc []) >> save_results calls []
  save_results (tc ∷ calls) (m ∷ ms) =
      add_message env (tool_row env tc m.content) >> save_results calls ms

  -- An answer with calls: they are run, and the pass after this one gets their results. The row
  -- of the assistant has the first call only.
  unfoldable pub act : ToolCall → List ToolCall → (visible : Bytes) → Locals → Step Locals
  unfolding call_tools add_message save_results
  act tc calls visible l = do
    (results, l') ← call_tools (tc ∷ calls) (with_content visible l)
    add_message env (assistant_row env visible (tc ∷ []))
    save_results (tc ∷ calls) results
    pure (record l' {
      messages =
          l'.messages ++ record (plain "assistant" visible) { tool_calls = tc ∷ calls } ∷ results;
    })
