-- ===== src/Examples/Agents.antt =====
-- The agent's loop and its chats, at concrete data.
use go_saas_api.Common.{
  ℕ, zero, suc, ◌+◌, ◌≤◌, ◌≡◌, refl, String, true, none, some, List, [], ◌∷◌, ◌++◌, arith, take,
  Has, ne_of_beq, string_eq,
}
use go_saas_api.Common.Assoc.{lookup}
use go_saas_api.Common.Bytes.{index_of, starts_with}
use go_saas_api.Common.Bytes.Ascii.{ascii}
use go_saas_api.Common.Effect.{ok}
use go_saas_api.Common.Effect.Triple.{After}
use go_saas_api.Flows.State.{text}
use go_saas_api.Flows.State.Update.{Calls}
use go_saas_api.Flows.Registry.{
  FlowKind, proposal, code_review, detect_all, detect_from, detect, holds_any,
}
use go_saas_api.Flows.Registry.Best.{detect_all-best, IsFound, Matches}
use go_saas_api.Llm.Chat as Chat
use go_saas_api.Llm.Chat.{ToolCall, Chunk, Request, plain, content_chunk}
use go_saas_api.Agent.Quality.{coder, GateCalls}
use go_saas_api.Agent.Loop.{Row, user, replied, Tool, Environment, World}
use go_saas_api.Agent.Loop.Tools.{act}
use go_saas_api.Agent.Loop.Turn.{initial, agent_loop, max_agent_iterations}
use go_saas_api.Agent.Loop.Bounds.{agent_loop_bounds}
use go_saas_api.Agent.Loop.Ended.{Ended, agent_loop-Ended}
use go_saas_api.Agent.Loop.Billed.{IsBilled, Bill, agent_loop-IsBilled}
use go_saas_api.Agent.Loop.Reread.{IsReread, act-IsReread}
use go_saas_api.Agent.Dispatcher.{from_rows}
use go_saas_api.Agent.Store.{Conversation}
use go_saas_api.Agent.Orchestrator.{
  ChatCalls, ChatRequest, ChatAgent, choose_flow, looped, message_row, with_files, start, chat,
}
use go_saas_api.Agent.Orchestrator.Owner.{IsRefused, chat-not_owner}
use go_saas_api.Agent.Orchestrator.History.{quiet, of_conversation, chat-forgets, chat-twice}
use go_saas_api.Agent.Http as Http
use go_saas_api.Agent.Http.{
  conversation, nothing, get_conversation, get_chat, delete_conversation, serve_chat,
}
use go_saas_api.Agent.Http.Foreign.{serve_chat-foreign}

abbrev write_call : (id name : String) → ToolCall
write_call id name = record { id = id; name = "file_write"; arguments = ("name", text name) ∷ [] }

-- The model calls a tool, and then answers.
abbrev answer : ℕ → List Chunk
answer zero =
    record (content_chunk (ascii "Writing.")) { tool_call = some (write_call "c1" "a.md") }
    ∷ record (content_chunk []) {
      done = true;
      usage = some (record { prompt_tokens = 40; completion_tokens = 9 });
    }
    ∷ []
answer (suc n) =
    content_chunk (ascii "func main() {}") ∷ record (content_chunk []) { done = true } ∷ []

abbrev writer : Tool
writer = record { execute = λ n arguments. replied (ascii "written") [] }

abbrev flow_calls : Calls
flow_calls = record { unmarshal = λ s. none; to_lower = λ s. s; ranged = λ xs. xs }

abbrev gate : GateCalls
gate = record { to_lower = λ s. s; unmarshal = λ s. none; prompt = λ a b. b }

abbrev env : Environment
env = record {
  stream = λ n request. ok (answer n);
  complete = λ n prompt. none;
  latency = λ n. 5;
  taken = λ n. true;
  writes = λ n. true;
  new_id = λ n. "new";
  registry = ("file_write", writer) ∷ [];
  not_found = λ name. ascii "tool not found";
  llm_error = λ cause. ascii "LLM error";
  progress = ascii "Again";
  feedback = λ reason. reason;
  normalize = λ name. name;
  gate = gate;
  flow_calls = flow_calls;
  tracked = true;
  agent = record { role = coder; model = "gpt-4o" };
  tool_defs = [];
  conversation_id = "v1";
  user_id = "u1";
  user_message = ascii "Write it.";
  active_flow = none;
  metadata = [];
}

abbrev empty : World
empty = record {
  sent = [];
  rows = [];
  stored = none;
  records = [];
  offered = 0;
  asked = 0;
  judgements = 0;
  executed = 0;
  written = 0;
}

abbrev question : List Chat.Message
question = plain "user" (ascii "Write it.") ∷ []

agent_loop_bounds_example :
    ((agent_loop env question empty).1.asked ≤ 0 + max_agent_iterations)
    × ((agent_loop env question empty).1.judgements ≤ 0 + 1)
agent_loop_bounds_example = agent_loop_bounds env question empty

agent_loop-Ended_example : Ended [] (agent_loop env question empty).1.sent
agent_loop-Ended_example = agent_loop-Ended env question empty (λ n. refl)

agent_loop-IsBilled_example :
    After (λ _ w'. IsBilled env [] w'.records w'.rows) (Bill env []) (agent_loop env question empty)
agent_loop-IsBilled_example = agent_loop-IsBilled env question empty refl (λ n. refl)

act-IsReread_example :
    After
      (λ l' w'.
        IsReread env
          (write_call "c1" "a.md")
          (write_call "" "b.md" ∷ [])
          (ascii "Writing.")
          question
          l'.messages
          []
          w'.rows)
      (λ e w'. ⊥)
      (act env
        (write_call "c1" "a.md")
        (write_call "" "b.md" ∷ [])
        (ascii "Writing.")
        (initial question)
        empty)
act-IsReread_example =
    act-IsReread env (write_call "c1" "a.md") (write_call "" "b.md" ∷ []) (ascii "Writing.")
      (initial question) empty (λ n. refl) (λ n. refl)

detect_all-best_example :
    IsFound
      (ascii "review my code")
      4
      (proposal ∷ code_review ∷ [])
      (detect_all (proposal ∷ code_review ∷ []) (ascii "review my code") 4)
    × ((f : FlowKind) (score : ℕ)
        → Has f (proposal ∷ code_review ∷ [])
        → Matches (ascii "review my code") 4 f score
        → score ≤ (detect_all (proposal ∷ code_review ∷ []) (ascii "review my code") 4).1)
detect_all-best_example = detect_all-best (ascii "review my code") 4 (proposal ∷ code_review ∷ [])

abbrev chat_calls : ChatCalls
chat_calls = record {
  new_id = "v9";
  temporal = λ s. none;
  classify = λ s. ("assistant", "");
  to_lower = λ s. s;
  registered = proposal ∷ code_review ∷ [];
  agent_for = λ role. record { model = "gpt-4o"; system_prompt = ascii "Help."; role = ascii role };
  file_context = [];
  website_prompt = ascii "Site.";
  website_tokens = λ model. none;
  artifacts = [];
  texts = record { workspace_awareness = ascii "Files: "; tool_discipline = ascii "Tools." };
  flow_prompt = λ flow agent context metadata. ascii "Flow.";
}

abbrev asks : (user_id : String) → ChatRequest
asks user_id = record {
  user_id = user_id;
  conversation_id = some "v1";
  content = ascii "Hi";
  selected_model = "";
  user_context = [];
  mode = "";
}

abbrev talk : Conversation
talk = record { id = "v1"; user_id = "u1"; title = ascii "Talk"; status = "active"; metadata = [] }

abbrev row : Row
row = message_row "v1" user (ascii "Hello")

abbrev times : ℕ → List Row
times zero = []
times (suc n) = row ∷ times n

chat-not_owner_example :
    IsRefused (quiet (talk ∷ []) []) (chat chat_calls (asks "u2") (quiet (talk ∷ []) []))
chat-not_owner_example =
    chat-not_owner chat_calls (asks "u2") "v1" talk (quiet (talk ∷ []) []) refl refl
      (ne_of_beq "u1" "u2" refl)

chat-forgets_example :
    ((chat chat_calls (asks "u1") (quiet (talk ∷ []) (times 50 ++ row ∷ []))).0
      ≡ (chat chat_calls (asks "u1") (quiet (talk ∷ []) (times 50))).0)
    × ((chat chat_calls (asks "u1") (quiet (talk ∷ []) (times 50))).0
        ≡ (start chat_calls
            (asks "u1")
            "v1"
            []
            (take 50 (of_conversation "v1" (times 50)))
            (quiet (talk ∷ []) (times 50))).0)
chat-forgets_example =
    chat-forgets chat_calls (asks "u1") "v1" talk (talk ∷ []) (times 50) (row ∷ []) refl refl refl
      refl (omega arith)

chat-twice_example :
    (agent : ChatAgent) × (prompt : Chat.Message) × ((chat chat_calls
        (asks "u1")
        (quiet (talk ∷ []) (row ∷ []))).0
      ≡ ok (
          looped "v1" agent none [] (
            (prompt ∷ from_rows (of_conversation "v1" (row ∷ [])))
            ++ plain "user" (ascii "Hi") ∷ plain "user" (with_files [] (ascii "Hi")) ∷ [])))
unfolding choose_flow detect_all detect_from detect holds_any index_of starts_with ascii lookup
chat-twice_example =
    chat-twice chat_calls (asks "u1") "v1" talk (talk ∷ []) (row ∷ []) refl refl refl refl
      (omega arith) refl (ne_of_beq "" "website_agent" refl)

serve_chat-foreign_example :
    ((serve_chat some "v9" "u2" (get_chat "v1") (quiet (talk ∷ []) (row ∷ []))).0
      ≡ ok (Http.chat talk (take 100 (of_conversation "v1" (row ∷ [])))))
    × ((serve_chat some "v9" "u2" (delete_conversation "v1") (quiet (talk ∷ []) (row ∷ []))).0
        ≡ ok nothing)
    × ((serve_chat some "v9" "u3"
          (get_conversation "v1")
          (serve_chat some "v9" "u2" (delete_conversation "v1") (quiet (talk ∷ []) (row ∷ []))).1).0
        ≡ ok (conversation (record talk { status = "deleted" })))
serve_chat-foreign_example =
    serve_chat-foreign some "v9" "u2" "u3" "v1" "v1" talk (talk ∷ []) (row ∷ []) refl refl
