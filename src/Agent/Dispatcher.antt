-- ===== src/Agent/Dispatcher.antt =====
-- The messages that a model is sent (internal/agent/runtime/dispatcher.go), from the rows of the
-- conversation. The fixed texts of the prompt are parameters.
use go_saas_api.Common.{List, [], ◌∷◌, ◌++◌}
use go_saas_api.Common.Bytes.{Bytes}
use go_saas_api.Common.Bytes.Ascii.{ascii}
use go_saas_api.Llm.Chat.{Message, plain}
use go_saas_api.Agent.Loop.{MessageRole, user, assistant, system, tool, Row}

-- The paragraph before the names of the artifacts, and the one at the end.
pub record PromptTexts : Type 0 where
  pub workspace_awareness : Bytes
  pub tool_discipline : Bytes

-- strings.Join
unfoldable pub join : (separator : Bytes) → List Bytes → Bytes
join separator [] = []
join separator (s ∷ []) = s
join separator (s ∷ t ∷ rest) = s ++ (separator ++ join separator (t ∷ rest))

abbrev base_prompt : (system_prompt role : Bytes) → Bytes
base_prompt [] role = role
base_prompt (b ∷ prompt) role = b ∷ prompt

abbrev workspace : PromptTexts → List Bytes → Bytes
workspace texts [] = []
workspace texts (name ∷ names) =
    texts.workspace_awareness ++ (join (ascii ", ") (name ∷ names) ++ 10 ∷ [])

abbrev user_part : Bytes → Bytes
user_part [] = []
user_part (b ∷ context) = 10 ∷ ascii "USER CONTEXT:" ++ (10 ∷ b ∷ context ++ 10 ∷ [])

unfoldable pub build_system_prompt :
    PromptTexts
    → (system_prompt role : Bytes) → (artifacts : List Bytes) → (user_context : Bytes) → Bytes
unfolding join ascii
build_system_prompt texts system_prompt role artifacts user_context =
    base_prompt system_prompt role
    ++ (workspace texts artifacts ++ (user_part user_context ++ texts.tool_discipline))

-- A row as a message to the model.
abbrev pub message_of : MessageRole → Row → Message
message_of user h = plain "user" h.content
message_of system h = plain "system" h.content
message_of assistant h = record (plain "assistant" h.content) { tool_calls = h.tool_calls }
message_of tool h = record (plain "tool" h.content) {
  tool_call_id = h.tool_call_id;
  name = h.tool_name;
}

unfoldable pub from_rows : List Row → List Message
from_rows [] = []
from_rows (h ∷ history) = message_of h.role h ∷ from_rows history

unfoldable pub build_messages :
    PromptTexts
    → (system_prompt role : Bytes) → (history : List Row) → (user_message user_context : Bytes)
    → (artifacts : List Bytes) → List Message
unfolding build_system_prompt from_rows
build_messages texts system_prompt role history user_message user_context artifacts =
    plain "system" (build_system_prompt texts system_prompt role artifacts user_context)
    ∷ (from_rows history ++ plain "user" user_message ∷ [])
