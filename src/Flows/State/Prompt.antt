-- ===== src/Flows/State/Prompt.antt =====
-- `BuildMessages` of internal/agent/flows/api_integration.go. The fixed text of the prompt, and that
-- of the fields, are a parameter.
use go_saas_api.Common.{
  String, not, Option, none, some, List, [], ◌∷◌, ◌++◌, ◌==◌, string_eq, if◌then◌else◌,
}
use Prim.Native.String as Text
use go_saas_api.Common.Assoc.{lookup}
use go_saas_api.Flows.State.{Slice, Metadata, suggested_options, ApiIntegrationState, load_state}

-- What the prompt tells the model to do next.
pub data Instruction : Type 0 where
  ask : (field : String) → (suggested : Option (List String)) → Instruction
  generate_documents : Instruction

unfoldable pub next_instruction : Slice → Instruction
next_instruction none = generate_documents
next_instruction (some []) = generate_documents
next_instruction (some (field ∷ rest)) = ask field (lookup field suggested_options)

pub data MessageRole : Type 0 where
  user assistant system tool : MessageRole

pub record Message : Type 0 where
  pub role : MessageRole
  pub content : String

-- A message to the model (llm.Message).
pub record LlmMessage : Type 0 where
  pub role : String
  pub content : String

abbrev said : MessageRole → (content : String) → List LlmMessage → List LlmMessage
said user content rest = record { role = "user"; content = content } ∷ rest
said system content rest = record { role = "system"; content = content } ∷ rest
said assistant content rest = record { role = "assistant"; content = content } ∷ rest
said tool content rest = rest

unfoldable pub from_history : List Message → List LlmMessage
from_history [] = []
from_history (h ∷ history) = said h.role h.content (from_history history)

-- Joined texts: the prompt of the agent before, the context of the user after.
abbrev framed : (agent_prompt user_context content : String) → String
framed agent_prompt user_context content =
    let whole =
      if not (agent_prompt == "")
      then Text.◌++◌ agent_prompt (Text.◌++◌ "\n\n" content)
      else content in
    if not (user_context == "") then Text.◌++◌ whole (Text.◌++◌ "\n" user_context) else whole

unfoldable pub build_messages :
    (ApiIntegrationState → Instruction → String)
    → (agent_prompt : String) → List Message
    → (user_message user_context : String) → Metadata
    → List LlmMessage
unfolding from_history next_instruction load_state
build_messages render agent_prompt history user_message user_context metadata =
    let state = load_state metadata in
    (record {
      role = "system";
      content =
          framed agent_prompt user_context (render state (next_instruction state.missing_fields));
    }
      ∷ from_history history)
    ++ record { role = "user"; content = user_message } ∷ []
