-- ===== src/Agent/Orchestrator.antt =====
-- `Orchestrator.Chat` of internal/agent/runtime/orchestrator.go, up to the start of the loop that
-- answers: the conversation, the row of the user's message, the flow and the messages to the model.
-- What is left to a parameter: the answers to questions about the time, the classification, the
-- agent of a role, the text of attached files, the names of the artifacts, and the prompts. The title
-- that is made in the background is left out.
use go_saas_api.Common.{
  ℕ, String, Bool, Option, none, some, List, [], ◌∷◌, ◌++◌, leb, ◌==◌, string_eq, if◌then◌else◌,
  find_by, length, take,
}
use go_saas_api.Common.Assoc.{lookup}
use go_saas_api.Common.Effect.{Result, ok, err, M, ◌>>=◌, ◌>>◌, pure, fail, map_error, attempt}
use go_saas_api.Common.Bytes.{Bytes}
use go_saas_api.Common.Bytes.Ascii.{ascii}
use go_saas_api.Flows.State.{Metadata, text_or}
use go_saas_api.Flows.Registry.{FlowKind, kind_name, detect_all}
use go_saas_api.Llm.Chat.{Message, plain}
use go_saas_api.Agent.Loop.{MessageRole, user, assistant, system, tool, Row}
use go_saas_api.Agent.Dispatcher.{PromptTexts, build_messages}
use go_saas_api.Agent.Store.{
  Conversation, Tables, DbError, Db, create_conversation, add_message, get_conversation,
  get_history,
}
pub mod History
pub mod Owner

pub data ChatError : Type 0 where
  load_conversation create_failed save_user_message load_history : DbError → ChatError
  not_owner no_capability : ChatError

pub record ChatRequest : Type 0 where
  pub user_id : String
  pub conversation_id : Option String
  pub content : Bytes
  pub selected_model : String
  pub user_context : Bytes
  pub mode : String

-- An agent: the model, and the texts of its prompt and role.
pub record ChatAgent : Type 0 where
  pub model : String
  pub system_prompt : Bytes
  pub role : Bytes

pub record ChatCalls : Type 0 where
  pub new_id : String
  pub temporal : Bytes → Option Bytes
  pub classify : Bytes → String × String
  pub to_lower : Bytes → Bytes
  pub registered : List FlowKind
  pub agent_for : (role : String) → ChatAgent
  pub file_context : Bytes
  pub website_prompt : Bytes
  pub website_tokens : (model : String) → Option ℕ
  pub artifacts : List Bytes
  pub texts : PromptTexts
  pub flow_prompt : FlowKind → ChatAgent → (user_context : Bytes) → Metadata → Bytes

-- How the answer begins: a text that is the whole answer, or a loop with its messages.
pub data Started : Type 0 where
  replied : (conversation : String) → (content : Bytes) → Started
  website : (conversation : String) → ChatAgent → (max_tokens : ℕ) → List Message → Started
  looped : (conversation : String) → ChatAgent → Option FlowKind → Metadata → List Message → Started

abbrev pub message_row : (conversation_id : String) → MessageRole → Bytes → Row
message_row conversation_id role content = record {
  conversation_id = conversation_id;
  role = role;
  content = content;
  tool_calls = [];
  tool_call_id = "";
  tool_name = "";
  model = "";
  tokens_input = 0;
  tokens_output = 0;
  latency_ms = 0;
}

abbrev is_named : String → FlowKind → Bool
is_named name flow = kind_name flow == name

-- `flowRegistry.Get`, for a name that is not empty: no flow has the empty name.
abbrev pub get_flow : String → List FlowKind → Option FlowKind
get_flow name flows = find_by (is_named name) flows

abbrev first_of : Option FlowKind → Option FlowKind → Option FlowKind
first_of none other = other
first_of (some f) other = some f

abbrev sure : Option FlowKind × ℕ → Option FlowKind
sure (found, score) = if leb 85 score then found else none

-- The flow: of the conversation, or of the classification, or one that is detected.
unfoldable pub choose_flow :
    List FlowKind
    → Metadata
    → (classified : String) → (lower : Bytes) → (history_len : ℕ) → Option FlowKind
unfolding detect_all
choose_flow flows metadata classified lower history_len =
    first_of (get_flow (text_or "" (lookup "flow" metadata)) flows)
      (first_of (get_flow classified flows) (sure (detect_all flows lower history_len)))

-- The rows that the prompts of flows keep: no calls of tools, and no results.
abbrev spoken : MessageRole → Bytes → List Message → List Message
spoken user content rest = plain "user" content ∷ rest
spoken system content rest = plain "system" content ∷ rest
spoken assistant content rest = plain "assistant" content ∷ rest
spoken tool content rest = rest

unfoldable pub spoken_rows : List Row → List Message
spoken_rows [] = []
spoken_rows (h ∷ history) = spoken h.role h.content (spoken_rows history)

abbrev metadata_or_none : Result DbError Conversation → Metadata
metadata_or_none (ok conv) = conv.metadata
metadata_or_none (err e) = []

abbrev pub with_model : String → ChatAgent → ChatAgent
with_model selected agent = if selected == "" then agent else record agent { model = selected }

-- fileContext + "\n\n" + content
abbrev pub with_files : Bytes → Bytes → Bytes
with_files [] content = content
with_files (b ∷ context) content = b ∷ context ++ (10 ∷ 10 ∷ content)

module _ (calls : ChatCalls) (req : ChatRequest) where
  -- The conversation that was named, if it is the user's own, or a new one.
  unfoldable pub conversation_for : Option String → M Tables ChatError String
  unfolding get_conversation create_conversation
  conversation_for none =
      map_error create_failed (create_conversation calls.new_id req.user_id (take 50 req.content))
      >>= λ conv. pure conv.id
  conversation_for (some id) = map_error load_conversation (get_conversation id) >>= λ conv.
      if conv.user_id == req.user_id then pure id else fail not_owner

  -- A website: the model has to be able to make one.
  abbrev pub start_website :
      String → ChatAgent → List Message → Option ℕ → M Tables ChatError Started
  start_website id agent messages none = fail no_capability
  start_website id agent messages (some tokens) = pure (website id agent tokens messages)

  abbrev website_agent : ChatAgent → ChatAgent
  website_agent agent = record agent {
    system_prompt = calls.website_prompt;
    role = ascii "website_agent";
  }

  abbrev dispatched : ChatAgent → List Row → List Message
  dispatched agent history =
      build_messages calls.texts agent.system_prompt agent.role history
        (with_files calls.file_context req.content) req.user_context calls.artifacts

  abbrev messages_for : Option FlowKind → ChatAgent → Metadata → List Row → List Message
  messages_for none agent metadata history = dispatched agent history
  messages_for (some flow) agent metadata history =
      plain "system" (calls.flow_prompt flow agent req.user_context metadata)
      ∷ (spoken_rows history ++ plain "user" (with_files calls.file_context req.content) ∷ [])

  -- What is done with the history.
  unfoldable pub start : String → Metadata → List Row → M Tables ChatError Started
  unfolding choose_flow spoken_rows build_messages
  start id metadata history =
      let (role, flow_name) = calls.classify req.content in
      let flow =
        choose_flow calls.registered metadata flow_name (calls.to_lower req.content)
          (length history) in
      let agent = with_model req.selected_model (calls.agent_for role) in
      if req.mode == "website_agent"
      then start_website id agent (dispatched (website_agent agent) history)
          (calls.website_tokens agent.model)
      else pure (looped id agent flow metadata (messages_for flow agent metadata history))

  abbrev answer_or_start : String → Metadata → Option Bytes → M Tables ChatError Started
  answer_or_start id metadata (some reply) =
      attempt (add_message (message_row id assistant reply)) >>= λ _. pure (replied id reply)
  answer_or_start id metadata none =
      map_error load_history (get_history id 50) >>= start id metadata

  unfoldable pub chat_in : Option String → M Tables ChatError Started
  unfolding conversation_for add_message get_history get_conversation start
  chat_in conversation_id = conversation_for conversation_id >>= λ id.
      attempt (get_conversation id) >>= λ found.
      map_error save_user_message (add_message (message_row id user req.content)) >>= λ _.
      answer_or_start id (metadata_or_none found) (calls.temporal req.content)

  unfoldable pub chat : M Tables ChatError Started
  unfolding chat_in
  chat = chat_in req.conversation_id
