-- ===== src/Llm/Chat.antt =====
-- The messages to a model and the chunks of its answer (pkg/llm/client.go), with the estimate of
-- their tokens (tokens.go). A chunk's artifact, which only the website agent sends, is left out, and
-- so are the temperature and the limits of a request, which are constants.
use Prim.Native.String.{len}
use go_saas_api.Common.{ℕ, ◌+◌, ◌/◌, String, Bool, false, Option, none, List, [], ◌∷◌, length}
use go_saas_api.Common.Bytes.{Bytes}
use go_saas_api.Flows.State.{Metadata}

-- The arguments of a tool are a JSON object, as metadata is.
pub record ToolCall : Type 0 where
  pub id : String
  pub name : String
  pub arguments : Metadata

pub record Message : Type 0 where
  pub role : String
  pub content : Bytes
  pub tool_calls : List ToolCall
  pub tool_call_id : String
  pub name : String

abbrev pub plain : (role : String) → (content : Bytes) → Message
plain role content = record {
  role = role;
  content = content;
  tool_calls = [];
  tool_call_id = "";
  name = "";
}

pub record ToolDefinition : Type 0 where
  pub name : String
  pub description : String
  pub parameters : Metadata

pub record Request : Type 0 where
  pub model : String
  pub messages : List Message
  pub tools : List ToolDefinition

pub record Usage : Type 0 where
  pub prompt_tokens : ℕ
  pub completion_tokens : ℕ

pub record Chunk : Type 0 where
  pub content : Bytes
  pub done : Bool
  pub tool_call : Option ToolCall
  pub event : String
  pub tool_name : String
  pub usage : Option Usage

-- llm.Chunk{Content: content}
abbrev pub content_chunk : Bytes → Chunk
content_chunk content = record {
  content = content;
  done = false;
  tool_call = none;
  event = "";
  tool_name = "";
  usage = none;
}

unfoldable pub estimate_tokens : Bytes → ℕ
estimate_tokens text = length text / 4

-- `len` of a text is the number of the bytes of its UTF-8.
unfoldable pub estimate_calls : List ToolCall → ℕ
estimate_calls [] = 0
estimate_calls (tc ∷ calls) = len tc.name / 4 + estimate_calls calls

unfoldable pub estimate_request_tokens : List Message → ℕ
unfolding estimate_tokens estimate_calls
estimate_request_tokens [] = 0
estimate_request_tokens (m ∷ msgs) =
    estimate_tokens m.content + estimate_calls m.tool_calls + estimate_request_tokens msgs
