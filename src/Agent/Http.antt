-- ===== src/Agent/Http.antt =====
-- The endpoints of conversations: internal/agent/handler/conversation.go, `handleCreateChat` and
-- `handleGetChatWithMessages` of chat.go, and `getUserID` of helper.go. uuid.Parse and the binding
-- of a body are parameters; a limit is not negative; the list of a user's conversations
-- is left out.
use go_saas_api.Common.{
  ℕ, String, Option, none, some, List, [], ◌∷◌, ltb, ◌==◌, string_eq, if◌then◌else◌,
}
use go_saas_api.Common.Effect.{err, M, ◌>>=◌, ◌>>◌, pure, fail, map_error}
use go_saas_api.Common.Bytes.{Bytes}
use go_saas_api.Flows.State.{Metadata, text}
use go_saas_api.Agent.Loop.{Row}
use go_saas_api.Agent.Store.{
  Conversation, Tables, insert_conversation, get_by_id, update_row, delete_row,
  list_by_conversation,
}
pub mod Foreign

pub data Payload : Type 0 where
  conversation : Conversation → Payload
  chat : Conversation → List Row → Payload
  listed : List Row → Payload
  nothing : Payload

-- An answer that is no error is 200, or 201 for a chat that is created.
pub record HttpError : Type 0 where
  pub status : ℕ
  pub message : String

abbrev pub Handler : Type 0
Handler = M Tables HttpError Payload

abbrev pub answer_error : (status : ℕ) → String → HttpError
answer_error status message = record { status = status; message = message }

-- The body of an update and of a new chat, where it binds.
pub record UpdateBody : Type 0 where
  pub title : Bytes
  pub status : String

pub record ChatBody : Type 0 where
  pub title : Bytes
  pub model : String

pub data Endpoint : Type 0 where
  get_conversation get_chat delete_conversation : (id : String) → Endpoint
  list_messages : (id : String) → (limit : Option ℕ) → Endpoint
  update_conversation : (id : String) → Option UpdateBody → Endpoint
  create_chat : Option ChatBody → Endpoint

-- The limit of the query, 50 where there is none, and 100 at most.
abbrev capped : Option ℕ → ℕ
capped none = 50
capped (some limit) = if ltb 100 limit then 100 else limit

abbrev replaced_title : Bytes → Bytes → Bytes
replaced_title [] old = old
replaced_title (b ∷ title) old = b ∷ title

abbrev revised : UpdateBody → Conversation → Conversation
revised body conv = record conv {
  title = replaced_title body.title conv.title;
  status = if body.status == "" then conv.status else body.status;
}

abbrev metadata_of : (model : String) → Metadata
metadata_of model = if model == "" then [] else ("model", text model) ∷ []

abbrev pub with_uuid : Option String → (String → Handler) → Handler
with_uuid none body = fail (answer_error 400 "invalid id")
with_uuid (some u) body = body u

module _ (parse : String → Option String) (new_id : String) where
  -- The id of the path.
  abbrev with_id : String → (String → Handler) → Handler
  with_id id body = with_uuid (parse id) body

  unfoldable pub handle_get_conversation : String → Handler
  unfolding get_by_id
  handle_get_conversation id = with_id id λ u.
      map_error (λ e. answer_error 404 "conversation not found") (get_by_id u) >>= λ conv.
      pure (conversation conv)

  abbrev store_update : Conversation → Option UpdateBody → Handler
  store_update conv none = fail (answer_error 400 "invalid body")
  store_update conv (some body) =
      map_error (λ e. answer_error 500 "failed to update conversation")
        (update_row (revised body conv))
      >> pure (conversation (revised body conv))

  unfoldable pub handle_update_conversation : String → Option UpdateBody → Handler
  unfolding get_by_id update_row
  handle_update_conversation id body = with_id id λ u.
      map_error (λ e. answer_error 404 "conversation not found") (get_by_id u) >>= λ conv.
      store_update conv body

  unfoldable pub handle_delete_conversation : String → Handler
  unfolding delete_row
  handle_delete_conversation id = with_id id λ u.
      map_error (λ e. answer_error 500 "failed to delete conversation") (delete_row u)
      >> pure nothing

  unfoldable pub handle_list_messages : String → (limit : Option ℕ) → Handler
  unfolding list_by_conversation
  handle_list_messages id limit = with_id id λ u.
      map_error (λ e. answer_error 500 "failed to list messages")
        (list_by_conversation u (capped limit))
      >>= λ rows. pure (listed rows)

  unfoldable pub handle_get_chat_with_messages : String → Handler
  unfolding get_by_id list_by_conversation
  handle_get_chat_with_messages id = with_id id λ u.
      map_error (λ e. answer_error 404 "chat not found") (get_by_id u) >>= λ conv.
      map_error (λ e. answer_error 500 "failed to load messages") (list_by_conversation u 100)
      >>= λ rows. pure (chat conv rows)

  abbrev create_for : (user_id : String) → Option ChatBody → Handler
  create_for user_id none = fail (answer_error 400 "invalid body")
  create_for user_id (some body) =
      let conv : Conversation = record {
        id = new_id;
        user_id = user_id;
        title = body.title;
        status = "active";
        metadata = metadata_of body.model;
      } in
      map_error (λ e. answer_error 500 "failed to create chat") (insert_conversation conv)
      >> pure (conversation conv)

  -- `getUserID`: the header that the gateway sets, empty if it is missing.
  abbrev user_from : (header : String) → (String → Handler) → Handler
  user_from header body =
      if header == "" then fail (answer_error 401 "missing X-User-ID") else elim (parse header) [
        | none ↦ fail (answer_error 400 "invalid X-User-ID")
        | some u ↦ body u
      ]

  unfoldable pub handle_create_chat : (header : String) → Option ChatBody → Handler
  unfolding insert_conversation
  handle_create_chat header body = user_from header λ u. create_for u body

  -- A request with the header X-User-ID.
  unfoldable pub serve_chat : (header : String) → Endpoint → Handler
  unfolding handle_get_conversation handle_get_chat_with_messages handle_list_messages
      handle_delete_conversation handle_update_conversation handle_create_chat
  serve_chat header (get_conversation id) = handle_get_conversation id
  serve_chat header (get_chat id) = handle_get_chat_with_messages id
  serve_chat header (list_messages id limit) = handle_list_messages id limit
  serve_chat header (delete_conversation id) = handle_delete_conversation id
  serve_chat header (update_conversation id body) = handle_update_conversation id body
  serve_chat header (create_chat body) = handle_create_chat header body
