-- ===== src/Agent/Orchestrator/Owner.antt =====
-- Who may chat in a conversation (internal/agent/runtime/orchestrator.go).
use go_saas_api.Common.{
  String, ◌≡◌, ◌≢◌, refl, sym, subst, ◌⊎◌, inl, inr, Bool, true, false, some, List, [], ◌∷◌, ◌==◌,
  string_eq, Bool-cases, find_by,
}
use go_saas_api.Common.Effect.{Result, err, ◌>>=◌, map_error}
use go_saas_api.Agent.Loop.{Row}
use go_saas_api.Agent.Store.{
  Conversation, Tables, db_error, has_id, call, get_by_id, get_conversation,
}
use go_saas_api.Agent.Orchestrator.{
  ChatCalls, ChatRequest, ChatError, load_conversation, not_owner, Started, conversation_for,
  chat_in, chat,
}

-- The tables but for the faults that are left.
abbrev pub SameRows : Tables → Tables → Type 0
SameRows t t' = (t'.conversations ≡ t.conversations) × (t'.messages ≡ t.messages)

abbrev tables : List Conversation → List Row → List Bool → Tables
tables conversations messages faults = record {
  conversations = conversations;
  messages = messages;
  faults = faults;
}

abbrev pub IsRefused : Tables → Result ChatError Started × Tables → Type 0
IsRefused t r = ((r.0 ≡ err not_owner) ⊎ (r.0 ≡ err (load_conversation db_error))) × SameRows t r.1

refused :
    (calls : ChatCalls) (req : ChatRequest) (id : String) (conv : Conversation)
    (cs : List Conversation) (ms : List Row) (faults : List Bool)
    → find_by (has_id id) cs ≡ some conv
    → (conv.user_id == req.user_id) ≡ false
    → IsRefused (tables cs ms faults) (chat_in calls req (some id) (tables cs ms faults))
unfolding chat_in conversation_for get_conversation get_by_id call map_error ◌>>=◌
refused calls req id conv cs ms [] found stranger = rw (found, stranger) (inl refl, (refl, refl))
refused calls req id conv cs ms (true ∷ faults) found stranger = (inr refl, (refl, refl))
refused calls req id conv cs ms (false ∷ faults) found stranger =
    rw (found, stranger) (inl refl, (refl, refl))

-- In a conversation of another user a chat is refused, or fails with the database, and leaves no
-- row.
pub chat-not_owner :
    (calls : ChatCalls) (req : ChatRequest) (id : String) (conv : Conversation) (t : Tables)
    → req.conversation_id ≡ some id
    → find_by (has_id id) t.conversations ≡ some conv
    → conv.user_id ≢ req.user_id
    → IsRefused t (chat calls req t)
unfolding chat
chat-not_owner calls req id conv t named found other =
    subst (λ c. IsRefused t (chat_in calls req c t)) (sym named)
      (refused calls req id conv t.conversations t.messages t.faults found stranger)
  where
    stranger : (conv.user_id == req.user_id) ≡ false
    stranger = elim (Bool-cases (conv.user_id == req.user_id)) [
      | inl same ↦ absurd (other ((string_eq.equals_iff conv.user_id req.user_id).0 same))
      | inr differs ↦ differs
    ]
