-- ===== src/Agent/Orchestrator/History.antt =====
-- The history that a chat is answered from (internal/agent/runtime/orchestrator.go, session.go and
-- `ListByConversation` of internal/agent/store/postgres.go).
use mathlib.Core.List.{append_assoc}
use go_saas_api.Common.{
  ℕ, ◌≤◌, ◌<◌, String, ◌≡◌, ◌≢◌, refl, sym, ap, ◌∙◌, inl, inr, Bool, true, false, Option, none,
  some, List, [], ◌∷◌, ◌++◌, arith, ◌==◌, string_eq, nat_eq, beq_refl, Bool-cases, find_by,
  filter_by, any_by, length, length-append, take, take_all, take-append-le,
}
use go_saas_api.Common.Effect.{ok, ◌>>=◌, map_error, attempt}
use go_saas_api.Flows.State.{Metadata}
use go_saas_api.Flows.Registry.{FlowKind}
use go_saas_api.Llm.Chat.{Message, plain}
use go_saas_api.Agent.Loop.{user, Row}
use go_saas_api.Agent.Dispatcher.{build_system_prompt, build_messages, message_of, from_rows}
use go_saas_api.Agent.Store.{
  Conversation, Tables, has_id, is_of, call, get_by_id, get_conversation, insert_message,
  add_message, list_by_conversation, get_history,
}
use go_saas_api.Agent.Orchestrator.{
  ChatCalls, ChatRequest, looped, message_row, with_model, with_files, ChatAgent, conversation_for,
  choose_flow, start_website, start, chat_in, chat,
}

-- Tables of which no call fails.
abbrev pub quiet : List Conversation → List Row → Tables
quiet conversations messages = record {
  conversations = conversations;
  messages = messages;
  faults = [];
}

abbrev pub of_conversation : String → List Row → List Row
of_conversation id messages = filter_by (is_of id) messages

filter_by-append :
    {A : Type 0} (p : A → Bool) (xs ys : List A)
    → filter_by p (xs ++ ys) ≡ filter_by p xs ++ filter_by p ys
filter_by-append p [] ys = refl
filter_by-append p (x ∷ xs) ys = elim (Bool-cases (p x)) [
  | inl holds ↦ rw holds (ap (λ l. x ∷ l) (filter_by-append p xs ys))
  | inr not_it ↦ rw not_it (filter_by-append p xs ys)
]

any_by-find_by :
    {A : Type 0} (p : A → Bool) (xs : List A) (a : A) → find_by p xs ≡ some a → any_by p xs ≡ true
any_by-find_by p [] a e = cc
any_by-find_by p (x ∷ xs) a e = ground (arith, any_by-find_by p xs a)

module _ (calls : ChatCalls) (req : ChatRequest) (id : String) (conv : Conversation) where
  -- The start of an answer leaves the tables, and does not read them.
  start-any :
      (metadata : Metadata) (history : List Row) (t t' : Tables)
      → (start calls req id metadata history t).0 ≡ (start calls req id metadata history t').0
  unfolding start
  start-any metadata history t t' = elim (Bool-cases (req.mode == "website_agent")) [
    | inl site ↦ rw site (started _ _ (calls.website_tokens _))
    | inr other ↦ rw other refl
  ]
    where
      started :
          (agent : ChatAgent) (messages : List Message) (tokens : Option ℕ)
          → (start_website calls req id agent messages tokens t).0
            ≡ (start_website calls req id agent messages tokens t').0
      started agent messages none = refl
      started agent messages (some n) = refl

  -- A chat in the user's own conversation is started from the first fifty rows of the conversation,
  -- of which the row that it writes is the last.
  chat_in-start :
      (cs : List Conversation) (ms : List Row)
      → find_by (has_id id) cs ≡ some conv
      → (conv.user_id == req.user_id) ≡ true
      → calls.temporal req.content ≡ none
      → (chat_in calls req (some id) (quiet cs ms)).0
        ≡ (start calls req id conv.metadata
            (take 50 (of_conversation id (ms ++ message_row id user req.content ∷ [])))
            (quiet cs (ms ++ message_row id user req.content ∷ []))).0
  unfolding chat_in conversation_for get_conversation get_by_id call map_error attempt add_message
      insert_message get_history list_by_conversation ◌>>=◌
  chat_in-start cs ms found own timeless =
      rw (found, own, found, any_by-find_by (has_id id) cs conv found, timeless) (rw found refl)

  -- In a conversation of the user that has fifty rows or more: whatever rows are added to it, or
  -- to others, a chat, where it is no question about the time and the database does not fail, is
  -- answered from the same history as without them, the row of its own message left out too.
  pub chat-forgets :
      (cs : List Conversation) (ms later : List Row)
      → req.conversation_id ≡ some id
      → find_by (has_id id) cs ≡ some conv
      → conv.user_id ≡ req.user_id
      → calls.temporal req.content ≡ none
      → 50 ≤ length (of_conversation id ms)
      → ((chat calls req (quiet cs (ms ++ later))).0 ≡ (chat calls req (quiet cs ms)).0)
        × ((chat calls req (quiet cs ms)).0
            ≡ (start calls req id conv.metadata (take 50 (of_conversation id ms)) (quiet cs ms)).0)
  unfolding chat
  chat-forgets cs ms later named found own timeless full = (
    same (ms ++ later) (
          rw (filter_by-append (is_of id) ms later)
            (rw (length-append (of_conversation id ms) (of_conversation id later)) (omega arith)))
        ∙ ap (λ h. (start calls req id conv.metadata h (quiet cs ms)).0)
            (rw (filter_by-append (is_of id) ms later)
              (take-append-le 50 (of_conversation id ms) (of_conversation id later) full))
        ∙ sym (same ms full),
    same ms full,
  )
    where
      mine : (conv.user_id == req.user_id) ≡ true
      mine = (string_eq.equals_iff conv.user_id req.user_id).1 own

      same :
          (rows : List Row)
          → 50 ≤ length (of_conversation id rows)
          → (chat_in calls req req.conversation_id (quiet cs rows)).0
            ≡ (start calls req id conv.metadata (take 50 (of_conversation id rows)) (quiet cs ms)).0
      same rows enough =
          ap (λ c. (chat_in calls req c (quiet cs rows)).0) named
          ∙ chat_in-start cs rows found mine timeless
          ∙ start-any conv.metadata _ _ (quiet cs ms)
          ∙ ap (λ h. (start calls req id conv.metadata h (quiet cs ms)).0)
              (rw (filter_by-append (is_of id) rows (message_row id user req.content ∷ [])) (
                take-append-le 50 (of_conversation id rows)
                  (of_conversation id (message_row id user req.content ∷ [])) enough))

  from_rows-append : (xs ys : List Row) → from_rows (xs ++ ys) ≡ from_rows xs ++ from_rows ys
  unfolding from_rows
  from_rows-append [] ys = refl
  from_rows-append (x ∷ xs) ys = ap (λ ms. message_of x.role x ∷ ms) (from_rows-append xs ys)

  -- The flow of a chat with this history.
  abbrev flow_of : List Row → Option FlowKind
  flow_of history =
      choose_flow calls.registered conv.metadata (calls.classify req.content).1
        (calls.to_lower req.content) (length history)

  -- In a conversation of the user with fewer than fifty rows, and with no flow, no website, no
  -- question about the time and no fault of the database: the message of the user is the last of the
  -- history that the model is sent, and is sent once more behind it, with the attached files.
  pub chat-twice :
      (cs : List Conversation) (ms : List Row)
      → req.conversation_id ≡ some id
      → find_by (has_id id) cs ≡ some conv
      → conv.user_id ≡ req.user_id
      → calls.temporal req.content ≡ none
      → length (of_conversation id ms) < 50
      → flow_of (of_conversation id (ms ++ message_row id user req.content ∷ [])) ≡ none
      → req.mode ≢ "website_agent"
      → (agent : ChatAgent) × (prompt : Message) × ((chat calls req (quiet cs ms)).0
          ≡ ok (
              looped id agent none conv.metadata (
                (prompt ∷ from_rows (of_conversation id ms))
                ++ plain "user" req.content
                  ∷ plain "user" (with_files calls.file_context req.content)
                  ∷ [])))
  unfolding chat start build_messages from_rows
  chat-twice cs ms named found own timeless short no_flow other = (
    agent,
    plain "system" (
        build_system_prompt calls.texts agent.system_prompt agent.role calls.artifacts
          req.user_context),
    ap (λ c. (chat_in calls req c (quiet cs ms)).0) named
        ∙ chat_in-start cs ms found ((string_eq.equals_iff conv.user_id req.user_id).1 own) timeless
        ∙ ap
            (λ h.
              (start calls req id conv.metadata h
                (quiet cs (ms ++ message_row id user req.content ∷ []))).0)
            (take_all 50 (of_conversation id (ms ++ message_row id user req.content ∷ []))
              (rw (rows) (rw (length-append (of_conversation id ms) _) (omega arith))))
        ∙ rw (plainly, no_flow)
            (ap
              (λ (rest : List Message). ok (
                looped id agent none conv.metadata (
                  plain "system" (
                    build_system_prompt calls.texts agent.system_prompt agent.role calls.artifacts
                      req.user_context)
                  ∷ rest)))
              sent),
  )
    where
      agent : ChatAgent
      agent = with_model req.selected_model (calls.agent_for (calls.classify req.content).0)

      plainly : (req.mode == "website_agent") ≡ false
      plainly = elim (Bool-cases (req.mode == "website_agent")) [
        | inl site ↦ absurd (other ((string_eq.equals_iff req.mode "website_agent").0 site))
        | inr not_site ↦ not_site
      ]

      rows :
          of_conversation id (ms ++ message_row id user req.content ∷ [])
          ≡ of_conversation id ms ++ message_row id user req.content ∷ []
      rows =
          filter_by-append (is_of id) ms (message_row id user req.content ∷ [])
          ∙ rw (beq_refl id) refl

      sent :
          from_rows (of_conversation id (ms ++ message_row id user req.content ∷ []))
            ++ plain "user" (with_files calls.file_context req.content) ∷ []
          ≡ from_rows (of_conversation id ms)
            ++ plain "user" req.content
              ∷ plain "user" (with_files calls.file_context req.content)
              ∷ []
      sent =
          let behind = plain "user" (with_files calls.file_context req.content) ∷ [] in
          ap (λ h. from_rows h ++ behind) rows
          ∙ ap (λ x. x ++ behind)
              (from_rows-append (of_conversation id ms) (message_row id user req.content ∷ []))
          ∙ append_assoc (from_rows (of_conversation id ms)) (plain "user" req.content ∷ []) behind
