-- ===== src/Agent/Store.antt =====
-- The tables of conversations and of messages (internal/agent/store/postgres.go), and the
-- SessionManager over them (internal/agent/runtime/session.go). A call of the database fails where
-- the list of faults says so. Rows stand in the order of their insertion, which is that of
-- `created_at`; the time of the last update is left out, and the users that rows name exist.
use go_saas_api.Common.{
  ℕ, String, Bool, true, false, ◌||◌, Option, none, some, List, [], ◌∷◌, ◌++◌, ◌==◌, string_eq,
  nat_eq, if◌then◌else◌, filter_by, find_by, any_by, take,
}
use go_saas_api.Common.Effect.{Result, ok, err, M, ◌>>=◌, ◌>>◌, pure}
use go_saas_api.Common.Bytes.{Bytes}
use go_saas_api.Flows.State.{Metadata}
use go_saas_api.Agent.Loop.{Row}

-- The CHECK on `status`.
abbrev pub is_status : String → Bool
is_status status = status == "active" || status == "archived" || status == "deleted"

pub record Conversation : Type 0 where
  pub id : String
  pub user_id : String
  pub title : Bytes
  pub status : String
  pub metadata : Metadata

pub record Tables : Type 0 where
  pub conversations : List Conversation
  pub messages : List Row
  pub faults : List Bool

pub data DbError : Type 0 where
  db_error no_rows : DbError

abbrev pub Db : Type 0 → Type 0
Db A = M Tables DbError A

abbrev scheduled : {A : Type 0} → List Bool → (Tables → Result DbError A × Tables) → Db A
scheduled [] run t = run t
scheduled (true ∷ faults) run t = (err db_error, record t { faults = faults })
scheduled (false ∷ faults) run t = run (record t { faults = faults })

-- A statement, if its call does not fail.
unfoldable pub call : {A : Type 0} → (Tables → Result DbError A × Tables) → Db A
call run t = scheduled t.faults run t

abbrev pub has_id : String → Conversation → Bool
has_id id conv = conv.id == id

abbrev with_conversation : Conversation → Tables → Result DbError (Unit {0}) × Tables
with_conversation conv t =
    if any_by (has_id conv.id) t.conversations
    then (err db_error, t)
    else (ok tt, record t { conversations = t.conversations ++ conv ∷ [] })

unfoldable pub insert_conversation : Conversation → Db (Unit {0})
unfolding call
insert_conversation conv = call (with_conversation conv)

abbrev found_in : Option Conversation → Tables → Result DbError Conversation × Tables
found_in none t = (err no_rows, t)
found_in (some conv) t = (ok conv, t)

-- Also a conversation that is deleted.
unfoldable pub get_by_id : String → Db Conversation
unfolding call
get_by_id id = call λ t. found_in (find_by (has_id id) t.conversations) t

abbrev replaced : Conversation → List Conversation → List Conversation
replaced conv [] = []
replaced conv (c ∷ rest) =
    (if c.id == conv.id
      then record c { title = conv.title; status = conv.status; metadata = conv.metadata }
      else c)
    ∷ replaced conv rest

unfoldable pub update_row : Conversation → Db (Unit {0})
unfolding call
update_row conv = call λ t.
    if is_status conv.status
    then (ok tt, record t { conversations = replaced conv t.conversations })
    else (err db_error, t)

abbrev pub struck : String → List Conversation → List Conversation
struck id [] = []
struck id (c ∷ rest) = (if c.id == id then record c { status = "deleted" } else c) ∷ struck id rest

-- `Delete`, which is no error where there is no such row.
unfoldable pub delete_row : String → Db (Unit {0})
unfolding call
delete_row id = call λ t. (ok tt, record t { conversations = struck id t.conversations })

abbrev with_message : Row → Tables → Result DbError (Unit {0}) × Tables
with_message row t =
    if any_by (has_id row.conversation_id) t.conversations
    then (ok tt, record t { messages = t.messages ++ row ∷ [] })
    else (err db_error, t)

unfoldable pub insert_message : Row → Db (Unit {0})
unfolding call
insert_message row = call (with_message row)

abbrev pub is_of : String → Row → Bool
is_of conversation_id row = row.conversation_id == conversation_id

-- ORDER BY created_at ASC LIMIT limit
unfoldable pub list_by_conversation : String → (limit : ℕ) → Db (List Row)
unfolding call
list_by_conversation conversation_id limit =
    call λ t. (ok (take limit (filter_by (is_of conversation_id) t.messages)), t)

unfoldable pub create_conversation :
    (new_id : String) → (user_id : String) → (title : Bytes) → Db Conversation
unfolding insert_conversation
create_conversation new_id user_id title =
    let conv : Conversation = record {
      id = new_id;
      user_id = user_id;
      title = title;
      status = "active";
      metadata = [];
    } in
    insert_conversation conv >> pure conv

unfoldable pub add_message : Row → Db (Unit {0})
unfolding insert_message
add_message row = insert_message row

unfoldable pub update_conversation_title : String → (title : Bytes) → Db (Unit {0})
unfolding get_by_id update_row
update_conversation_title id title =
    get_by_id id >>= λ conv. update_row (record conv { title = title })

unfoldable pub get_conversation : String → Db Conversation
unfolding get_by_id
get_conversation id = get_by_id id

abbrev or_fifty : ℕ → ℕ
or_fifty limit = if limit == 0 then 50 else limit

unfoldable pub get_history : String → (limit : ℕ) → Db (List Row)
unfolding list_by_conversation
get_history conversation_id limit = list_by_conversation conversation_id (or_fifty limit)

unfoldable pub update_conversation_metadata : String → Metadata → Db (Unit {0})
unfolding get_by_id update_row
update_conversation_metadata id metadata =
    get_by_id id >>= λ conv. update_row (record conv { metadata = metadata })
