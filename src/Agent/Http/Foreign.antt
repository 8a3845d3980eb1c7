-- ===== src/Agent/Http/Foreign.antt =====
-- Who is served by the endpoints of a conversation (internal/agent/handler).
use mathlib.Core.Option as Option
use go_saas_api.Common.{
  String, ◌≡◌, refl, sym, ap, ◌∙◌, Option, some, List, [], ◌∷◌, ◌==◌, string_eq, Bool-cases, inl,
  inr, find_by, take, true, false,
}
use go_saas_api.Common.Effect.{ok, ◌>>=◌, map_error}
use go_saas_api.Agent.Loop.{Row}
use go_saas_api.Agent.Store.{
  struck, Conversation, has_id, call, get_by_id, delete_row, list_by_conversation,
}
use go_saas_api.Agent.Orchestrator.History.{quiet, of_conversation}
use go_saas_api.Agent.Http.{
  conversation, chat, nothing, get_conversation, get_chat, delete_conversation, serve_chat,
}

find_by-struck :
    (u : String) (cs : List Conversation) (conv : Conversation)
    → find_by (has_id u) cs ≡ some conv
    → find_by (has_id u) (struck u cs) ≡ some (record conv { status = "deleted" })
find_by-struck u [] conv e = cc
find_by-struck u (c ∷ cs) conv e = elim (Bool-cases (c.id == u)) [
  | inl same ↦ rw same (rw same (ap (λ o. Option.map marked o) (first same e)))
  | inr other ↦ rw other (rw other (find_by-struck u cs conv (rest other e)))
]
  where
    marked : Conversation → Conversation
    marked k = record k { status = "deleted" }

    first : (c.id == u) ≡ true → find_by (has_id u) (c ∷ cs) ≡ some conv → some c ≡ some conv
    first same h = sym (rw same refl) ∙ h

    rest :
        (c.id == u) ≡ false
        → find_by (has_id u) (c ∷ cs) ≡ some conv
        → find_by (has_id u) cs ≡ some conv
    rest other h = sym (rw other refl) ∙ h

-- Whoever asks, with whatever header, the owner or not: a conversation that is in the table is shown
-- with its messages, and is deleted; then it is still shown, as deleted. Here the database does not
-- fail.
pub serve_chat-foreign :
    (parse : String → Option String) (new_id header header' id u : String) (conv : Conversation)
    (cs : List Conversation) (ms : List Row)
    → parse id ≡ some u
    → find_by (has_id u) cs ≡ some conv
    → ((serve_chat parse new_id header (get_chat id) (quiet cs ms)).0
        ≡ ok (chat conv (take 100 (of_conversation u ms))))
      × ((serve_chat parse new_id header (delete_conversation id) (quiet cs ms)).0 ≡ ok nothing)
      × ((serve_chat parse new_id header'
            (get_conversation id)
            (serve_chat parse new_id header (delete_conversation id) (quiet cs ms)).1).0
          ≡ ok (conversation (record conv { status = "deleted" })))
unfolding serve_chat get_by_id delete_row list_by_conversation call map_error ◌>>=◌
serve_chat-foreign parse new_id header header' id u conv cs ms named found =
    (rw (named, found) refl, rw named refl, rw (named, find_by-struck u cs conv found) refl)
