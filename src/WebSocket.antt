-- ===== src/WebSocket.antt =====
-- `Manager.run` of internal/agent/websocket/manager.go: the registered clients, one for each user,
-- and the send channels that are closed. A client is its number with its user; `HandleUpgrade`
-- makes a new one. Closing a channel that is closed is a panic: the step then gives nothing. The
-- goroutine handles one event at a time; connections and logs are left out.
pub mod Channels
use go_saas_api.Common.{
  ℕ, ◌+◌, Bool, false, ◌&&◌, Option, none, some, List, [], ◌∷◌, ◌==◌, nat_eq, if◌then◌else◌, any_by,
}
use go_saas_api.Common.Assoc.{lookup, insert}

pub record Client : Type 0 where
  pub id : ℕ
  pub user_id : ℕ

pub record Manager : Type 0 where
  pub clients : List (ℕ × Client)
  pub closed : List Client
  pub next_id : ℕ

pub data Event : Type 0 where
  connect : (user_id : ℕ) → Event
  disconnect : Client → Event

abbrev pub same_client : Client → Client → Bool
same_client c d = c.id == d.id && c.user_id == d.user_id

unfoldable pub is_closed : Client → List Client → Bool
is_closed c closed = any_by (same_client c) closed

-- close(c.sendCh)
unfoldable pub close : Client → List Client → Option (List Client)
unfolding is_closed
close c closed = if is_closed c closed then none else some (c ∷ closed)

-- delete(m.clients, key)
unfoldable pub delete : ℕ → List (ℕ × Client) → List (ℕ × Client)
delete key [] = []
delete key ((k, c) ∷ rest) = let left = delete key rest in if k == key then left else (k, c) ∷ left

-- What is closed if the old client of the user, or the client that leaves, is closed.
unfoldable pub close_old : Option Client → List Client → Option (List Client)
unfolding close
close_old none closed = some closed
close_old (some old) closed = close old closed

unfoldable pub with_closed : Option (List Client) → (List Client → Manager) → Option Manager
with_closed none f = none
with_closed (some closed) f = some (f closed)

unfoldable pub on_register : Client → Manager → Option Manager
unfolding close_old with_closed
on_register c m =
    with_closed (close_old (lookup c.user_id m.clients) m.closed)
      (λ closed. record m { clients = insert c.user_id c m.clients; closed = closed })

unfoldable pub is_current : Option Client → Client → Bool
is_current none c = false
is_current (some current) c = same_client current c

unfoldable pub on_unregister : Client → Manager → Option Manager
unfolding close with_closed delete is_current
on_unregister c m =
    if is_current (lookup c.user_id m.clients) c
    then with_closed (close c m.closed)
        (λ closed. record m { clients = delete c.user_id m.clients; closed = closed })
    else some m

unfoldable pub step : Event → Manager → Option Manager
unfolding on_register on_unregister
step (connect user) m =
    on_register (record { id = m.next_id; user_id = user }) (record m { next_id = m.next_id + 1 })
step (disconnect c) m = on_unregister c m

abbrev pub new_manager : Manager
new_manager = record { clients = []; closed = []; next_id = 0 }

unfoldable pub run_from : List Event → Option Manager → Option Manager
unfolding step
run_from [] m = m
run_from (e ∷ events) none = none
run_from (e ∷ events) (some m) = run_from events (step e m)

unfoldable pub run : List Event → Option Manager
unfolding run_from
run events = run_from events (some new_manager)
