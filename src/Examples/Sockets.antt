-- ===== src/Examples/Sockets.antt =====
-- internal/agent/websocket: a user connects twice, and the first client reports its end twice.
use go_saas_api.Common.{◌≡◌, nat_eq, List, [], ◌∷◌, some}
use go_saas_api.Common.Assoc.{lookup}
use go_saas_api.WebSocket.{Client, Manager, Event, connect, disconnect, run}
use go_saas_api.WebSocket.Channels.{IsServed, run-IsServed}

abbrev first : Client
first = record { id = 0; user_id = 7 }

abbrev events : List Event
events = connect 7 ∷ connect 7 ∷ disconnect first ∷ connect 8 ∷ disconnect first ∷ []

run-IsServed_example :
    (m : Manager) × (run events ≡ some m) × IsServed 7 m.closed (lookup 7 m.clients)
run-IsServed_example = run-IsServed events 7
