-- ===== src/WebSocket/Channels.antt =====
-- The send channels of the registered clients (internal/agent/websocket/manager.go).
use go_saas_api.Common.{
  ℕ, ◌+◌, ◌≤◌, ◌<◌, ◌≡◌, refl, ap, ◌∙◌, subst, true, false, Option, none, some, List, [], ◌∷◌, ◌==◌,
  nat_eq, arith, if◌then◌else◌, All, Bool-cases, Option-cases, inl, inr,
}
use go_saas_api.Common.Assoc.{lookup, insert, lookup-insert}
use go_saas_api.WebSocket.{
  Client, Manager, Event, connect, disconnect, same_client, is_closed, close, delete, close_old,
  with_closed, on_register, is_current, on_unregister, step, new_manager, run_from, run,
}

-- A registered client stands under its user, its channel is open, and its number was given out.
abbrev pub IsGood : (next_id : ℕ) (closed : List Client) (user : ℕ) → Client → Type 0
IsGood next_id closed user c = (c.user_id ≡ user) × (is_closed c closed ≡ false) × (c.id < next_id)

pub record IsSound (m : Manager) : Type 0 where
  pub good :
      (user : ℕ) (c : Client) → lookup user m.clients ≡ some c → IsGood m.next_id m.closed user c
  pub spent : All (λ c. c.id < m.next_id) m.closed

lookup-delete :
    (key user : ℕ) (rows : List (ℕ × Client))
    → lookup user (delete key rows) ≡ (if key == user then none else lookup user rows)
unfolding lookup delete
lookup-delete key user [] = ground arith
lookup-delete key user ((k, c) ∷ rest) = ground (arith, lookup-delete key user rest)

-- A new number is not closed.
is_closed-new :
    (c : Client) (n : ℕ) (closed : List Client)
    → n ≤ c.id
    → All (λ d. d.id < n) closed
    → is_closed c closed ≡ false
unfolding is_closed
is_closed-new c n [] le h = refl
is_closed-new c n (d ∷ closed) le (p, h) = ground (arith, is_closed-new c n closed le h)

All-later :
    (n m : ℕ) (closed : List Client)
    → n ≤ m
    → All (λ d. d.id < n) closed
    → All (λ d. d.id < m) closed
All-later n m [] le h = tt
All-later n m (d ∷ closed) le (p, h) = (omega arith, All-later n m closed le h)

-- Closing one client leaves another of its user or of another user open.
is_closed-cons :
    (c d : Client) (closed : List Client)
    → same_client c d ≡ false
    → is_closed c closed ≡ false
    → is_closed c (d ∷ closed) ≡ false
unfolding is_closed
is_closed-cons c d closed e h = rw (e, h) refl

insert-good :
    (P : ℕ → Client → Type 0) (key : ℕ) (new : Client) (rows : List (ℕ × Client))
    → P key new
    → ((user : ℕ) (c : Client) → (key == user) ≡ false → lookup user rows ≡ some c → P user c)
    → (user : ℕ) (c : Client) → lookup user (insert key new rows) ≡ some c
    → P user c
insert-good P key new rows p h user c e = elim (Bool-cases (key == user)) [
  | inl here ↦
      let found : some new ≡ some c = rw (lookup-insert key user new rows, here) at e in
      let it : new ≡ c = cc found in
      let at_key : key ≡ user = ground (arith, here) in
      subst (λ u. P u c) at_key (subst (λ d. P key d) it p)
  | inr other ↦ h user c other (rw (lookup-insert key user new rows, other) at e)
]

delete-good :
    (P : ℕ → Client → Type 0) (key : ℕ) (rows : List (ℕ × Client))
    → ((user : ℕ) (c : Client) → (key == user) ≡ false → lookup user rows ≡ some c → P user c)
    → (user : ℕ) (c : Client) → lookup user (delete key rows) ≡ some c
    → P user c
delete-good P key rows h user c e = elim (Bool-cases (key == user)) [
  | inl here ↦
      absurd (let no : none ≡ some c = rw (lookup-delete key user rows, here) at e in cc no)
  | inr other ↦ h user c other (rw (lookup-delete key user rows, other) at e)
]

-- A client of another user is another client.
is_closed-other :
    (key user next_id : ℕ) (closed : List Client) (c d : Client)
    → (key == user) ≡ false
    → d.user_id ≡ key
    → IsGood next_id closed user c
    → is_closed c (d ∷ closed) ≡ false
is_closed-other key user next_id closed c d other e (own, open_now, _) =
    is_closed-cons c d closed (ground (arith, other, e, own)) open_now

connect-IsSound :
    (user : ℕ) (m : Manager)
    → IsSound m
    → (m' : Manager) × (step (connect user) m ≡ some m') × IsSound m'
unfolding step on_register
connect-IsSound user m h =
    let new : Client = record { id = m.next_id; user_id = user } in
    let spent' = All-later m.next_id (m.next_id + 1) m.closed (omega arith) h.spent in
    elim (Option-cases (lookup user m.clients)) [
      | inl e ↦ (
        record { clients = insert user new m.clients; closed = m.closed; next_id = m.next_id + 1 },
        rw e (unfold close_old with_closed in refl),
        record {
          good =
              insert-good (IsGood (m.next_id + 1) m.closed) user new m.clients
                (refl, is_closed-new new m.next_id m.closed (omega arith) h.spent, omega arith)
                (λ u c other found.
                  let (own, open_now, used) = h.good u c found in (own, open_now, omega arith));
          spent = spent';
        },
      )
      | inr (old, e) ↦
          let (own_old, open_old, used_old) = h.good user old e in
          let gone : All (λ c. c.id < m.next_id) (old ∷ m.closed) = (used_old, h.spent) in
          (
            record {
              clients = insert user new m.clients;
              closed = old ∷ m.closed;
              next_id = m.next_id + 1;
            },
            rw e (unfold close_old close with_closed in rw open_old refl),
            record {
              good =
                  insert-good (IsGood (m.next_id + 1) (old ∷ m.closed)) user new m.clients
                    (
                      refl,
                      is_closed-new new m.next_id (old ∷ m.closed) (omega arith) gone,
                      omega arith,
                    )
                    (λ u c other found.
                      let (own, open_now, used) = h.good u c found in
                      (
                        own,
                        is_closed-other user u m.next_id m.closed c old other own_old
                            (own, open_now, used),
                        omega arith,
                      ));
              spent = All-later m.next_id (m.next_id + 1) (old ∷ m.closed) (omega arith) gone;
            },
          )
    ]

same_client-eq : (c d : Client) → same_client c d ≡ true → c ≡ d
same_client-eq c d h =
    let ids : c.id ≡ d.id = ground (arith, h) in
    let users : c.user_id ≡ d.user_id = ground (arith, h) in
    ap (λ (i : ℕ). record { id = i; user_id = c.user_id }) ids
    ∙ ap (λ (u : ℕ). record { id = d.id; user_id = u }) users

leave-IsSound :
    (c : Client) (m : Manager)
    → IsSound m
    → lookup c.user_id m.clients ≡ some c
    → (m' : Manager) × (with_closed
          (close c m.closed)
          (λ closed. record m { clients = delete c.user_id m.clients; closed = closed })
        ≡ some m')
      × IsSound m'
leave-IsSound c m h e =
    let (own_c, open_c, used_c) = h.good c.user_id c e in
    (
      record { clients = delete c.user_id m.clients; closed = c ∷ m.closed; next_id = m.next_id },
      unfold close with_closed in rw open_c refl,
      record {
        good = delete-good (IsGood m.next_id (c ∷ m.closed)) c.user_id m.clients (λ u d other found.
            let (own, open_now, used) = h.good u d found in
            (
              own,
              is_closed-other c.user_id u m.next_id m.closed d c other refl (own, open_now, used),
              used,
            ));
        spent = (used_c, h.spent);
      },
    )

disconnect-IsSound :
    (c : Client) (m : Manager)
    → IsSound m
    → (m' : Manager) × (step (disconnect c) m ≡ some m') × IsSound m'
unfolding step on_unregister is_current
disconnect-IsSound c m h = elim (Option-cases (lookup c.user_id m.clients)) [
  | inl e ↦ (m, rw e refl, h)
  | inr (current, e) ↦ elim (Bool-cases (same_client current c)) [
    | inl same ↦
        let (m', stepped, sound) =
          leave-IsSound c m h (e ∙ ap some (same_client-eq current c same)) in
        (m', rw (e, same) stepped, sound)
    | inr other ↦ (m, rw (e, other) refl, h)
  ]
]

run_from-IsSound :
    (events : List Event) (m : Manager)
    → IsSound m
    → (m' : Manager) × (run_from events (some m) ≡ some m') × IsSound m'
unfolding run_from
run_from-IsSound [] m h = (m, refl, h)
run_from-IsSound (connect user ∷ events) m h =
    let (m', stepped, sound) = connect-IsSound user m h in
    rw stepped (run_from-IsSound events m' sound)
run_from-IsSound (disconnect c ∷ events) m h =
    let (m', stepped, sound) = disconnect-IsSound c m h in
    rw stepped (run_from-IsSound events m' sound)

new_manager-IsSound : IsSound new_manager
unfolding lookup
new_manager-IsSound = record { good = λ user c found. cc; spent = tt }

-- There is no client, or one of the user whose channel is open.
abbrev pub IsServed : (user : ℕ) (closed : List Client) → Option Client → Type 0
IsServed user closed none = Unit
IsServed user closed (some c) = (c.user_id ≡ user) × (is_closed c closed ≡ false)

-- Whatever connections are opened and whatever clients report that they are gone, in any order and
-- any number of times: no channel is closed twice, and the client that is registered for a user,
-- if there is one, is of that user and has an open channel.
pub run-IsServed :
    (events : List Event) (user : ℕ)
    → (m : Manager) × (run events ≡ some m) × IsServed user m.closed (lookup user m.clients)
unfolding run
run-IsServed events user =
    let (m, ran, sound) = run_from-IsSound events new_manager new_manager-IsSound in
    (
      m,
      ran,
      elim (Option-cases (lookup user m.clients)) [
        | inl e ↦ rw e tt
        | inr (c, e) ↦ let (own, open_now, used) = sound.good user c e in rw e (own, open_now)
      ],
    )
