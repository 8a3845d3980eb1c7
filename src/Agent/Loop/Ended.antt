-- ===== src/Agent/Loop/Ended.antt =====
-- What a client that stays is sent by `agentLoop` (internal/agent/runtime/agent_loop.go).
use mathlib.Core.List.{append_assoc, append-nil}
use go_saas_api.Common.{
  true-ne-false, ℕ, ◌≡◌, refl, sym, ap, ◌∙◌, true, false, List, [], ◌∷◌, ◌++◌, All, All-append,
}
use go_saas_api.Common.Bytes.{Bytes}
use go_saas_api.Common.Effect.{Result, ok, err}
use go_saas_api.Common.Effect.Triple.{After, Runs}
use go_saas_api.Llm.Chat as Chat
use go_saas_api.Llm.Chat.{Chunk}
use go_saas_api.Agent.Loop.{Row, Environment, World, Return, Locals, send}
use go_saas_api.Agent.Loop.Turn.{done_chunk, max_reached, give_out, agent_loop}
use go_saas_api.Agent.Loop.Closed.{send-Runs}
use go_saas_api.Agent.Loop.Passes.{Saving, save_answer-Stays}
use go_saas_api.Agent.Loop.Ending.{Ending, agent_loop-Runs}

abbrev IsMore : Chunk → Type 0
IsMore c = c.done ≡ false

-- What was sent behind `before`: chunks that do not end the answer, and, at the end, one that does.
abbrev Open : List Chunk → List Chunk → Type 0
Open before sent = (mid : List Chunk) × (sent ≡ before ++ mid) × All IsMore mid

abbrev pub Ended : List Chunk → List Chunk → Type 0
Ended before sent =
    (mid : List Chunk) × (last : Chunk) × (sent ≡ before ++ (mid ++ last ∷ []))
    × All IsMore mid
    × (last.done ≡ true)

module _ (env : Environment) (stays : (n : ℕ) → env.taken n ≡ true) (before : List Chunk) where
  abbrev Running : World → Type 0
  Running w = Open before w.sent

  abbrev Over : World → Type 0
  Over w = Ended before w.sent

  abbrev AtReturn : Return → World → Type 0
  AtReturn e w = Over w

  abbrev AnyRow : Row → Type 0
  AnyRow row = Unit {0}

  more :
      (c : Chunk) (sent : List Chunk)
      → c.done ≡ false
      → Open before sent
      → Open before (sent ++ c ∷ [])
  more c sent open_end (mid, e, all) = (
    mid ++ c ∷ [],
    ap (λ s. s ++ c ∷ []) e ∙ append_assoc before mid (c ∷ []),
    All-append IsMore mid (c ∷ []) all (open_end, tt),
  )

  last_one :
      (c : Chunk) (sent : List Chunk)
      → c.done ≡ true
      → Open before sent
      → Ended before (sent ++ c ∷ [])
  last_one c sent end (mid, e, all) =
      (mid, c, ap (λ s. s ++ c ∷ []) e ∙ append_assoc before mid (c ∷ []), all, end)

  sent-Over : (c : Chunk) (w : World) → c.done ≡ true → Running w → Over (send env c w).1
  unfolding send
  sent-Over c w end p = rw (stays w.offered) (last_one c w.sent end p)

  Running-Saving : (content : Bytes) (l : Locals) → Saving env Running content l
  Running-Saving content l = record {
    on_answer = λ w p. p;
    on_metadata = λ m w p. p;
    on_usage = λ w p. p;
    on_written = λ w p. p;
  }

  Over-Saving : (content : Bytes) (l : Locals) → Saving env Over content l
  Over-Saving content l = record {
    on_answer = λ w p. p;
    on_metadata = λ m w p. p;
    on_usage = λ w p. p;
    on_written = λ w p. p;
  }

  not_gone : {A : Type 0} (n : ℕ) → env.taken n ≡ false → A
  not_gone n gone = absurd (true-ne-false (sym (stays n) ∙ gone))

  give_out-Over : (l : Locals) → Runs Running (give_out env l) (λ _. Over) AtReturn
  unfolding give_out
  give_out-Over l = record {
    at = λ w p.
        (save_answer-Stays env {Q = AtReturn} _ _ l (Over-Saving _ l)).at
          (send env (done_chunk max_reached) w).1 (sent-Over (done_chunk max_reached) w refl p);
  }

  ended-Ending : Ending env AnyRow Running Running Over AtReturn
  ended-Ending = record {
    closed = record {
      on_send = λ c w open_end p. more c w.sent open_end p;
      on_gone = λ w gone p. not_gone w.offered gone;
      on_execute = λ w p. p;
      on_row = λ row w fits p. p;
      on_unwritten = λ w p. p;
    };
    fits_tool = λ tc content. tt;
    fits_own = λ content calls. tt;
    on_ask = λ w p. p;
    on_judged = λ w p. p;
    on_error = sent-Over;
    on_save = λ content raw l. save_answer-Stays env content raw l (Running-Saving content l);
    on_done =
        send-Runs env (done_chunk []) (λ w _ p. last_one (done_chunk []) w.sent refl p)
          (λ w gone p. not_gone w.offered gone);
    on_out = give_out-Over;
  }

After-Over :
    (before : List Chunk) (x : Result Return (Unit {0}) × World)
    → After (λ _ w. Ended before w.sent) (λ _ w. Ended before w.sent) x
    → Ended before x.1.sent
After-Over before (ok a, w) p = p
After-Over before (err e, w) p = p

-- A client that stays is told the end, once and last, whatever the models, the tools and the
-- database do: of what it is sent, the last chunk says that the answer is done, and no other does.
pub agent_loop-Ended :
    (env : Environment) (messages : List Chat.Message) (w : World)
    → ((n : ℕ) → env.taken n ≡ true)
    → Ended w.sent (agent_loop env messages w).1.sent
agent_loop-Ended env messages w stays = After-Over w.sent (agent_loop env messages w) (
    (agent_loop-Runs env (AnyRow env stays w.sent) _ _ _ _ (ended-Ending env stays w.sent)
        messages).at
      w ([], sym (append-nil w.sent), tt))
