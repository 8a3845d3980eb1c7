-- ===== src/Agent/Loop/Bounds.antt =====
-- How often `agentLoop` (internal/agent/runtime/agent_loop.go) calls the models.
use go_saas_api.Common.{
  ℕ, suc, ◌+◌, ◌≤◌, ◌≡◌, refl, Bool, true, false, not, ◌&&◌, Option, none, some, List, [], arith,
  if◌then◌else◌,
}
use go_saas_api.Common.Bytes.{Bytes}
use go_saas_api.Common.Effect.{Result, ok, err}
use go_saas_api.Common.Effect.Triple.{After, Runs, Runs-bind, Runs-pure, Runs-fail}
use go_saas_api.Llm.Chat as Chat
use go_saas_api.Llm.Chat.{Chunk, content_chunk}
use go_saas_api.Agent.Quality.{should_evaluate}
use go_saas_api.Agent.Loop.{Row, Environment, World, Return, finished, Locals, send}
use go_saas_api.Agent.Loop.Round.{ask, with_content, answered}
use go_saas_api.Agent.Loop.Turn.{
  max_agent_iterations, initial, reason_of, review, conclude, reply, progress_chunk, done_chunk,
  with_feedback, save_answer, give_out, agent_loop, max_reached, judgement,
}
use go_saas_api.Agent.Loop.Closed.{Closed, send-Runs, send-Stays}
use go_saas_api.Agent.Loop.Passes.{Passes, Saving, save_answer-Stays, rounds-Runs}

-- The retries that are left.
abbrev left : Bool → ℕ
left true = 0
left false = 1

module _ (env : Environment) (K J : ℕ) where
  -- Within `n` more requests and the retries that are left, the counts meet the bounds.
  abbrev Within : ℕ → Bool → World → Type 0
  Within n b w = (w.asked + n ≤ K) × (w.judgements + left b ≤ J)

  abbrev Bounded : World → Type 0
  Bounded w = (w.asked ≤ K) × (w.judgements ≤ J)

  abbrev AtReturn : Return → World → Type 0
  AtReturn e w = Bounded w

  abbrev AnyRow : Row → Type 0
  AnyRow row = Unit {0}

  Within-Closed : (n : ℕ) (b : Bool) → Closed env AnyRow (Within n b) AtReturn
  Within-Closed n b = record {
    on_send = λ c w more p. p;
    on_gone = λ w gone p. (omega arith, omega arith);
    on_execute = λ w p. p;
    on_row = λ row w fits p. p;
    on_unwritten = λ w p. p;
  }

  send-asked :
      (c : Chunk) (w : World)
      → ((send env c w).1.asked ≡ w.asked) × ((send env c w).1.judgements ≡ w.judgements)
  unfolding send
  send-asked c w = ground arith

  answered-Within :
      (n : ℕ) (b : Bool) (answer : Result Bytes (List Chunk)) (w : World)
      → Within n b w
      → After (λ chunks. Within n b) AtReturn (answered env answer w)
  answered-Within n b (ok chunks) w p = p
  answered-Within n b (err cause) w p =
      let h =
        send-asked (record (content_chunk (env.llm_error cause)) { event = "error"; done = true })
          w in
      (omega arith, omega arith)

  ask-Within :
      (n : ℕ) (b : Bool) (messages : List Chat.Message)
      → Runs (Within (suc n) b) (ask env messages) (λ _. Within n b) AtReturn
  unfolding ask
  ask-Within n b messages = record {
    at = λ w p.
        answered-Within n b
          (env.stream w.asked
            (record { model = env.agent.model; messages = messages; tools = env.tool_defs }))
          (record w { asked = suc w.asked }) (omega arith, p.1);
  }

  Within-Saving :
      (n : ℕ) (b : Bool) (content : Bytes) (l : Locals) → Saving env (Within n b) content l
  Within-Saving n b content l = record {
    on_answer = λ w p. p;
    on_metadata = λ m w p. p;
    on_usage = λ w p. p;
    on_written = λ w p. p;
  }

  reviewed-Within :
      (n : ℕ) (b code : Bool) (w : World) (reason : Option Bytes)
      → Within n b w
      → After
          (λ (o : Option Bytes). Within n true)
          AtReturn
          (if not b && code
            then (ok reason, record w { judgements = suc w.judgements })
            else (ok none, w))
  reviewed-Within n true code w reason p = p
  reviewed-Within n false true w reason p = (p.0, omega arith)
  reviewed-Within n false false w reason p = (p.0, omega arith)

  -- Behind a judgement, as if the retry were done.
  review-Within :
      (n : ℕ) (visible : Bytes) (l : Locals)
      → Runs (Within n l.quality_retry_done) (review env visible l) (λ _. Within n true) AtReturn
  unfolding review
  review-Within n visible l = record {
    at = λ w p.
        reviewed-Within n l.quality_retry_done
          (should_evaluate env.gate.to_lower env.agent.role visible) w
          (reason_of (judgement env visible w)) p;
  }

  conclude-Within :
      (n : ℕ) (visible raw : Bytes) (l : Locals) (reason : Option Bytes)
      → Runs
          (Within n true)
          (conclude env visible raw l reason)
          (λ l'. Within n l'.quality_retry_done)
          AtReturn
  unfolding conclude
  conclude-Within n visible raw l none =
      Runs-bind (save_answer env _ raw l) _
        (save_answer-Stays env _ raw l (Within-Saving n true _ l))
        λ _.
          Runs-bind (send env (done_chunk [])) _
            (send-Runs env {R = λ _. Within n true} (done_chunk []) (λ w _ p. p)
              (λ w _ p. (omega arith, omega arith)))
            λ _. Runs-fail finished (λ w p. (omega arith, omega arith))
  conclude-Within n visible raw l (some reason) =
      Runs-bind (send env (progress_chunk env.progress)) _
        (send-Stays env AnyRow (Within n true) AtReturn (Within-Closed n true)
          (progress_chunk env.progress) refl)
        λ _. Runs-pure (with_feedback visible (env.feedback reason) l) (λ w p. p)

  reply-Within :
      (n : ℕ) (visible raw : Bytes) (l : Locals)
      → Runs
          (Within n l.quality_retry_done)
          (reply env visible raw l)
          (λ l'. Within n l'.quality_retry_done)
          AtReturn
  unfolding reply
  reply-Within n visible raw l =
      Runs-bind (review env visible (with_content visible l)) _
        (review-Within n visible (with_content visible l))
        (conclude-Within n visible raw (with_content visible l))

  Bounded-Saving : (content : Bytes) (l : Locals) → Saving env Bounded content l
  Bounded-Saving content l = record {
    on_answer = λ w p. p;
    on_metadata = λ m w p. p;
    on_usage = λ w p. p;
    on_written = λ w p. p;
  }

  give_out-Within :
      (l : Locals) → Runs (Within 0 l.quality_retry_done) (give_out env l) (λ _. Bounded) AtReturn
  unfolding give_out
  give_out-Within l = record {
    at = λ w p.
        let h = send-asked (done_chunk max_reached) w in
        (save_answer-Stays env {Q = AtReturn} _ _ l (Bounded-Saving _ l)).at
          (send env (done_chunk max_reached) w).1 (omega arith, omega arith);
  }

  Within-Passes : Passes env AnyRow Within Bounded AtReturn
  Within-Passes = record {
    closed = Within-Closed;
    fits_tool = λ tc content. tt;
    fits_own = λ content calls. tt;
    asks = ask-Within;
    replies = reply-Within;
    ends = give_out-Within;
  }

  agent_loop-Within :
      (messages : List Chat.Message)
      → Runs (Within max_agent_iterations false) (agent_loop env messages) (λ _. Bounded) AtReturn
  unfolding agent_loop
  agent_loop-Within messages =
      rounds-Runs env AnyRow Within Bounded AtReturn Within-Passes max_agent_iterations
        (initial messages)

After-both :
    (P : World → Type 0) (x : Result Return (Unit {0}) × World) → After (λ _. P) (λ _. P) x → P x.1
After-both P (ok a, w) p = p
After-both P (err e, w) p = p

-- The loop ends whatever the model answers: it asks the model ten times at most, and the gate's
-- model once at most.
pub agent_loop_bounds :
    (env : Environment) (messages : List Chat.Message) (w : World)
    → ((agent_loop env messages w).1.asked ≤ w.asked + max_agent_iterations)
      × ((agent_loop env messages w).1.judgements ≤ w.judgements + 1)
agent_loop_bounds env messages w =
    After-both (Bounded env (w.asked + max_agent_iterations) (w.judgements + 1))
      (agent_loop env messages w)
      ((agent_loop-Within env (w.asked + max_agent_iterations) (w.judgements + 1) messages).at w
        (omega arith, omega arith))
