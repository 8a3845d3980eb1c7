-- ===== src/Agent/Loop/Ending.antt =====
-- A predicate that the requests and judgements of `agentLoop`
-- (internal/agent/runtime/agent_loop.go) do not touch, up to where the loop ends.
use go_saas_api.Common.{
  suc, ◌≡◌, refl, Bool, true, false, not, ◌&&◌, Option, none, some, List, [], if◌then◌else◌,
}
use go_saas_api.Common.Bytes.{Bytes}
use go_saas_api.Common.Effect.{Result, ok, err}
use go_saas_api.Common.Effect.Triple.{After, Runs, Runs-bind, Runs-pure, Runs-fail}
use go_saas_api.Llm.Chat as Chat
use go_saas_api.Llm.Chat.{ToolCall, Chunk}
use go_saas_api.Agent.Quality.{should_evaluate}
use go_saas_api.Agent.Loop.{Row, Environment, World, Return, finished, llm_failed, Locals, send}
use go_saas_api.Agent.Loop.Round.{ask, with_content, answered}
use go_saas_api.Agent.Loop.Tools.{assistant_row, tool_row}
use go_saas_api.Agent.Loop.Turn.{
  max_agent_iterations, initial, reason_of, review, conclude, reply, progress_chunk, done_chunk,
  with_feedback, save_answer, give_out, agent_loop, judgement,
}
use go_saas_api.Agent.Loop.Closed.{Closed, send-Stays}
use go_saas_api.Agent.Loop.Passes.{Passes, rounds-Runs}

-- `P` holds while the loop runs, `S` behind the writes of an answer, `end` behind the last pass.
pub record Ending (env : Environment) (R : Row → Type 0) (P S end : World → Type 0)
    (Q : Return → World → Type 0) : Type 0 where
  pub closed : Closed env R P Q
  pub fits_tool : (tc : ToolCall) (content : Bytes) → R (tool_row env tc content)
  pub fits_own : (content : Bytes) (calls : List ToolCall) → R (assistant_row env content calls)
  pub on_ask : (w : World) → P w → P (record w { asked = suc w.asked })
  pub on_judged : (w : World) → P w → P (record w { judgements = suc w.judgements })
  pub on_error : (c : Chunk) (w : World) → c.done ≡ true → P w → Q llm_failed (send env c w).1
  pub on_save :
      (content raw : Bytes) (l : Locals) → Runs P (save_answer env content raw l) (λ _. S) Q
  pub on_done : Runs S (send env (done_chunk [])) (λ _. Q finished) Q
  pub on_out : (l : Locals) → Runs P (give_out env l) (λ _. end) Q

module _ (env : Environment) (R : Row → Type 0) (P S end : World → Type 0)
    (Q : Return → World → Type 0) (ending : Ending env R P S end Q) where
  answered-Runs :
      (answer : Result Bytes (List Chunk)) (w : World)
      → P w
      → After (λ (chunks : List Chunk). P) Q (answered env answer w)
  answered-Runs (ok chunks) w p = p
  answered-Runs (err cause) w p = ending.on_error _ w refl p

  ask-Runs : (messages : List Chat.Message) → Runs P (ask env messages) (λ _. P) Q
  unfolding ask
  ask-Runs messages = record {
    at = λ w p. answered-Runs (env.stream w.asked _) _ (ending.on_ask w p);
  }

  reviewed-Runs :
      (b : Bool) (w : World) (reason : Option Bytes)
      → P w
      → After
          (λ (o : Option Bytes). P)
          Q
          (if b then (ok reason, record w { judgements = suc w.judgements }) else (ok none, w))
  reviewed-Runs true w reason p = ending.on_judged w p
  reviewed-Runs false w reason p = p

  review-Runs : (visible : Bytes) (l : Locals) → Runs P (review env visible l) (λ _. P) Q
  unfolding review
  review-Runs visible l = record {
    at = λ w p.
        reviewed-Runs
          (not l.quality_retry_done && should_evaluate env.gate.to_lower env.agent.role visible) w
          (reason_of (judgement env visible w)) p;
  }

  conclude-Runs :
      (visible raw : Bytes) (l : Locals) (reason : Option Bytes)
      → Runs P (conclude env visible raw l reason) (λ _. P) Q
  unfolding conclude
  conclude-Runs visible raw l none =
      Runs-bind (save_answer env _ raw l) _ (ending.on_save _ raw l) λ _.
        Runs-bind (send env (done_chunk [])) _ ending.on_done λ _. Runs-fail finished (λ w q. q)
  conclude-Runs visible raw l (some reason) =
      Runs-bind (send env (progress_chunk env.progress)) _
        (send-Stays env R P Q ending.closed (progress_chunk env.progress) refl)
        λ _. Runs-pure (with_feedback visible (env.feedback reason) l) (λ w p. p)

  reply-Runs : (visible raw : Bytes) (l : Locals) → Runs P (reply env visible raw l) (λ _. P) Q
  unfolding reply
  reply-Runs visible raw l =
      Runs-bind (review env visible (with_content visible l)) _
        (review-Runs visible (with_content visible l))
        (conclude-Runs visible raw (with_content visible l))

  ending-Passes : Passes env R (λ n b. P) end Q
  ending-Passes = record {
    closed = λ n b. ending.closed;
    fits_tool = ending.fits_tool;
    fits_own = ending.fits_own;
    asks = λ n b messages. ask-Runs messages;
    replies = λ n visible raw l. reply-Runs visible raw l;
    ends = ending.on_out;
  }

  pub agent_loop-Runs :
      (messages : List Chat.Message) → Runs P (agent_loop env messages) (λ _. end) Q
  unfolding agent_loop
  agent_loop-Runs messages =
      rounds-Runs env R (λ n b. P) end Q ending-Passes max_agent_iterations (initial messages)
