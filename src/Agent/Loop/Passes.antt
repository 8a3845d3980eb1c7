-- ===== src/Agent/Loop/Passes.antt =====
-- What holds behind all passes of `agentLoop` (internal/agent/runtime/agent_loop.go), from what
-- holds behind a request, an answer and the end.
use go_saas_api.Common.{
  ℕ, zero, suc, ◌≡◌, refl, sym, subst, Bool, Option, none, some, List, [], ◌∷◌, ◌++◌, Bool-cases,
  inl, inr,
}
use go_saas_api.Common.Bytes.{Bytes}
use go_saas_api.Flows.State.{Metadata}
use go_saas_api.Common.Effect.Triple.{Runs, Runs-bind, Runs-mono, Runs-pure}
use go_saas_api.Llm.Chat as Chat
use go_saas_api.Llm.Chat.{ToolCall}
use go_saas_api.Agent.Loop.{Flow, Row, Environment, World, Return, Locals, add_message}
use go_saas_api.Agent.Loop.Round.{
  Received, opened, visible_of_stream, raw_of_stream, add_usage, ask, receive, flush_rest,
}
use go_saas_api.Agent.Loop.Tools.{assistant_row, tool_row}
use go_saas_api.Agent.Loop.Turn.{
  final_row, usage_of, store_metadata, track_usage, save_answer, flow_deliver, flow_update, reply,
  act_or_reply, count_answer, settle, round, give_out, rounds,
}
use go_saas_api.Agent.Loop.Closed.{Closed, write-Runs, receive-Stays, flush_rest-Stays, act-Stays}

-- `at n b w`: with `n` passes left, and the retry done or not.
pub record Passes (env : Environment) (R : Row → Type 0) (at : ℕ → Bool → World → Type 0)
    (end : World → Type 0) (Q : Return → World → Type 0) : Type 0 where
  pub closed : (n : ℕ) (b : Bool) → Closed env R (at n b) Q
  pub fits_tool : (tc : ToolCall) (content : Bytes) → R (tool_row env tc content)
  pub fits_own : (content : Bytes) (calls : List ToolCall) → R (assistant_row env content calls)
  pub asks :
      (n : ℕ) (b : Bool) (messages : List Chat.Message)
      → Runs (at (suc n) b) (ask env messages) (λ _. at n b) Q
  pub replies :
      (n : ℕ) (visible raw : Bytes) (l : Locals)
      → Runs
          (at n l.quality_retry_done)
          (reply env visible raw l)
          (λ l'. at n l'.quality_retry_done)
          Q
  pub ends : (l : Locals) → Runs (at 0 l.quality_retry_done) (give_out env l) (λ _. end) Q

-- `P` is kept by the three writes of an answer.
pub record Saving (env : Environment) (P : World → Type 0) (content : Bytes) (l : Locals)
    : Type 0 where
  pub on_answer : (w : World) → P w → P (record w { rows = w.rows ++ final_row env content l ∷ [] })
  pub on_metadata : (m : Metadata) (w : World) → P w → P (record w { stored = some m })
  pub on_usage : (w : World) → P w → P (record w { records = w.records ++ usage_of env l ∷ [] })
  pub on_written : (w : World) → P w → P (record w { written = suc w.written })

module _ (env : Environment) {P : World → Type 0} {Q : Return → World → Type 0}
    (content raw : Bytes) (l : Locals) (saving : Saving env P content l) where
  store_metadata-Stays : (flow : Option Flow) → Runs P (store_metadata env flow raw l) (λ _. P) Q
  unfolding store_metadata
  store_metadata-Stays none = Runs-pure tt (λ w p. p)
  store_metadata-Stays (some flow) =
      write-Runs env
        (λ (w : World). record w {
          stored = some (
              flow_deliver flow l.real_deliverables
                (flow_update env.flow_calls flow env.metadata raw));
        })
        (λ w p. saving.on_metadata _ _ (saving.on_written w p)) (λ w _ p. saving.on_written w p)

  track_usage-Stays : Runs P (track_usage env l) (λ _. P) Q
  unfolding track_usage
  track_usage-Stays = elim (Bool-cases env.tracked) [
    | inl tracked ↦ rw tracked (
        write-Runs env (λ (w : World). record w { records = w.records ++ usage_of env l ∷ [] })
          (λ w p. saving.on_usage _ (saving.on_written w p)) (λ w _ p. saving.on_written w p))
    | inr untracked ↦ rw untracked (Runs-pure tt (λ w p. p))
  ]

  pub save_answer-Stays : Runs P (save_answer env content raw l) (λ _. P) Q
  unfolding save_answer add_message
  save_answer-Stays =
      Runs-bind (add_message env (final_row env content l)) _
        (write-Runs env (λ (w : World). record w { rows = w.rows ++ final_row env content l ∷ [] })
          (λ w p. saving.on_answer _ (saving.on_written w p)) (λ w _ p. saving.on_written w p))
        λ _.
          Runs-bind (store_metadata env env.active_flow raw l) _
            (store_metadata-Stays env.active_flow) (λ _. track_usage-Stays)

add_usage-retry :
    (used : Option Chat.Usage) (raw : Bytes) (l : Locals)
    → (add_usage used raw l).quality_retry_done ≡ l.quality_retry_done
add_usage-retry none raw l = refl
add_usage-retry (some u) raw l = refl

module _ (env : Environment) (R : Row → Type 0) (at : ℕ → Bool → World → Type 0)
    (end : World → Type 0) (Q : Return → World → Type 0) (passes : Passes env R at end Q) where
  act_or_reply-Runs :
      (n : ℕ) (calls : List ToolCall) (visible raw : Bytes) (l : Locals)
      → Runs
          (at n l.quality_retry_done)
          (act_or_reply env calls visible raw l)
          (λ l'. at n l'.quality_retry_done)
          Q
  unfolding act_or_reply
  act_or_reply-Runs n [] visible raw l = passes.replies n visible raw l
  act_or_reply-Runs n (tc ∷ calls) visible raw l =
      Runs-mono _
        (act-Stays env R (at n l.quality_retry_done) Q (passes.closed n l.quality_retry_done) tc
          calls visible l passes.fits_tool (passes.fits_own visible (tc ∷ [])))
        (λ l' w p. subst (λ b. at n b w) (sym p.0) p.1) (λ e w q. q)

  count_answer-Runs :
      (n : ℕ) (used : Option Chat.Usage) (raw : Bytes) (l : Locals)
      → Runs
          (at n l.quality_retry_done)
          (count_answer env used raw l)
          (λ l'. at n l'.quality_retry_done)
          Q
  unfolding count_answer
  count_answer-Runs n used raw l = record {
    at = λ s p. subst (λ b. at n b s) (sym (add_usage-retry used raw _)) p;
  }

  settle-Runs :
      (n : ℕ) (r : Received) (l : Locals)
      → Runs (at n l.quality_retry_done) (settle env r l) (λ l'. at n l'.quality_retry_done) Q
  unfolding settle
  settle-Runs n r l =
      Runs-bind (flush_rest env r.sanitizer) _
        (flush_rest-Stays env R (at n l.quality_retry_done) Q (passes.closed n _) r.sanitizer)
        λ s.
          Runs-bind (count_answer env r.chunk_usage (raw_of_stream s r.fallback_content) l) _
            (count_answer-Runs n r.chunk_usage (raw_of_stream s r.fallback_content) l)
            (act_or_reply-Runs n r.tool_calls (visible_of_stream s r.fallback_content)
              (raw_of_stream s r.fallback_content))

  round-Runs :
      (n : ℕ) (l : Locals)
      → Runs (at (suc n) l.quality_retry_done) (round env l) (λ l'. at n l'.quality_retry_done) Q
  unfolding round
  round-Runs n l =
      Runs-bind (ask env l.messages) _ (passes.asks n l.quality_retry_done l.messages) λ chunks.
        Runs-bind (receive env chunks (opened env.active_flow env.metadata)) _
          (receive-Stays env R (at n l.quality_retry_done) Q (passes.closed n _) chunks _)
          (λ r. settle-Runs n r l)

  pub rounds-Runs :
      (n : ℕ) (l : Locals) → Runs (at n l.quality_retry_done) (rounds env n l) (λ _. end) Q
  unfolding rounds
  rounds-Runs zero l = passes.ends l
  rounds-Runs (suc n) l = Runs-bind (round env l) _ (round-Runs n l) (rounds-Runs n)
