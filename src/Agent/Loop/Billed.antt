-- ===== src/Agent/Loop/Billed.antt =====
-- What `agentLoop` (internal/agent/runtime/agent_loop.go) records of the tokens that were used.
use go_saas_api.Common.{
  true-ne-false, ℕ, ◌≡◌, refl, sym, ap, ◌∙◌, ◌⊎◌, inl, inr, true, false, Option, none, some, List,
  [], ◌∷◌, ◌++◌, arith,
}
use go_saas_api.Common.Bytes.{Bytes}
use go_saas_api.Common.Effect.Triple.{After, Runs, Runs-bind, Runs-pure}
use go_saas_api.Llm.Chat as Chat
use go_saas_api.Llm.Chat.{Chunk}
use go_saas_api.Llm.Pricing.{resolve_pricing, calculate_cost}
use go_saas_api.Agent.Loop.{
  Flow, Row, assistant, UsageRecord, Environment, World, Return, client_gone, llm_failed, finished,
  Locals, send, add_message,
}
use go_saas_api.Agent.Loop.Turn.{
  final_row, usage_of, store_metadata, track_usage, save_answer, flow_deliver, flow_update,
  done_chunk, max_reached, give_out, agent_loop,
}
use go_saas_api.Agent.Loop.Closed.{send-Runs, write-Runs}
use go_saas_api.Agent.Loop.Ending.{Ending, agent_loop-Runs}

-- One more record than `before`, with the tokens of the row that is the answer, and their price.
pub record IsBilled (env : Environment) (before records : List UsageRecord) (rows : List Row)
    : Type 0 where
  pub record_of : UsageRecord
  pub earlier : List Row
  pub answer : Row
  pub recorded : records ≡ before ++ record_of ∷ []
  pub saved : rows ≡ earlier ++ answer ∷ []
  pub spoken : answer.role ≡ assistant
  pub input : record_of.tokens_input ≡ answer.tokens_input
  pub output : record_of.tokens_output ≡ answer.tokens_output
  pub priced :
      record_of.cost_usd
      ≡ calculate_cost
          (resolve_pricing env.normalize env.agent.model)
          answer.tokens_input
          answer.tokens_output

-- What is billed, by the way in which the loop was left.
abbrev pub Bill : Environment → List UsageRecord → Return → World → Type 0
Bill env before finished w = IsBilled env before w.records w.rows
Bill env before llm_failed w = w.records ≡ before
Bill env before client_gone w = (w.records ≡ before) ⊎ IsBilled env before w.records w.rows

module _ (env : Environment) (writes : (n : ℕ) → env.writes n ≡ true) (tracked : env.tracked ≡ true)
    (before : List UsageRecord) where
  abbrev Unbilled : World → Type 0
  Unbilled w = w.records ≡ before

  abbrev Settled : World → Type 0
  Settled w = IsBilled env before w.records w.rows

  abbrev AnyRow : Row → Type 0
  AnyRow row = Unit {0}

  -- Behind the row of the answer.
  abbrev Answered : Locals → World → Type 0
  Answered l w =
      (w.records ≡ before)
      × (earlier : List Row) × (answer : Row) × (w.rows ≡ earlier ++ answer ∷ [])
      × (answer.role ≡ assistant)
      × (l.total_input_tokens ≡ answer.tokens_input)
      × (l.total_output_tokens ≡ answer.tokens_output)

  written_well : {A : Type 0} (n : ℕ) → env.writes n ≡ false → A
  written_well n ill = absurd (true-ne-false (sym (writes n) ∙ ill))

  store_metadata-Answered :
      (flow : Option Flow) (raw : Bytes) (l : Locals)
      → Runs (Answered l) (store_metadata env flow raw l) (λ _. Answered l) (Bill env before)
  unfolding store_metadata
  store_metadata-Answered none raw l = Runs-pure tt (λ w p. p)
  store_metadata-Answered (some flow) raw l =
      write-Runs env
        (λ (w : World). record w {
          stored = some (
              flow_deliver flow l.real_deliverables
                (flow_update env.flow_calls flow env.metadata raw));
        })
        (λ w p. p) (λ w ill p. p)

  track_usage-IsBilled :
      (l : Locals) → Runs (Answered l) (track_usage env l) (λ _. Settled) (Bill env before)
  unfolding track_usage
  track_usage-IsBilled l = rw tracked (
      write-Runs env (λ (w : World). record w { records = w.records ++ usage_of env l ∷ [] })
        (λ w (same, earlier, answer, saved, spoken, input, output). record {
          record_of = usage_of env l;
          earlier = earlier;
          answer = answer;
          recorded = ap (λ r. r ++ usage_of env l ∷ []) same;
          saved = saved;
          spoken = spoken;
          input = input;
          output = output;
          priced = rw (input, output) refl;
        })
        (λ w ill p. written_well w.written ill))

  save_answer-IsBilled :
      (content raw : Bytes) (l : Locals)
      → Runs Unbilled (save_answer env content raw l) (λ _. Settled) (Bill env before)
  unfolding save_answer add_message
  save_answer-IsBilled content raw l =
      Runs-bind (add_message env (final_row env content l)) _
        (write-Runs env {R = λ _. Answered l}
          (λ (w : World). record w { rows = w.rows ++ final_row env content l ∷ [] })
          (λ w p. (p, w.rows, final_row env content l, refl, refl, refl, refl))
          (λ w ill p. written_well w.written ill))
        λ _.
          Runs-bind (store_metadata env env.active_flow raw l) _
            (store_metadata-Answered env.active_flow raw l) (λ _. track_usage-IsBilled l)

  sent-Unbilled : (c : Chunk) (w : World) → Unbilled w → Unbilled (send env c w).1
  unfolding send
  sent-Unbilled c w p = ground arith

  give_out-IsBilled : (l : Locals) → Runs Unbilled (give_out env l) (λ _. Settled) (Bill env before)
  unfolding give_out
  give_out-IsBilled l = record {
    at = λ w p.
        (save_answer-IsBilled _ _ l).at (send env (done_chunk max_reached) w).1
          (sent-Unbilled (done_chunk max_reached) w p);
  }

  billed-Ending : Ending env AnyRow Unbilled Settled Settled (Bill env before)
  billed-Ending = record {
    closed = record {
      on_send = λ c w more p. p;
      on_gone = λ w gone p. inl p;
      on_execute = λ w p. p;
      on_row = λ row w fits p. p;
      on_unwritten = λ w p. p;
    };
    fits_tool = λ tc content. tt;
    fits_own = λ content calls. tt;
    on_ask = λ w p. p;
    on_judged = λ w p. p;
    on_error = λ c w end p. sent-Unbilled c w p;
    on_save = save_answer-IsBilled;
    on_done = send-Runs env (done_chunk []) (λ w _ p. p) (λ w gone p. inr p);
    on_out = give_out-IsBilled;
  }

-- Where usage is tracked and the database does not fail: a run that ends with an answer of its own
-- leaves one more record, with the tokens of the row that is its answer, and their price; a run in
-- which a request to the model fails leaves none, whatever its requests before have used, and one
-- whose client goes leaves one or none.
pub agent_loop-IsBilled :
    (env : Environment) (messages : List Chat.Message) (w : World)
    → env.tracked ≡ true
    → ((n : ℕ) → env.writes n ≡ true)
    → After
        (λ _ w'. IsBilled env w.records w'.records w'.rows)
        (Bill env w.records)
        (agent_loop env messages w)
agent_loop-IsBilled env messages w tracked writes =
    (agent_loop-Runs env (AnyRow env writes tracked w.records) _ _ _ _
        (billed-Ending env writes tracked w.records) messages).at
      w refl
