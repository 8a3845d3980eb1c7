-- ===== src/Agent/Loop/Reread.antt =====
-- The calls of tools in one pass of `agentLoop` (internal/agent/runtime/agent_loop.go): what the
-- next pass is sent of them, and what is read back from the rows in a later turn.
use mathlib.Core.List.{append_assoc, append-nil}
use go_saas_api.Common.{
  true-ne-false, ℕ, ◌≡◌, ◌≢◌, refl, sym, ap, ◌∙◌, true, List, [], ◌∷◌, ◌++◌, ◌==◌, string_eq,
  Bool-cases, inl, inr,
}
use go_saas_api.Common.Bytes.{Bytes}
use go_saas_api.Common.Effect.Triple.{After, Runs, Runs-bind, Runs-pure, Runs-given, Runs-mono}
use go_saas_api.Llm.Chat as Chat
use go_saas_api.Llm.Chat.{ToolCall, Chunk, plain}
use go_saas_api.Agent.Loop.{Row, Environment, World, Return, Locals, send, add_message}
use go_saas_api.Agent.Loop.Round.{with_content}
use go_saas_api.Agent.Loop.Tools.{
  tool_start, tool_result, result_message, assistant_row, tool_row, identified, execute, call_tool,
  call_tools, save_results, act,
}
use go_saas_api.Agent.Loop.Closed.{send-Runs, write-Runs}
use go_saas_api.Agent.Dispatcher.{from_rows}

-- The result of a call: it has the call's id, or a new one where the call has none.
pub record IsReply (env : Environment) (c : ToolCall) (m : Chat.Message) : Type 0 where
  pub shape : m ≡ result_message (record c { id = m.tool_call_id }) m.content
  pub same_id : c.id ≢ "" → m.tool_call_id ≡ c.id
  pub new_id : c.id ≡ "" → (n : ℕ) × (m.tool_call_id ≡ env.new_id n)

-- One result for each call, in order.
abbrev pub Answers : Environment → List ToolCall → List Chat.Message → Type 0
Answers env [] [] = Unit
Answers env [] (m ∷ ms) = ⊥
Answers env (c ∷ calls) [] = ⊥
Answers env (c ∷ calls) (m ∷ ms) = IsReply env c m × Answers env calls ms

-- The results under the ids of the calls.
abbrev pub under_ids : List ToolCall → List Chat.Message → List Chat.Message
under_ids [] ms = []
under_ids (c ∷ calls) [] = []
under_ids (c ∷ calls) (m ∷ ms) = record m { tool_call_id = c.id } ∷ under_ids calls ms

-- What a pass with calls leaves for the next pass, and for a later turn.
pub record IsReread (env : Environment) (tc : ToolCall) (calls : List ToolCall) (visible : Bytes)
    (before next : List Chat.Message) (rows rows' : List Row) : Type 0 where
  pub results : List Chat.Message
  pub answered : Answers env (tc ∷ calls) results
  pub sent_next :
      next ≡ before ++ record (plain "assistant" visible) { tool_calls = tc ∷ calls } ∷ results
  pub saved : List Row
  pub added : rows' ≡ rows ++ saved
  pub read_back :
      from_rows saved
      ≡ record (plain "assistant" visible) { tool_calls = tc ∷ [] } ∷ under_ids (tc ∷ calls) results

abbrev rows_of : Environment → List ToolCall → List Chat.Message → List Row
rows_of env [] ms = []
rows_of env (tc ∷ calls) [] = tool_row env tc [] ∷ rows_of env calls []
rows_of env (tc ∷ calls) (m ∷ ms) = tool_row env tc m.content ∷ rows_of env calls ms

from_rows-rows_of :
    (env : Environment) (calls : List ToolCall) (ms : List Chat.Message)
    → Answers env calls ms
    → from_rows (rows_of env calls ms) ≡ under_ids calls ms
unfolding from_rows
from_rows-rows_of env [] [] all = refl
from_rows-rows_of env [] (m ∷ ms) all = absurd all
from_rows-rows_of env (c ∷ calls) [] all = absurd all
from_rows-rows_of env (c ∷ calls) (m ∷ ms) all = cc (
  ap (λ (k : Chat.Message). record k { tool_call_id = c.id }) all.0.shape,
  from_rows-rows_of env calls ms all.1,
)

module _ (env : Environment) (stays : (n : ℕ) → env.taken n ≡ true) (rows : List Row) where
  abbrev Kept : World → Type 0
  Kept w = w.rows ≡ rows

  abbrev Any : Return → World → Type 0
  Any e w = ⊥

  -- The copy of a call that is worked on.
  abbrev Copy : ToolCall → ToolCall → Type 0
  Copy c tc =
      (tc.name ≡ c.name)
      × (tc.arguments ≡ c.arguments)
      × (c.id ≢ "" → tc.id ≡ c.id)
      × (c.id ≡ "" → (n : ℕ) × (tc.id ≡ env.new_id n))

  send-Kept : (c : Chunk) → Runs Kept (send env c) (λ _. Kept) Any
  send-Kept c =
      send-Runs env c (λ w _ p. p)
        (λ w gone p. absurd (true-ne-false (sym (stays w.offered) ∙ gone)))

  identified-Copy : (c : ToolCall) → Runs Kept (identified env c) (λ tc w. Copy c tc × Kept w) Any
  unfolding identified
  identified-Copy c = record {
    at = λ w p. elim (Bool-cases (c.id == "")) [
      | inl empty ↦ rw empty (
        (
          refl,
          refl,
          (λ named. absurd (named ((string_eq.equals_iff c.id "").0 empty))),
          λ _. (w.executed, refl),
        ),
        p,
      )
      | inr named ↦ rw named (
        (
          refl,
          refl,
          (λ _. refl),
          λ e. absurd (true-ne-false (sym ((string_eq.equals_iff c.id "").1 e) ∙ named)),
        ),
        p,
      )
    ];
  }

  execute-Kept : (tc : ToolCall) → Runs Kept (execute env tc) (λ _. Kept) Any
  unfolding execute
  execute-Kept tc = record { at = λ w p. p }

  call_tool-IsReply :
      (c : ToolCall) (l : Locals)
      → Runs Kept
          (call_tool env c l)
          (λ r w. (IsReply env c r.0 × (r.1.messages ≡ l.messages)) × Kept w)
          Any
  unfolding call_tool
  call_tool-IsReply c l = Runs-bind (identified env c) _ (identified-Copy c) λ tc.
      Runs-given _ λ (name, arguments, same, new).
        Runs-bind (send env (tool_start tc)) _ (send-Kept _) λ _.
          Runs-bind (execute env tc) _ (execute-Kept tc) λ content.
            Runs-bind (send env (tool_result tc content)) _ (send-Kept _) λ _.
              Runs-pure _
                λ w p. ((record { shape = rw name refl; same_id = same; new_id = new }, refl), p)

  call_tools-Answers :
      (calls : List ToolCall) (l : Locals)
      → Runs Kept
          (call_tools env calls l)
          (λ r w. (Answers env calls r.0 × (r.1.messages ≡ l.messages)) × Kept w)
          Any
  unfolding call_tools
  call_tools-Answers [] l = Runs-pure _ (λ w p. ((tt, refl), p))
  call_tools-Answers (c ∷ calls) l =
      Runs-bind (call_tool env c l) _ (call_tool-IsReply c l) λ first. Runs-given _ λ (reply, same).
        Runs-bind (call_tools env calls first.1) _ (call_tools-Answers calls first.1)
          λ rest. Runs-pure _ λ w p. (((reply, p.0.0), p.0.1 ∙ same), p.1)

module _ (env : Environment) (stays : (n : ℕ) → env.taken n ≡ true)
    (writes : (n : ℕ) → env.writes n ≡ true) where
  add_message-rows :
      (rows : List Row) (row : Row)
      → Runs
          (Kept env stays rows)
          (add_message env row)
          (λ _. Kept env stays (rows ++ row ∷ []))
          (Any env stays rows)
  unfolding add_message
  add_message-rows rows row =
      write-Runs env (λ (w : World). record w { rows = w.rows ++ row ∷ [] })
        (λ w p. ap (λ (r : List Row). r ++ row ∷ []) p)
        (λ w ill p. absurd (true-ne-false (sym (writes w.written) ∙ ill)))

  save_results-rows :
      (rows : List Row) (calls : List ToolCall) (ms : List Chat.Message)
      → Runs
          (Kept env stays rows)
          (save_results env calls ms)
          (λ _. Kept env stays (rows ++ rows_of env calls ms))
          (Any env stays rows)
  unfolding save_results
  save_results-rows rows [] ms = Runs-pure tt (λ w p. p ∙ sym (append-nil rows))
  save_results-rows rows (c ∷ calls) [] =
      Runs-bind (add_message env (tool_row env c [])) _ (add_message-rows rows (tool_row env c []))
        λ _.
          Runs-mono _ (save_results-rows (rows ++ tool_row env c [] ∷ []) calls [])
            (λ a w p. p ∙ append_assoc rows (tool_row env c [] ∷ []) (rows_of env calls []))
            (λ e w q. q)
  save_results-rows rows (c ∷ calls) (m ∷ ms) =
      Runs-bind (add_message env (tool_row env c m.content)) _
        (add_message-rows rows (tool_row env c m.content))
        λ _.
          Runs-mono _ (save_results-rows (rows ++ tool_row env c m.content ∷ []) calls ms)
            (λ a w p. p ∙ append_assoc rows (tool_row env c m.content ∷ []) (rows_of env calls ms))
            (λ e w q. q)

  act-Runs :
      (tc : ToolCall) (calls : List ToolCall) (visible : Bytes) (l : Locals) (rows : List Row)
      → Runs
          (Kept env stays rows)
          (act env tc calls visible l)
          (λ l' w. IsReread env tc calls visible l.messages l'.messages rows w.rows)
          (Any env stays rows)
  unfolding act
  act-Runs tc calls visible l rows =
      let own = assistant_row env visible (tc ∷ []) in
      Runs-bind (call_tools env (tc ∷ calls) (with_content visible l)) _
        (call_tools-Answers env stays rows (tc ∷ calls) (with_content visible l))
        λ r. Runs-given _ λ (all, same).
          Runs-bind (add_message env own) _ (add_message-rows rows own) λ _.
            Runs-bind (save_results env (tc ∷ calls) r.0) _
              (save_results-rows (rows ++ own ∷ []) (tc ∷ calls) r.0)
              λ _. Runs-pure _ λ w p. record {
                results = r.0;
                answered = all;
                sent_next =
                    ap
                      (λ (ms : List Chat.Message).
                        ms ++ record (plain "assistant" visible) { tool_calls = tc ∷ calls } ∷ r.0)
                      same;
                saved = own ∷ rows_of env (tc ∷ calls) r.0;
                added = p ∙ append_assoc rows (own ∷ []) (rows_of env (tc ∷ calls) r.0);
                read_back =
                    unfold from_rows in
                    ap
                      (λ (ms : List Chat.Message).
                        record (plain "assistant" visible) { tool_calls = tc ∷ [] } ∷ ms)
                      (from_rows-rows_of env (tc ∷ calls) r.0 all);
              }

-- Where the database does not fail and the client stays: the pass goes on; an answer with calls is sent
-- on to the next pass with all its calls, each of them answered, in order, under its id, or under
-- a new id if it has none. What the rows of the pass are read back as has the first of the calls
-- only, then the results of all calls, under the ids of the calls as the model gave them.
pub act-IsReread :
    (env : Environment) (tc : ToolCall) (calls : List ToolCall) (visible : Bytes) (l : Locals)
    (w : World)
    → ((n : ℕ) → env.taken n ≡ true)
    → ((n : ℕ) → env.writes n ≡ true)
    → After
        (λ l' w'. IsReread env tc calls visible l.messages l'.messages w.rows w'.rows)
        (λ e w'. ⊥)
        (act env tc calls visible l w)
act-IsReread env tc calls visible l w stays writes =
    (act-Runs env stays writes tc calls visible l w.rows).at w refl
