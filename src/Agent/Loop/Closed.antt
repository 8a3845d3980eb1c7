-- ===== src/Agent/Loop/Closed.antt =====
-- A predicate on the world that the steps of a pass keep, from a request's first chunk to the rows
-- of its tools (internal/agent/runtime/agent_loop.go).
use go_saas_api.Common.{
  suc, ◌≡◌, refl, ◌∙◌, Bool, true, false, Option, none, some, List, [], ◌∷◌, ◌++◌, Bool-cases, inl,
  inr, if◌then◌else◌,
}
use go_saas_api.Common.Bytes.{Bytes}
use go_saas_api.Common.Effect.{◌>>=◌, pure}
use go_saas_api.Common.Effect.Triple.{Runs, Runs-pure, Runs-bind, Runs-given}
use go_saas_api.Llm.Chat as Chat
use go_saas_api.Llm.Chat.{ToolCall, Chunk, content_chunk}
use go_saas_api.Agent.Sanitizer.{Sanitizer, process, flush}
use go_saas_api.Agent.Loop.{
  Row, Environment, World, Return, client_gone, Step, Locals, send, write, add_message,
}
use go_saas_api.Agent.Loop.Round.{
  Received, noted, with_content, send_some, forward, receive, flush_rest,
}
use go_saas_api.Agent.Loop.Tools.{
  tool_start, tool_result, assistant_row, tool_row, identified, execute, call_tool, call_tools,
  save_results, act,
}

-- `P` is kept by the chunks that do not end the answer, by calls of tools, and by rows with `R`;
-- where the client is gone, `Q` holds.
pub record Closed (env : Environment) (R : Row → Type 0) (P : World → Type 0)
    (Q : Return → World → Type 0) : Type 0 where
  pub on_send :
      (c : Chunk) (w : World)
      → c.done ≡ false
      → P w
      → P (record w { sent = w.sent ++ c ∷ []; offered = suc w.offered })
  pub on_gone :
      (w : World)
      → env.taken w.offered ≡ false
      → P w
      → Q client_gone (record w { offered = suc w.offered })
  pub on_execute : (w : World) → P w → P (record w { executed = suc w.executed })
  pub on_row :
      (row : Row) (w : World)
      → R row
      → P w
      → P (record w { written = suc w.written; rows = w.rows ++ row ∷ [] })
  pub on_unwritten : (w : World) → P w → P (record w { written = suc w.written })

-- What the calls of tools leave of the variables of the loop.
pub record SameTask (l l' : Locals) : Type 0 where
  pub retry : l'.quality_retry_done ≡ l.quality_retry_done
  pub messages : l'.messages ≡ l.messages
  pub input : l'.total_input_tokens ≡ l.total_input_tokens
  pub output : l'.total_output_tokens ≡ l.total_output_tokens

SameTask-refl : (l : Locals) → SameTask l l
SameTask-refl l = record { retry = refl; messages = refl; input = refl; output = refl }

SameTask-trans : {l l' l'' : Locals} → SameTask l l' → SameTask l' l'' → SameTask l l''
SameTask-trans a b = record {
  retry = b.retry ∙ a.retry;
  messages = b.messages ∙ a.messages;
  input = b.input ∙ a.input;
  output = b.output ∙ a.output;
}

module _ (env : Environment) {P : World → Type 0} {Q : Return → World → Type 0} where
  -- A chunk that is offered, and is taken or not.
  pub send-Runs :
      {R : Unit {0} → World → Type 0} (c : Chunk)
      → ((w : World)
          → env.taken w.offered ≡ true
          → P w
          → R tt (record w { sent = w.sent ++ c ∷ []; offered = suc w.offered }))
      → ((w : World)
          → env.taken w.offered ≡ false
          → P w
          → Q client_gone (record w { offered = suc w.offered }))
      → Runs P (send env c) R Q
  unfolding send
  send-Runs c there away = record {
    at = λ s p. elim (Bool-cases (env.taken s.offered)) [
      | inl taken ↦ rw taken (there s taken p)
      | inr gone ↦ rw gone (away s gone p)
    ];
  }

  -- A write, which goes well or not.
  pub write-Runs :
      {R : Unit {0} → World → Type 0} (change : World → World)
      → ((w : World) → P w → R tt (change (record w { written = suc w.written })))
      → ((w : World)
          → env.writes w.written ≡ false
          → P w
          → R tt (record w { written = suc w.written }))
      → Runs P (write env change) R Q
  unfolding write
  write-Runs change good bad = record {
    at = λ s p. elim (Bool-cases (env.writes s.written)) [
      | inl well ↦ rw well (good s p)
      | inr ill ↦ rw ill (bad s ill p)
    ];
  }

module _ (env : Environment) (R : Row → Type 0) (P : World → Type 0) (Q : Return → World → Type 0)
    (closed : Closed env R P Q) where
  -- `m` keeps `P`, whatever it returns.
  abbrev pub Stays : {A : Type 0} → Step A → Type 0
  Stays m = Runs P m (λ _. P) Q

  pub send-Stays : (c : Chunk) → c.done ≡ false → Stays (send env c)
  send-Stays c more =
      send-Runs env c (λ w _ p. closed.on_send c w more p) (λ w gone p. closed.on_gone w gone p)

  pub add_message-Stays : (row : Row) → R row → Stays (add_message env row)
  unfolding add_message
  add_message-Stays row fits =
      write-Runs env (λ (w : World). record w { rows = w.rows ++ row ∷ [] })
        (λ w p. closed.on_row row w fits p) (λ w _ p. closed.on_unwritten w p)

  then-Stays :
      {A B : Type 0} (m : Step A) (f : A → Step B)
      → Stays m
      → ((a : A) → Stays (f a))
      → Stays (m >>= f)
  then-Stays m f first next = Runs-bind m f first next

  pure-Stays : {A : Type 0} (a : A) → Stays (pure a)
  pure-Stays a = Runs-pure a (λ s p. p)

  send_some-Stays : (out : Bytes) → Stays (send_some env out)
  unfolding send_some
  send_some-Stays [] = pure-Stays tt
  send_some-Stays (b ∷ out) = send-Stays (content_chunk (b ∷ out)) refl

  forward-Stays : (s : Option Sanitizer) (out : Bytes) (r : Received) → Stays (forward env s out r)
  unfolding forward
  forward-Stays none [] r = pure-Stays r
  forward-Stays (some s) [] r = pure-Stays r
  forward-Stays none (b ∷ out) r =
      then-Stays (send env (content_chunk (b ∷ out))) _ (send-Stays (content_chunk (b ∷ out)) refl)
        (λ _. pure-Stays _)
  forward-Stays (some s) (b ∷ out) r =
      then-Stays (send_some env (process (b ∷ out) s).0) _ (send_some-Stays _) (λ _. pure-Stays _)

  if-Stays : {A : Type 0} (b : Bool) (m n : Step A) → Stays m → Stays n → Stays (if b then m else n)
  if-Stays true m n km kn = km
  if-Stays false m n km kn = kn

  pub receive-Stays : (chunks : List Chunk) (r : Received) → Stays (receive env chunks r)
  unfolding receive
  receive-Stays [] r = pure-Stays r
  receive-Stays (chunk ∷ chunks) r =
      then-Stays (forward env r.sanitizer chunk.content r) _ (forward-Stays _ _ _)
        (λ r'. if-Stays chunk.done _ _ (pure-Stays _) (receive-Stays chunks (noted chunk r')))

  pub flush_rest-Stays : (s : Option Sanitizer) → Stays (flush_rest env s)
  unfolding flush_rest
  flush_rest-Stays none = pure-Stays none
  flush_rest-Stays (some s) =
      then-Stays (send_some env (flush s).0) _ (send_some-Stays _) (λ _. pure-Stays _)

  identified-Stays : (tc : ToolCall) → Stays (identified env tc)
  unfolding identified
  identified-Stays tc = record { at = λ s p. p }

  execute-Stays : (tc : ToolCall) → Stays (execute env tc)
  unfolding execute
  execute-Stays tc = record { at = λ s p. closed.on_execute s p }

  call_tool-Stays :
      (tc : ToolCall) (l : Locals) → Runs P (call_tool env tc l) (λ r w. SameTask l r.1 × P w) Q
  unfolding call_tool
  call_tool-Stays call l = Runs-bind (identified env call) _ (identified-Stays call) λ tc.
      Runs-bind (send env (tool_start tc)) _ (send-Stays _ refl) λ _.
        Runs-bind (execute env tc) _ (execute-Stays tc) λ content.
          Runs-bind (send env (tool_result tc content)) _ (send-Stays _ refl) λ _.
            Runs-pure _
              λ s p. (record { retry = refl; messages = refl; input = refl; output = refl }, p)

  call_tools-Stays :
      (calls : List ToolCall) (l : Locals)
      → Runs P (call_tools env calls l) (λ r w. SameTask l r.1 × P w) Q
  unfolding call_tools
  call_tools-Stays [] l = Runs-pure _ (λ s p. (SameTask-refl l, p))
  call_tools-Stays (tc ∷ calls) l = Runs-bind (call_tool env tc l) _ (call_tool-Stays tc l) λ first.
      Runs-given _ λ same.
        Runs-bind (call_tools env calls first.1) _ (call_tools-Stays calls first.1)
          λ rest. Runs-pure _ λ s p. (SameTask-trans same p.0, p.1)

  save_results-Stays :
      ((tc : ToolCall) (content : Bytes) → R (tool_row env tc content))
      → (calls : List ToolCall) (ms : List Chat.Message) → Stays (save_results env calls ms)
  unfolding save_results
  save_results-Stays fits [] ms = pure-Stays tt
  save_results-Stays fits (tc ∷ calls) [] =
      then-Stays (add_message env (tool_row env tc [])) _ (add_message-Stays _ (fits tc []))
        (λ _. save_results-Stays fits calls [])
  save_results-Stays fits (tc ∷ calls) (m ∷ ms) =
      then-Stays (add_message env (tool_row env tc m.content)) _
        (add_message-Stays _ (fits tc m.content)) (λ _. save_results-Stays fits calls ms)

  pub act-Stays :
      (tc : ToolCall) (calls : List ToolCall) (visible : Bytes) (l : Locals)
      → ((call : ToolCall) (content : Bytes) → R (tool_row env call content))
      → R (assistant_row env visible (tc ∷ []))
      → Runs P
          (act env tc calls visible l)
          (λ l' w. (l'.quality_retry_done ≡ l.quality_retry_done) × P w)
          Q
  unfolding act
  act-Stays tc calls visible l tools own =
      Runs-bind (call_tools env (tc ∷ calls) (with_content visible l)) _
        (call_tools-Stays (tc ∷ calls) _)
        λ r. Runs-given _ λ same.
          Runs-bind (add_message env (assistant_row env visible (tc ∷ []))) _
            (add_message-Stays _ own)
            λ _.
              Runs-bind (save_results env (tc ∷ calls) r.0) _
                (save_results-Stays tools (tc ∷ calls) r.0)
                λ _. Runs-pure _ (λ s p. (same.retry, p))
