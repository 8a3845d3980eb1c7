-- ===== src/Agent/Sanitizer.antt =====
-- `flowStateSanitizer` of internal/agent/runtime/agent_loop.go: it strips the state block that
-- the model appends to its answer from the chunks that are streamed to the client.
pub mod Stream
pub mod Raw
use go_saas_api.Common.{
  ℕ, ◌+◌, ◌-◌, Bool, true, false, not, ◌&&◌, Option, none, some, List, [], ◌∷◌, ◌++◌, ltb,
  if◌then◌else◌, length, take, drop,
}
use go_saas_api.Common.Bytes.{Bytes, index_of}
use go_saas_api.Flows.Question.{flow_state_marker, before, enforce_single_question}

abbrev pub flow_state_tail_len : ℕ
flow_state_tail_len = length flow_state_marker - 1

pub record Sanitizer : Type 0 where
  pub blocked : Bool
  pub buffer : Bytes
  pub streamed_up : ℕ
  pub collecting : Bool

abbrev pub fresh : Bool → Sanitizer
fresh collecting = record { blocked = false; buffer = []; streamed_up = 0; collecting = collecting }

-- What is new of `visible`, which is then marked as streamed.
emit : Bytes → Sanitizer → Bytes × Sanitizer
emit visible s =
    if ltb s.streamed_up (length visible)
    then (drop s.streamed_up visible, record s { streamed_up = length visible })
    else ([], s)

-- The part of `Process` behind the search for the marker.
process_found : Option ℕ → Sanitizer → Bytes × Sanitizer
unfolding emit
process_found (some idx) s = emit (take idx s.buffer) (record s { blocked = true })
process_found none s =
    let safe_len = length s.buffer - flow_state_tail_len in
    if ltb s.streamed_up safe_len
    then (drop s.streamed_up (take safe_len s.buffer), record s { streamed_up = safe_len })
    else ([], s)

process_open : Sanitizer → Bytes × Sanitizer
unfolding process_found
process_open s =
    if s.collecting then ([], s) else process_found (index_of flow_state_marker s.buffer) s

pub process : Bytes → Sanitizer → Bytes × Sanitizer
unfolding process_open
process chunk s =
    if s.blocked then ([], s) else process_open (record s { buffer = s.buffer ++ chunk })

-- The buffer before the marker, with one question at most while the flow is collecting.
pub visible_content : Sanitizer → Bytes
visible_content s =
    let visible = before (index_of flow_state_marker s.buffer) s.buffer in
    if s.collecting then enforce_single_question visible "collecting" else visible

pub flush : Sanitizer → Bytes × Sanitizer
unfolding emit visible_content
flush s = if s.blocked && not s.collecting then ([], s) else emit (visible_content s) s

pub raw_content : Sanitizer → Bytes
raw_content s = s.buffer

-- The loop of `agentLoop` over the chunks of one stream: what is sent, and the state behind it.
pub process_all : List Bytes → Sanitizer → Bytes × Sanitizer
process_all [] s = ([], s)
process_all (chunk ∷ chunks) s =
    let (out, s') = process chunk s in let (outs, s'') = process_all chunks s' in (out ++ outs, s'')

-- All that one stream sends to the client, with the flush at its end.
pub stream : List Bytes → Sanitizer → Bytes
unfolding process_all
stream chunks s = let (outs, s') = process_all chunks s in outs ++ (flush s').0
