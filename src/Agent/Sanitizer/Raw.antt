-- ===== src/Agent/Sanitizer/Raw.antt =====
-- What a stream sends while the flow is collecting, and what the raw content keeps.
use mathlib.Core.List.{append-nil, append_assoc}
use go_saas_api.Common.{
  ℕ, ◌-◌, ◌≤◌, ◌≡◌, sym, ap, ◌∙◌, true, false, none, some, List, [], ◌∷◌, ◌++◌, arith, ltb, ltb→le,
  length, take_all, Bool-cases, Option-cases, inl, inr,
}
use go_saas_api.Common.Bytes.{Bytes, index_of}
use go_saas_api.Common.Bytes.Index.{index_of-append}
use go_saas_api.Flows.Question.{flow_state_marker, enforce_single_question}
use go_saas_api.Agent.Sanitizer.{
  Sanitizer, fresh, flow_state_tail_len, emit, process, flush, raw_content, process_all, stream,
}
use go_saas_api.Agent.Sanitizer.Stream.{
  concat, visible_of, opened, process_all-shut, process-opened, process-opened_marker,
}

-- While the flow is collecting nothing is sent before the stream ends.
process_all-collecting :
    (chunks : List Bytes) (full : Bytes)
    → process_all chunks
        (record { blocked = false; buffer = full; streamed_up = 0; collecting = true })
      ≡ (
        [],
        record {
          blocked = false;
          buffer = full ++ concat chunks;
          streamed_up = 0;
          collecting = true;
        },
      )
unfolding process_all process concat
process_all-collecting [] full = rw (append-nil full)
process_all-collecting (chunk ∷ chunks) full =
    rw (process_all-collecting chunks (full ++ chunk), append_assoc full chunk (concat chunks))

-- While the flow is collecting, a stream sends the whole visible answer in one piece at its end,
-- cut to one question; the raw content is kept whole for the flow's state.
stream-collecting :
    (chunks : List Bytes)
    → (stream chunks (fresh true)
        ≡ enforce_single_question (visible_of (concat chunks)) "collecting")
      × ((process_all chunks (fresh true)).0 ≡ [])
      × (raw_content (process_all chunks (fresh true)).1 ≡ concat chunks)
unfolding stream flush raw_content
stream-collecting chunks =
    let whole = process_all-collecting chunks [] in
    let sent = enforce_single_question (visible_of (concat chunks)) "collecting" in
    (
      rw (whole) (elim (Bool-cases (ltb 0 (length sent))) [
        | inl more ↦ rw (emit, more)
        | inr empty ↦ rw (emit, empty) (take_all 0 sent (ltb→le 0 (length sent) empty))
      ]),
      rw whole,
      rw whole,
    )

index_of-none_append :
    (s t : Bytes) → index_of flow_state_marker (s ++ t) ≡ none → index_of flow_state_marker s ≡ none
index_of-none_append s t h = elim (Option-cases (index_of flow_state_marker s)) [
  | inl e ↦ e
  | inr (i, e) ↦ cc (index_of-append flow_state_marker s t i e)
]

raw_content-opened :
    (before_it behind_it : List Bytes) (chunk full : Bytes) (n idx : ℕ)
    → n ≤ length full - flow_state_tail_len
    → index_of flow_state_marker (full ++ concat before_it) ≡ none
    → index_of flow_state_marker ((full ++ concat before_it) ++ chunk) ≡ some idx
    → raw_content (process_all (before_it ++ chunk ∷ behind_it) (opened full n)).1
      ≡ (full ++ concat before_it) ++ chunk
unfolding process_all concat raw_content
raw_content-opened [] behind_it chunk full n idx h clean found =
    let clean' = rw append-nil at clean in
    let found' = rw append-nil at found in
    let (m, out, step, sent) = process-opened_marker full chunk n idx h clean' found' in
    ap (λ (r : Bytes × Sanitizer). (process_all behind_it r.1).1.buffer) step
    ∙ ap (λ (r : Bytes × Sanitizer). r.1.buffer) (process_all-shut behind_it (full ++ chunk) m)
    ∙ ap (λ t. t ++ chunk) (sym (append-nil full))
raw_content-opened (c ∷ cs) behind_it chunk full n idx h clean found =
    let clean' = rw (← append_assoc full c (concat cs)) at clean in
    let found' = rw (← append_assoc full c (concat cs)) at found in
    let first = index_of-none_append (full ++ c) (concat cs) clean' in
    let (m, out, step, sent, behind) = process-opened full c n h first in
    ap (λ (r : Bytes × Sanitizer). (process_all (cs ++ chunk ∷ behind_it) r.1).1.buffer) step
    ∙ raw_content-opened cs behind_it chunk (full ++ c) m idx behind clean' found'
    ∙ ap (λ t. t ++ chunk) (append_assoc full c (concat cs))

-- The raw content of a stream that is not collecting ends with the chunk that completes the
-- marker: the chunks behind it leave no trace.
pub raw_content-marker :
    (before_it behind_it : List Bytes) (chunk : Bytes) (idx : ℕ)
    → index_of flow_state_marker (concat before_it) ≡ none
    → index_of flow_state_marker (concat before_it ++ chunk) ≡ some idx
    → raw_content (process_all (before_it ++ chunk ∷ behind_it) (fresh false)).1
      ≡ concat before_it ++ chunk
raw_content-marker before_it behind_it chunk idx clean found =
    raw_content-opened before_it behind_it chunk [] 0 idx (omega arith) clean found
