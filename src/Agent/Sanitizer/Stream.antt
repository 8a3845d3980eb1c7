-- ===== src/Agent/Sanitizer/Stream.antt =====
-- What a whole stream sends, however the text is cut into chunks.
use mathlib.Core.List.{append-nil, append_assoc}
use go_saas_api.Common.{
  ℕ, ◌-◌, ◌≤◌, ◌≡◌, refl, sym, ap, ◌∙◌, true, false, none, some, List, [], ◌∷◌, ◌++◌, arith, ltb,
  ltb→lt, ltb→le, length, length-append, length-take, take, drop, take-append-drop, take_all,
  take-append-le, take-append-drop-take, Bool-cases, Option-cases, inl, inr,
}
use go_saas_api.Common.Bytes.{Bytes, index_of}
use go_saas_api.Common.Bytes.Index.{
  index_of-append, index_of-append_new, index_of-length, index_of-take,
}
use go_saas_api.Flows.Question.{flow_state_marker, before}
use go_saas_api.Agent.Sanitizer.{
  Sanitizer, fresh, flow_state_tail_len, emit, process_found, process, flush, visible_content,
  process_all, stream,
}

-- The text of all chunks.
unfoldable pub concat : List Bytes → Bytes
concat [] = []
concat (chunk ∷ chunks) = chunk ++ concat chunks

-- The text up to the marker: what the client may see of a whole answer.
abbrev pub visible_of : Bytes → Bytes
visible_of full = before (index_of flow_state_marker full) full

-- The state behind the text `full` while no marker was met, with the first `n` bytes sent.
abbrev pub opened : Bytes → ℕ → Sanitizer
opened full n = record { blocked = false; buffer = full; streamed_up = n; collecting = false }

-- The state behind the marker.
abbrev pub shut : Bytes → ℕ → Sanitizer
shut full n = record { blocked = true; buffer = full; streamed_up = n; collecting = false }

pub process_all-shut :
    (chunks : List Bytes) (full : Bytes) (n : ℕ)
    → process_all chunks (shut full n) ≡ ([], shut full n)
unfolding process_all process
process_all-shut [] full n = refl
process_all-shut (chunk ∷ chunks) full n = rw (process_all-shut chunks full n)

-- Sending what is new of the first `m` bytes makes up the first `m` bytes.
sent_up :
    (n m : ℕ) (full chunk : Bytes)
    → n ≤ length full
    → n ≤ m
    → take n full ++ drop n (take m (full ++ chunk)) ≡ take m (full ++ chunk)
sent_up n m full chunk h le =
    rw (← take-append-le n full chunk h) (take-append-drop-take n m (full ++ chunk) le)

-- One chunk that completes no marker: a longer part is sent, short of a possible marker's start.
pub process-opened :
    (full chunk : Bytes) (n : ℕ)
    → n ≤ length full - flow_state_tail_len
    → index_of flow_state_marker (full ++ chunk) ≡ none
    → (m : ℕ) × (out : Bytes) × (process chunk (opened full n) ≡ (out, opened (full ++ chunk) m))
      × (take n full ++ out ≡ take m (full ++ chunk))
      × (m ≤ length (full ++ chunk) - flow_state_tail_len)
unfolding process
process-opened full chunk n h e =
    let safe = length (full ++ chunk) - flow_state_tail_len in
    elim (Bool-cases (ltb n safe)) [
      | inl more ↦ (
        safe,
        drop n (take safe (full ++ chunk)),
        rw (e, process_found, more),
        sent_up n safe full chunk (omega arith) (omega (arith, ltb→lt n safe more)),
        omega arith,
      )
      | inr done ↦ (
        n,
        [],
        rw (e, process_found, done),
        append-nil (take n full) ∙ sym (take-append-le n full chunk (omega arith)),
        omega (arith, length-append full chunk),
      )
    ]

-- The chunk that completes the marker: what was held back before it is sent.
pub process-opened_marker :
    (full chunk : Bytes) (n idx : ℕ)
    → n ≤ length full - flow_state_tail_len
    → index_of flow_state_marker full ≡ none
    → index_of flow_state_marker (full ++ chunk) ≡ some idx
    → (m : ℕ) × (out : Bytes) × (process chunk (opened full n) ≡ (out, shut (full ++ chunk) m))
      × (take n full ++ out ≡ take idx (full ++ chunk))
unfolding process
process-opened_marker full chunk n idx h clean e =
    let behind = index_of-append_new flow_state_marker full chunk idx (omega arith) clean e in
    let inside = index_of-length flow_state_marker (full ++ chunk) idx e in
    let visible = take idx (full ++ chunk) in
    let measure : length visible ≡ idx = length-take idx (full ++ chunk) ∙ omega (arith, inside) in
    elim (Bool-cases (ltb n (length visible))) [
      | inl more ↦ (
        length visible,
        drop n visible,
        rw (e, process_found, emit, more),
        sent_up n idx full chunk (omega arith) (omega (arith, behind)),
      )
      | inr done ↦
          let all : n ≡ idx = omega (arith, behind, ltb→le n (length visible) done, measure) in
          (
            n,
            [],
            rw (e, process_found, emit, done),
            append-nil (take n full)
                ∙ sym (take-append-le n full chunk (omega arith))
                ∙ ap (λ k. take k (full ++ chunk)) all,
          )
    ]

stream-cons :
    (chunk : Bytes) (chunks : List Bytes) (s : Sanitizer)
    → stream (chunk ∷ chunks) s ≡ (process chunk s).0 ++ stream chunks (process chunk s).1
unfolding stream
stream-cons chunk chunks s =
    append_assoc (process chunk s).0 (process_all chunks (process chunk s).1).0 _

stream-nil-opened :
    (full : Bytes) (n : ℕ)
    → n ≤ length full - flow_state_tail_len
    → index_of flow_state_marker full ≡ none
    → (take n full ++ stream [] (opened full n) ≡ full) × (visible_content (opened full n) ≡ full)
unfolding stream flush before
stream-nil-opened full n h e = elim (Bool-cases (ltb n (length full))) [
  | inl more ↦ (rw (e, before, emit, more) (take-append-drop n full), rw (e, before))
  | inr done ↦ (
    rw (e, before, emit, done)
        (append-nil (take n full) ∙ take_all n full (ltb→le n (length full) done)),
    rw (e, before),
  )
]

stream-shut : (chunks : List Bytes) (full : Bytes) (n : ℕ) → stream chunks (shut full n) ≡ []
unfolding stream flush
stream-shut chunks full n = rw (process_all-shut chunks full n)

visible_content-shut : (full : Bytes) (n : ℕ) → visible_content (shut full n) ≡ visible_of full
unfolding visible_content
visible_content-shut full n = refl

abbrev Faithful : List Bytes → Bytes → ℕ → Type 0
Faithful chunks full n =
    (take n full ++ stream chunks (opened full n) ≡ visible_of (full ++ concat chunks))
    × (visible_content (process_all chunks (opened full n)).1 ≡ visible_of (full ++ concat chunks))

stream-opened :
    (chunks : List Bytes) (full : Bytes) (n : ℕ)
    → n ≤ length full - flow_state_tail_len
    → index_of flow_state_marker full ≡ none
    → Faithful chunks full n
unfolding concat process_all before
stream-opened [] full n h e =
    let (sent, seen) = stream-nil-opened full n h e in rw (append-nil full, e) (sent, seen)
stream-opened (chunk ∷ chunks) full n h clean =
    elim (Option-cases (index_of flow_state_marker (full ++ chunk))) [
      | inl e ↦
          let (m, out, step, sent, behind) = process-opened full chunk n h e in
          rw
            (
              stream-cons chunk chunks (opened full n),
              step,
              ← append_assoc (take n full) out (stream chunks (opened (full ++ chunk) m)),
              sent,
              ← append_assoc full chunk (concat chunks),
            )
            (stream-opened chunks (full ++ chunk) m behind e)
      | inr (idx, e) ↦
          let (m, out, step, sent) = process-opened_marker full chunk n idx h clean e in
          let full' = full ++ chunk in
          let rest = concat chunks in
          let inside = index_of-length flow_state_marker full' idx e in
          let prefix = take-append-le idx full' rest (omega (arith, inside)) in
          rw
            (
              stream-cons chunk chunks (opened full n),
              step,
              stream-shut chunks full' m,
              append-nil out,
              sent,
              process_all-shut chunks full' m,
              ← append_assoc full chunk rest,
              index_of-append flow_state_marker full' rest idx e,
            )
            (sym prefix, rw (visible_content-shut full' m, e) (sym prefix))
    ]

-- However the model's answer is cut into chunks, and with no flow collecting, what a stream sends
-- to the client is the answer up to the marker, all of it if there is none; and that is the
-- content which is then saved.
pub stream-fresh :
    (chunks : List Bytes)
    → (stream chunks (fresh false) ≡ visible_of (concat chunks))
      × (visible_content (process_all chunks (fresh false)).1 ≡ visible_of (concat chunks))
unfolding index_of
stream-fresh chunks = stream-opened chunks [] 0 (omega arith) refl

-- Nothing of the marker is sent, whole, in any stream that is not collecting.
index_of-stream :
    (chunks : List Bytes) → index_of flow_state_marker (stream chunks (fresh false)) ≡ none
unfolding before
index_of-stream chunks =
    rw (stream-fresh chunks).0 (elim (Option-cases (index_of flow_state_marker (concat chunks))) [
      | inl e ↦ rw (e, before) e
      | inr (i, e) ↦
          rw (e, before) (index_of-take flow_state_marker (concat chunks) i (omega arith) e)
    ])
