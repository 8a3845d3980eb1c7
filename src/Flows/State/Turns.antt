-- ===== src/Flows/State/Turns.antt =====
-- The turns of a conversation in the API integration flow: at the end of each, agentLoop
-- (internal/agent/runtime/agent_loop.go) updates the state, adds the files that were written, and
-- stores the metadata, which the next turn reads again.
use go_saas_api.Common.{
  ◌≡◌, ◌≢◌, ◌⊎◌, refl, sym, ap, ◌∙◌, subst, String, false, Option, none, some, List, [], ◌∷◌, ◌==◌,
  string_eq, Bool-cases, inl, inr,
}
use go_saas_api.Common.Bytes.{Bytes}
use go_saas_api.Flows.State.{
  Slice, Fields, Metadata, required_fields, ApiIntegrationState, FlowStateBlock, load_state,
  save_state,
}
use go_saas_api.Flows.State.Update.{
  value_at, missing_of, cons_slice, compute_missing_fields, parse_flow_state_block,
  infer_fields_from_content, Calls, extracted, advanced, updated, update_state, add_names,
  with_deliverables, add_real_deliverables,
}
use go_saas_api.Flows.State.Stored.{stored, load_state-stored, back_or}
use go_saas_api.Flows.State.Missing.{
  IsComplete, Grows, Grows-IsComplete, stored-compute_missing_fields, merge_extracted-Grows,
  infer_fields_from_content-Grows,
}
use go_saas_api.Flows.State.Delivered.{IsFilled, add_names-some, generated_if-filled}

-- The answer of the model in a turn, with the files that its tools wrote.
pub record Turn : Type 0 where
  pub content : Bytes
  pub real_deliverables : List String

unfoldable pub add_if_any : List String → Metadata → Metadata
unfolding add_real_deliverables
add_if_any [] metadata = metadata
add_if_any (name ∷ names) metadata = add_real_deliverables metadata (name ∷ names)

unfoldable pub take_turn : Calls → Turn → Metadata → Metadata
unfolding update_state stored add_if_any add_real_deliverables
take_turn calls turn metadata =
    stored (add_if_any turn.real_deliverables (update_state calls metadata turn.content))

unfoldable pub play_turns : Calls → List Turn → Metadata → Metadata
unfolding take_turn
play_turns calls [] metadata = metadata
play_turns calls (turn ∷ turns) metadata = play_turns calls turns (take_turn calls turn metadata)

-- The status says what was collected and delivered: a required field is missing, or none is and
-- nothing was delivered, or something was.
abbrev pub IsTracked : ApiIntegrationState → Type 0
IsTracked state =
    ((state.status ≡ "collecting")
      × (compute_missing_fields state.collected_fields ≢ none)
      × (state.deliverables ≡ some []))
    ⊎ ((state.status ≡ "ready_to_generate")
        × IsComplete state.collected_fields
        × (state.deliverables ≡ some []))
    ⊎ ((state.status ≡ "generated") × IsFilled state.deliverables)

cons_slice-filled : (x : String) (xs : Slice) → cons_slice x xs ≢ some []
cons_slice-filled x none e = cc e
cons_slice-filled x (some xs) e = cc e

missing_of-filled : (collected : Fields) (fs : List String) → missing_of collected fs ≢ some []
unfolding missing_of
missing_of-filled collected [] e = cc e
missing_of-filled collected (f ∷ fs) e = elim (Bool-cases (value_at f collected == "")) [
  | inl empty ↦ cons_slice-filled f (missing_of collected fs) (sym (rw empty refl) ∙ e)
  | inr there ↦ missing_of-filled collected fs (sym (rw there refl) ∙ e)
]

advanced-later :
    (missing : Slice) (state : ApiIntegrationState)
    → (state.status == "collecting") ≡ false
    → advanced missing state ≡ state
advanced-later none state later = rw later refl
advanced-later (some []) state later = rw later refl
advanced-later (some (x ∷ xs)) state later = refl

advanced-IsTracked :
    (missing : Slice) (state : ApiIntegrationState)
    → compute_missing_fields state.collected_fields ≡ missing
    → missing ≢ some []
    → state.status ≡ "collecting"
    → state.deliverables ≡ some []
    → IsTracked (advanced missing state)
advanced-IsTracked none state all filled collecting nothing =
    rw collecting (inr (inl (refl, all, nothing)))
advanced-IsTracked (some []) state all filled collecting nothing = absurd (filled refl)
advanced-IsTracked (some (x ∷ xs)) state all filled collecting nothing =
    inl (collecting, (λ e. some_none (sym all ∙ e)), nothing)
  where
    some_none : some (x ∷ xs) ≢ none
    some_none e = cc e

-- The state before the status is advanced.
abbrev inferred : Calls → Bytes → ApiIntegrationState → ApiIntegrationState
inferred calls content t = record t {
  collected_fields = infer_fields_from_content calls content t.collected_fields;
  missing_fields =
      compute_missing_fields (infer_fields_from_content calls content t.collected_fields);
}

-- A state whose collected fields have grown.
updated-IsTracked :
    (calls : Calls) (content : Bytes) (s t : ApiIntegrationState)
    → t.status ≡ s.status
    → t.deliverables ≡ s.deliverables
    → Grows s.collected_fields t.collected_fields
    → IsTracked s
    → IsTracked (updated calls content t)
unfolding updated
updated-IsTracked calls content s t status deliverables grows (inl (collecting, lacking, nothing)) =
    advanced-IsTracked
      (compute_missing_fields (infer_fields_from_content calls content t.collected_fields)) _ refl
      (unfold compute_missing_fields in
        missing_of-filled (infer_fields_from_content calls content t.collected_fields)
          required_fields)
      (status ∙ collecting) (deliverables ∙ nothing)
updated-IsTracked calls content s t status deliverables grows
      (inr (inl (ready, complete, nothing))) =
    rw
      (advanced-later
        (compute_missing_fields (infer_fields_from_content calls content t.collected_fields))
        (inferred calls content t) (rw (status, ready) refl))
      (inr (
        inl (
          (status ∙ ready),
          Grows-IsComplete t.collected_fields _
              (infer_fields_from_content-Grows calls content t.collected_fields)
              (Grows-IsComplete s.collected_fields t.collected_fields grows complete),
          (deliverables ∙ nothing),
        )))
updated-IsTracked calls content s t status deliverables grows (inr (inr (generated, filled))) =
    rw
      (advanced-later
        (compute_missing_fields (infer_fields_from_content calls content t.collected_fields))
        (inferred calls content t) (rw (status, generated) refl))
      (inr (inr ((status ∙ generated), subst IsFilled (sym deliverables) filled)))

with_deliverables-IsTracked :
    (name : String) (names : List String) (s : ApiIntegrationState)
    → IsTracked (with_deliverables (name ∷ names) s)
unfolding with_deliverables
with_deliverables-IsTracked name names s =
    let filled = add_names-some name names s.deliverables in
    rw
      (generated_if-filled (add_names (name ∷ names) s.deliverables)
        (record s { deliverables = add_names (name ∷ names) s.deliverables }) filled)
      (inr (inr (refl, filled)))

back_or-IsFilled : (xs : Slice) → IsFilled xs → IsFilled (back_or (some []) xs)
back_or-IsFilled none (x, rest, e) = cc
back_or-IsFilled (some xs) filled = filled

-- A state that was stored and read again is tracked, if it was.
stored-IsTracked :
    (s : ApiIntegrationState) (m : Metadata)
    → IsTracked s
    → IsTracked (load_state (stored (save_state s m)))
stored-IsTracked s m tracked = go tracked
  where
    status : (load_state (stored (save_state s m))).status ≡ s.status
    status = let (_, _, e, _, _, _) = load_state-stored s m "" in e

    nothing :
        s.deliverables ≡ some [] → (load_state (stored (save_state s m))).deliverables ≡ some []
    nothing e =
        let (_, _, _, _, _, back) = load_state-stored s m "" in back ∙ ap (back_or (some [])) e

    same :
        compute_missing_fields (load_state (stored (save_state s m))).collected_fields
        ≡ compute_missing_fields s.collected_fields
    same = stored-compute_missing_fields s m

    go : IsTracked s → IsTracked (load_state (stored (save_state s m)))
    go (inl (collecting, lacking, none_yet)) =
        inl ((status ∙ collecting), (λ e. lacking (sym same ∙ e)), nothing none_yet)
    go (inr (inl (ready, complete, none_yet))) =
        inr (inl ((status ∙ ready), (same ∙ complete), nothing none_yet))
    go (inr (inr (generated, filled))) =
        let (_, _, _, _, _, back) = load_state-stored s m "" in
        inr (
          inr (
            (status ∙ generated),
            subst IsFilled (sym back) (back_or-IsFilled s.deliverables filled),
          ))

extracted-same :
    (block : Option FlowStateBlock) (s : ApiIntegrationState)
    → ((extracted block s).status ≡ s.status)
      × ((extracted block s).deliverables ≡ s.deliverables)
      × Grows s.collected_fields (extracted block s).collected_fields
unfolding extracted
extracted-same none s = (refl, refl, record { keeps = λ f there. there })
extracted-same (some block) s =
    (refl, refl, merge_extracted-Grows block.extracted_fields s.collected_fields)

module _ (calls : Calls) where
  take_turn-IsTracked :
      (turn : Turn) (m : Metadata)
      → IsTracked (load_state m)
      → IsTracked (load_state (take_turn calls turn m))
  unfolding take_turn update_state add_if_any add_real_deliverables
  take_turn-IsTracked turn m tracked = go turn.real_deliverables (
      let (status, deliverables, grows) = extracted-same block (load_state m) in
      updated-IsTracked calls turn.content (load_state m) (extracted block (load_state m)) status
        deliverables grows tracked)
    where
      block : Option FlowStateBlock
      block = parse_flow_state_block calls.unmarshal turn.content

      after : ApiIntegrationState
      after = updated calls turn.content (extracted block (load_state m))

      go :
          (names : List String)
          → IsTracked after
          → IsTracked (load_state (stored (add_if_any names (save_state after m))))
      go [] t = stored-IsTracked after m t
      go (name ∷ names) t =
          stored-IsTracked (with_deliverables (name ∷ names) (load_state (save_state after m)))
            (save_state after m)
            (with_deliverables-IsTracked name names (load_state (save_state after m)))

  -- Over any turns, the status that the next turn reads says what was collected and delivered.
  pub play_turns-IsTracked :
      (turns : List Turn) (m : Metadata)
      → IsTracked (load_state m)
      → IsTracked (load_state (play_turns calls turns m))
  unfolding play_turns
  play_turns-IsTracked [] m tracked = tracked
  play_turns-IsTracked (turn ∷ turns) m tracked =
      play_turns-IsTracked turns (take_turn calls turn m) (take_turn-IsTracked turn m tracked)
