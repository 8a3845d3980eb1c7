-- ===== src/Flows/State/Kept.antt =====
-- What was collected in a conversation (internal/agent/flows/api_integration.go), over its turns.
use go_saas_api.Common.{
  ◌≡◌, ap, ◌∙◌, String, false, Option, none, some, List, [], ◌∷◌, ◌==◌, string_eq,
}
use go_saas_api.Common.Bytes.{Bytes}
use go_saas_api.Flows.State.{
  Fields, Metadata, ApiIntegrationState, FlowStateBlock, load_state, save_state,
}
use go_saas_api.Flows.State.Update.{
  Calls, value_at, value_or_empty, compute_missing_fields, extracted, updated, update_state,
  parse_flow_state_block, infer_fields_from_content, add_names, with_deliverables,
  add_real_deliverables,
}
use go_saas_api.Flows.State.Stored.{load_state-stored, load_state-save_state, stored}
use go_saas_api.Flows.State.Missing.{
  Grows, Grows-refl, Grows-trans, merge_extracted-Grows, infer_fields_from_content-Grows,
}
use go_saas_api.Flows.State.Turns.{Turn, take_turn, add_if_any, play_turns}
use go_saas_api.Flows.State.Asked.{advanced-fields, generated_if-fields}

-- The same collected fields.
same-Grows : (c d : Fields) → d ≡ c → Grows c d
same-Grows c d same = record { keeps = λ f there. rw same there }

stored-Grows :
    (s : ApiIntegrationState) (m : Metadata)
    → Grows s.collected_fields (load_state (stored (save_state s m))).collected_fields
stored-Grows s m = record {
  keeps = λ f there.
      let (_, _, _, e, _, _) = load_state-stored s m f in
      ap (λ o. value_or_empty o == "") e ∙ there;
}

extracted-Grows :
    (block : Option FlowStateBlock) (s : ApiIntegrationState)
    → Grows s.collected_fields (extracted block s).collected_fields
unfolding extracted
extracted-Grows none s = Grows-refl s.collected_fields
extracted-Grows (some block) s = merge_extracted-Grows block.extracted_fields s.collected_fields

updated-Grows :
    (calls : Calls) (content : Bytes) (s : ApiIntegrationState)
    → Grows s.collected_fields (updated calls content s).collected_fields
unfolding updated
updated-Grows calls content s =
    let (_, collected) =
      advanced-fields
        (compute_missing_fields (infer_fields_from_content calls content s.collected_fields))
        (record s {
          collected_fields = infer_fields_from_content calls content s.collected_fields;
          missing_fields =
              compute_missing_fields (infer_fields_from_content calls content s.collected_fields);
        }) in
    Grows-trans s.collected_fields (infer_fields_from_content calls content s.collected_fields) _
      (infer_fields_from_content-Grows calls content s.collected_fields) (same-Grows _ _ collected)

with_deliverables-Grows :
    (names : List String) (s : ApiIntegrationState)
    → Grows s.collected_fields (with_deliverables names s).collected_fields
unfolding with_deliverables
with_deliverables-Grows names s =
    let (_, collected) =
      generated_if-fields (add_names names s.deliverables)
        (record s { deliverables = add_names names s.deliverables }) in
    same-Grows s.collected_fields _ collected

module _ (calls : Calls) where
  take_turn-Grows :
      (turn : Turn) (m : Metadata)
      → Grows (load_state m).collected_fields (load_state (take_turn calls turn m)).collected_fields
  unfolding take_turn update_state add_if_any add_real_deliverables
  take_turn-Grows turn m = go turn.real_deliverables
    where
      before : ApiIntegrationState
      before = extracted (parse_flow_state_block calls.unmarshal turn.content) (load_state m)

      after : ApiIntegrationState
      after =
          updated calls turn.content
            (extracted (parse_flow_state_block calls.unmarshal turn.content) (load_state m))

      grown : Grows (load_state m).collected_fields after.collected_fields
      grown =
          Grows-trans (load_state m).collected_fields before.collected_fields after.collected_fields
            (extracted-Grows (parse_flow_state_block calls.unmarshal turn.content) (load_state m))
            (updated-Grows calls turn.content before)

      go :
          (names : List String)
          → Grows
              (load_state m).collected_fields
              (load_state (stored (add_if_any names (save_state after m)))).collected_fields
      go [] =
          Grows-trans (load_state m).collected_fields after.collected_fields
            (load_state (stored (save_state after m))).collected_fields grown (stored-Grows after m)
      go (name ∷ names) =
          let loaded : ApiIntegrationState = load_state (save_state after m) in
          let delivered : ApiIntegrationState = with_deliverables (name ∷ names) loaded in
          let (collected, _) = load_state-save_state after m in
          Grows-trans (load_state m).collected_fields after.collected_fields _ grown (
            Grows-trans after.collected_fields loaded.collected_fields _
              (same-Grows after.collected_fields loaded.collected_fields collected)
              (Grows-trans loaded.collected_fields delivered.collected_fields _
                (with_deliverables-Grows (name ∷ names) loaded)
                (stored-Grows delivered (save_state after m))))

  play_turns-Grows :
      (turns : List Turn) (m : Metadata)
      → Grows
          (load_state m).collected_fields
          (load_state (play_turns calls turns m)).collected_fields
  unfolding play_turns
  play_turns-Grows [] m = Grows-refl (load_state m).collected_fields
  play_turns-Grows (turn ∷ turns) m =
      Grows-trans (load_state m).collected_fields
        (load_state (take_turn calls turn m)).collected_fields _ (take_turn-Grows turn m)
        (play_turns-Grows turns (take_turn calls turn m))

  -- A field that has a value has one after any turns.
  pub play_turns-kept :
      (turns : List Turn) (m : Metadata) (field : String)
      → (value_at field (load_state m).collected_fields == "") ≡ false
      → (value_at field (load_state (play_turns calls turns m)).collected_fields == "") ≡ false
  play_turns-kept turns m field there = (play_turns-Grows turns m).keeps field there
