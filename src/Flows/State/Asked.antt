-- ===== src/Flows/State/Asked.antt =====
-- What the prompt of the next turn asks for (internal/agent/flows/api_integration.go).
use go_saas_api.Common.{
  ◌≡◌, refl, sym, ap, ◌∙◌, String, none, some, List, [], ◌∷◌, ◌==◌, string_eq, Bool-cases, inl, inr,
}
use go_saas_api.Common.Assoc.{lookup}
use go_saas_api.Common.Bytes.{Bytes}
use go_saas_api.Flows.State.{
  Slice, Metadata, required_fields, ApiIntegrationState, load_state, save_state,
}
use go_saas_api.Flows.State.Update.{
  Calls, compute_missing_fields, advanced, extracted, updated, update_state, parse_flow_state_block,
  infer_fields_from_content, add_names, generated_if, with_deliverables, add_real_deliverables,
}
use go_saas_api.Flows.State.Stored.{back_or, load_state-stored, load_state-save_state, stored}
use go_saas_api.Flows.State.Missing.{IsComplete, stored-compute_missing_fields}
use go_saas_api.Flows.State.Turns.{Turn, take_turn, add_if_any}
use go_saas_api.Flows.State.Prompt.{ask, next_instruction}

pub advanced-fields :
    (missing : Slice) (s : ApiIntegrationState)
    → ((advanced missing s).missing_fields ≡ s.missing_fields)
      × ((advanced missing s).collected_fields ≡ s.collected_fields)
advanced-fields none s = elim (Bool-cases (s.status == "collecting")) [
  | inl now ↦ rw now (refl, refl)
  | inr later ↦ rw later (refl, refl)
]
advanced-fields (some []) s = elim (Bool-cases (s.status == "collecting")) [
  | inl now ↦ rw now (refl, refl)
  | inr later ↦ rw later (refl, refl)
]
advanced-fields (some (x ∷ xs)) s = (refl, refl)

pub generated_if-fields :
    (xs : Slice) (s : ApiIntegrationState)
    → ((generated_if xs s).missing_fields ≡ s.missing_fields)
      × ((generated_if xs s).collected_fields ≡ s.collected_fields)
generated_if-fields none s = (refl, refl)
generated_if-fields (some []) s = (refl, refl)
generated_if-fields (some (x ∷ xs)) s = (refl, refl)

-- The missing fields of the state are those that were not collected.
abbrev IsAccurate : ApiIntegrationState → Type 0
IsAccurate s = s.missing_fields ≡ compute_missing_fields s.collected_fields

updated-IsAccurate :
    (calls : Calls) (content : Bytes) (s : ApiIntegrationState)
    → IsAccurate (updated calls content s)
unfolding updated
updated-IsAccurate calls content s =
    let (missing, collected) =
      advanced-fields
        (compute_missing_fields (infer_fields_from_content calls content s.collected_fields))
        (record s {
          collected_fields = infer_fields_from_content calls content s.collected_fields;
          missing_fields =
              compute_missing_fields (infer_fields_from_content calls content s.collected_fields);
        }) in
    missing ∙ ap compute_missing_fields (sym collected)

with_deliverables-IsAccurate :
    (names : List String) (s : ApiIntegrationState)
    → IsAccurate s
    → IsAccurate (with_deliverables names s)
unfolding with_deliverables
with_deliverables-IsAccurate names s accurate =
    let (missing, collected) =
      generated_if-fields (add_names names s.deliverables)
        (record s { deliverables = add_names names s.deliverables }) in
    missing ∙ accurate ∙ ap compute_missing_fields (sym collected)

stored-missing :
    (s : ApiIntegrationState) (m : Metadata)
    → IsAccurate s
    → (load_state (stored (save_state s m))).missing_fields
      ≡ back_or
          (some required_fields)
          (compute_missing_fields (load_state (stored (save_state s m))).collected_fields)
stored-missing s m accurate =
    let (_, _, _, _, back, _) = load_state-stored s m "" in
    back ∙ ap (back_or (some required_fields)) (accurate ∙ sym (stored-compute_missing_fields s m))

module _ (calls : Calls) (turn : Turn) (m : Metadata) where
  -- The missing fields that the next turn reads: those that were not collected, or all where none
  -- is missing.
  take_turn-missing :
      (load_state (take_turn calls turn m)).missing_fields
      ≡ back_or
          (some required_fields)
          (compute_missing_fields (load_state (take_turn calls turn m)).collected_fields)
  unfolding take_turn update_state add_if_any add_real_deliverables
  take_turn-missing = go turn.real_deliverables
    where
      after : ApiIntegrationState
      after =
          updated calls turn.content
            (extracted (parse_flow_state_block calls.unmarshal turn.content) (load_state m))

      before : ApiIntegrationState
      before = extracted (parse_flow_state_block calls.unmarshal turn.content) (load_state m)

      reloaded : IsAccurate (load_state (save_state after m))
      reloaded =
          let (collected, missing) = load_state-save_state after m in
          missing
          ∙ updated-IsAccurate calls turn.content before
          ∙ ap compute_missing_fields (sym collected)

      go :
          (names : List String)
          → (load_state (stored (add_if_any names (save_state after m)))).missing_fields
            ≡ back_or (some required_fields) (
                compute_missing_fields
                  (load_state (stored (add_if_any names (save_state after m)))).collected_fields)
      go [] = stored-missing after m (updated-IsAccurate calls turn.content before)
      go (name ∷ names) =
          stored-missing (with_deliverables (name ∷ names) (load_state (save_state after m)))
            (save_state after m)
            (with_deliverables-IsAccurate (name ∷ names) (load_state (save_state after m)) reloaded)

  -- After a turn with which all required fields are collected, the prompt of the next turn asks for
  -- the first required field again.
  pub next_instruction_complete :
      IsComplete (load_state (take_turn calls turn m)).collected_fields
      → next_instruction (load_state (take_turn calls turn m)).missing_fields
        ≡ ask "target_platform" (some ("WooCommerce" ∷ "Shopify" ∷ "WordPress" ∷ "Custom" ∷ []))
  unfolding next_instruction lookup
  next_instruction_complete complete =
      let read_again : (load_state (take_turn calls turn m)).missing_fields ≡ some required_fields =
        take_turn-missing ∙ ap (back_or (some required_fields)) complete in
      rw read_again refl
