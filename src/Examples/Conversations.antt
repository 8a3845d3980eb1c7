-- ===== src/Examples/Conversations.antt =====
-- Turns of a conversation in the API integration flow.
use go_saas_api.Common.{
  ◌≡◌, refl, inl, ◌++◌, String, false, none, some, List, [], ◌∷◌, ◌==◌, string_eq,
}
use go_saas_api.Common.Assoc.{lookup, insert}
use go_saas_api.Common.Bytes.{
  last_index_of, starts_with, trim_space, trim_by, space_width, space_width_rev, index_of,
}
use go_saas_api.Common.Bytes.Ascii.{ascii}
use go_saas_api.Flows.State.{
  Metadata, fields, ApiIntegrationState, load_state, save_state, required_fields,
}
use go_saas_api.Flows.State.Update.{
  Calls, value_at, compute_missing_fields, missing_of, update_state, parse_flow_state_block,
  extracted, merge_extracted, updated, infer_fields_from_content, infer_field, first_match,
}
use go_saas_api.Flows.State.Stored.{stored, reread, back_or, load_state-stored}
use go_saas_api.Flows.State.Turns.{
  Turn, add_if_any, IsTracked, take_turn, play_turns, play_turns-IsTracked,
}
use go_saas_api.Flows.State.Prompt.{ask, next_instruction}
use go_saas_api.Flows.State.Asked.{next_instruction_complete}
use go_saas_api.Flows.State.Kept.{play_turns-kept}
use go_saas_api.Flows.Question.{flow_state_marker}

abbrev all_fields : List (String × String)
all_fields =
    ("target_platform", "Shopify")
    ∷ ("external_api_name", "X")
    ∷ ("integration_goal", "sync")
    ∷ ("data_direction", "import")
    ∷ ("auth_type", "oauth")
    ∷ ("data_entities", "orders")
    ∷ ("frequency", "manual")
    ∷ ("deliverable_type", "script")
    ∷ []

-- Every block names all fields.
abbrev calls : Calls
calls = record {
  unmarshal = λ s. some (record { extracted_fields = all_fields; step = "" });
  to_lower = λ s. s;
  ranged = λ xs. xs;
}

abbrev answered : Turn
answered = record { content = flow_state_marker ++ b'{' ∷ b'}' ∷ []; real_deliverables = [] }

abbrev delivered : Turn
delivered = record { content = []; real_deliverables = "01-project-scope.md" ∷ [] }

play_turns-IsTracked_example :
    IsTracked (load_state (play_turns calls (answered ∷ delivered ∷ []) []))
unfolding compute_missing_fields missing_of load_state lookup
play_turns-IsTracked_example =
    play_turns-IsTracked calls (answered ∷ delivered ∷ []) [] (inl (refl, (λ e. cc e), refl))

abbrev asked : Metadata
asked = ("collected_fields", fields (("frequency", "manual") ∷ [])) ∷ []

play_turns-kept_example :
    (value_at "frequency"
        (load_state (play_turns calls (answered ∷ delivered ∷ []) asked)).collected_fields
      == "")
    ≡ false
unfolding load_state lookup
play_turns-kept_example = play_turns-kept calls (answered ∷ delivered ∷ []) asked "frequency" refl

next_instruction_complete_example :
    next_instruction (load_state (take_turn calls answered [])).missing_fields
    ≡ ask "target_platform" (some ("WooCommerce" ∷ "Shopify" ∷ "WordPress" ∷ "Custom" ∷ []))
unfolding take_turn add_if_any update_state parse_flow_state_block extracted merge_extracted updated
    infer_fields_from_content infer_field first_match compute_missing_fields missing_of load_state
    save_state stored reread lookup insert last_index_of starts_with trim_space trim_by space_width
    space_width_rev ascii index_of
next_instruction_complete_example = next_instruction_complete calls answered [] refl

abbrev complete_state : ApiIntegrationState
complete_state = record {
  flow = "api_integration";
  step = "generating";
  status = "ready_to_generate";
  collected_fields = all_fields;
  missing_fields = none;
  suggested = [];
  deliverables = some [];
}

load_state-stored_example :
    ((load_state (stored (save_state complete_state []))).flow ≡ "api_integration")
    × ((load_state (stored (save_state complete_state []))).step ≡ "generating")
    × ((load_state (stored (save_state complete_state []))).status ≡ "ready_to_generate")
    × (lookup "frequency" (load_state (stored (save_state complete_state []))).collected_fields
        ≡ lookup "frequency" all_fields)
    × ((load_state (stored (save_state complete_state []))).missing_fields
        ≡ back_or (some required_fields) none)
    × ((load_state (stored (save_state complete_state []))).deliverables
        ≡ back_or (some []) (some []))
load_state-stored_example = load_state-stored complete_state [] "frequency"
