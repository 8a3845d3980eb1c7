-- ===== src/Flows/State/Update.antt =====
-- `UpdateState` and `AddRealDeliverables` of internal/agent/flows/api_integration.go, with what they
-- call.
use go_saas_api.Common.{
  ℕ, ◌+◌, String, Bool, true, false, not, Option, none, some, List, [], ◌∷◌, ◌++◌, ◌==◌, string_eq,
  if◌then◌else◌, any_by, length, drop,
}
use go_saas_api.Common.Assoc.{lookup, insert}
use go_saas_api.Common.Bytes.{Bytes, index_of, last_index_of, trim_space}
use go_saas_api.Common.Bytes.Ascii.{ascii}
use go_saas_api.Flows.Question.{flow_state_marker}
use go_saas_api.Flows.State.{
  Slice, Fields, Metadata, required_fields, ApiIntegrationState, FlowStateBlock, load_state,
  save_state,
}

-- collected[field], which is "" where the key is missing.
abbrev pub value_or_empty : Option String → String
value_or_empty none = ""
value_or_empty (some v) = v

abbrev pub value_at : String → Fields → String
value_at field collected = value_or_empty (lookup field collected)

-- append to a slice that is nil at first
abbrev pub cons_slice : String → Slice → Slice
cons_slice x none = some (x ∷ [])
cons_slice x (some xs) = some (x ∷ xs)

unfoldable pub missing_of : Fields → List String → Slice
missing_of collected [] = none
missing_of collected (field ∷ rest) =
    let later = missing_of collected rest in
    if value_at field collected == "" then cons_slice field later else later

unfoldable pub compute_missing_fields : Fields → Slice
unfolding missing_of
compute_missing_fields collected = missing_of collected required_fields

-- The extracted fields that are not empty.
unfoldable pub merge_extracted : Fields → Fields → Fields
merge_extracted [] collected = collected
merge_extracted ((k, v) ∷ rest) collected =
    merge_extracted rest (if not (v == "") then insert k v collected else collected)

abbrev decoded : (Bytes → Option FlowStateBlock) → Bytes → Option FlowStateBlock
decoded unmarshal [] = none
decoded unmarshal (b ∷ s) = unmarshal (b ∷ s)

-- What follows the last marker.
abbrev block_after : (Bytes → Option FlowStateBlock) → Bytes → Option ℕ → Option FlowStateBlock
block_after unmarshal content none = none
block_after unmarshal content (some idx) =
    decoded unmarshal (trim_space (drop (idx + length flow_state_marker) content))

unfoldable pub parse_flow_state_block :
    (Bytes → Option FlowStateBlock) → Bytes → Option FlowStateBlock
parse_flow_state_block unmarshal content =
    block_after unmarshal content (last_index_of flow_state_marker content)

abbrev is_found : Option ℕ → Bool
is_found none = false
is_found (some i) = true

-- The first keyword that the content has, in the order that is taken.
unfoldable pub first_match : Bytes → List (String × String) → Option String
unfolding ascii
first_match lower [] = none
first_match lower ((keyword, value) ∷ rest) =
    let later = first_match lower rest in
    if is_found (index_of (ascii keyword) lower) then some value else later

abbrev pub set_if : String → Option String → Fields → Fields
set_if field none collected = collected
set_if field (some value) collected = insert field value collected

unfoldable pub infer_field :
    (lower : Bytes) → (field : String) → List (String × String) → Fields → Fields
unfolding first_match
infer_field lower field keywords collected =
    if value_at field collected == ""
    then set_if field (first_match lower keywords) collected
    else collected

abbrev pub platforms : List (String × String)
platforms =
    ("woocommerce", "WooCommerce")
    ∷ ("shopify", "Shopify")
    ∷ ("wordpress", "WordPress")
    ∷ ("custom", "Custom")
    ∷ []

abbrev pub auths : List (String × String)
auths =
    ("api key", "api_key")
    ∷ ("apikey", "api_key")
    ∷ ("oauth", "oauth")
    ∷ ("oauth2", "oauth")
    ∷ ("basic auth", "basic_auth")
    ∷ ("basic_auth", "basic_auth")
    ∷ []

abbrev pub dirs : List (String × String)
dirs =
    ("import", "import")
    ∷ ("export", "export")
    ∷ ("bidirectional", "bidirectional")
    ∷ ("both ways", "bidirectional")
    ∷ []

abbrev pub freqs : List (String × String)
freqs =
    ("real time", "real_time")
    ∷ ("real-time", "real_time")
    ∷ ("webhook", "real_time")
    ∷ ("scheduled", "scheduled")
    ∷ ("batch", "scheduled")
    ∷ ("cron", "scheduled")
    ∷ ("manual", "manual")
    ∷ ("on demand", "manual")
    ∷ []

-- What the flow calls: json.Unmarshal of the block, strings.ToLower, and the order of a range.
pub record Calls : Type 0 where
  pub unmarshal : Bytes → Option FlowStateBlock
  pub to_lower : Bytes → Bytes
  pub ranged : List (String × String) → List (String × String)

unfoldable pub extracted : Option FlowStateBlock → ApiIntegrationState → ApiIntegrationState
unfolding merge_extracted
extracted none state = state
extracted (some block) state = record state {
  collected_fields = merge_extracted block.extracted_fields state.collected_fields;
  step = if not (block.step == "") then block.step else state.step;
}

-- The status after the missing fields are known.
abbrev pub advanced : Slice → ApiIntegrationState → ApiIntegrationState
advanced none state =
    if state.status == "collecting"
    then record state { status = "ready_to_generate"; step = "generating" }
    else state
advanced (some []) state =
    if state.status == "collecting"
    then record state { status = "ready_to_generate"; step = "generating" }
    else state
advanced (some (x ∷ xs)) state = state

module _ (calls : Calls) where
  unfoldable pub infer_fields_from_content : Bytes → Fields → Fields
  unfolding infer_field
  infer_fields_from_content content collected =
      let lower = calls.to_lower content in
      infer_field lower "frequency" (calls.ranged freqs) (
        infer_field lower "data_direction" (calls.ranged dirs) (
          infer_field lower "auth_type" (calls.ranged auths)
            (infer_field lower "target_platform" (calls.ranged platforms) collected)))

  unfoldable pub updated : Bytes → ApiIntegrationState → ApiIntegrationState
  unfolding infer_fields_from_content compute_missing_fields
  updated content state =
      let collected = infer_fields_from_content content state.collected_fields in
      let missing = compute_missing_fields collected in
      advanced missing (record state { collected_fields = collected; missing_fields = missing })

  unfoldable pub update_state : Metadata → Bytes → Metadata
  unfolding parse_flow_state_block extracted updated load_state save_state
  update_state metadata content =
      save_state
        (updated content
          (extracted (parse_flow_state_block calls.unmarshal content) (load_state metadata)))
        metadata

-- append to a slice, at its end
abbrev pub append_slice : Slice → String → Slice
append_slice none x = some (x ∷ [])
append_slice (some xs) x = some (xs ++ x ∷ [])

abbrev pub holds_name : String → Slice → Bool
holds_name name none = false
holds_name name (some xs) = any_by (λ x. x == name) xs

unfoldable pub add_names : List String → Slice → Slice
add_names [] slice = slice
add_names (name ∷ names) slice =
    add_names names (if not (holds_name name slice) then append_slice slice name else slice)

abbrev pub generated_if : Slice → ApiIntegrationState → ApiIntegrationState
generated_if none state = state
generated_if (some []) state = state
generated_if (some (x ∷ xs)) state = record state { status = "generated" }

unfoldable pub with_deliverables : List String → ApiIntegrationState → ApiIntegrationState
unfolding add_names
with_deliverables filenames state =
    let all = add_names filenames state.deliverables in
    generated_if all (record state { deliverables = all })

unfoldable pub add_real_deliverables : Metadata → List String → Metadata
unfolding with_deliverables load_state save_state
add_real_deliverables metadata filenames =
    save_state (with_deliverables filenames (load_state metadata)) metadata
