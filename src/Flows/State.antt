-- ===== src/Flows/State.antt =====
-- The state of `APIIntegrationFlow` (internal/agent/flows/api_integration.go), which a conversation
-- keeps in its metadata. Metadata is a Go map from keys to values of any type; of a list or an
-- object that was read from JSON, an element that is no text is `none`. The decoding of the state
-- block, strings.ToLower, and the order in which a map is ranged over are parameters.
pub mod Update
pub mod Stored
pub mod Missing
pub mod Turns
mod Delivered
pub mod Prompt
pub mod Asked
pub mod Kept
use go_saas_api.Common.{String, Option, none, some, List, [], ◌∷◌, string_eq, if◌then◌else◌}
use go_saas_api.Common.Assoc.{lookup, insert}

-- A []string: `none` is nil.
abbrev pub Slice : Type 0
Slice = Option (List String)

abbrev pub Fields : Type 0
Fields = List (String × String)

abbrev pub Options : Type 0
Options = List (String × List String)

-- A value of metadata: string, []string, map[string]string, map[string][]string, []any,
-- map[string]any, and all others.
pub data Value : Type 0 where
  text : String → Value
  texts : Slice → Value
  fields : Fields → Value
  options : Options → Value
  any_list : List (Option String) → Value
  any_fields : List (String × Option String) → Value
  other : (json : String) → Value

abbrev pub Metadata : Type 0
Metadata = List (String × Value)

abbrev pub required_fields : List String
required_fields =
    "target_platform" ∷ "external_api_name" ∷ "integration_goal" ∷ "data_direction" ∷ "auth_type"
    ∷ "data_entities" ∷ "frequency" ∷ "deliverable_type" ∷ []

abbrev pub suggested_options : Options
suggested_options =
    ("target_platform", "WooCommerce" ∷ "Shopify" ∷ "WordPress" ∷ "Custom" ∷ [])
    ∷ ("data_direction", "import" ∷ "export" ∷ "bidirectional" ∷ [])
    ∷ ("auth_type", "api_key" ∷ "oauth" ∷ "basic_auth" ∷ "unknown" ∷ [])
    ∷ ("data_entities", "products" ∷ "orders" ∷ "customers" ∷ "inventory" ∷ "custom" ∷ [])
    ∷ ("frequency", "real_time" ∷ "scheduled" ∷ "manual" ∷ [])
    ∷ ("deliverable_type", "plugin" ∷ "script" ∷ "backend_service" ∷ "documentation_only" ∷ [])
    ∷ []

pub record ApiIntegrationState : Type 0 where
  pub flow : String
  pub step : String
  pub status : String
  pub collected_fields : Fields
  pub missing_fields : Slice
  pub suggested : Options
  pub deliverables : Slice

pub record FlowStateBlock : Type 0 where
  pub extracted_fields : Fields
  pub step : String

abbrev fresh_state : ApiIntegrationState
fresh_state = record {
  flow = "api_integration";
  step = "collecting";
  status = "collecting";
  collected_fields = [];
  missing_fields = some required_fields;
  suggested = suggested_options;
  deliverables = some [];
}

-- A text under the key, or else the default: `if v, ok := metadata[key].(string); ok`.
abbrev pub text_or : String → Option Value → String
text_or default none = default
text_or default (some (text s)) = s
text_or default (some (texts xs)) = default
text_or default (some (fields fs)) = default
text_or default (some (options os)) = default
text_or default (some (any_list xs)) = default
text_or default (some (any_fields fs)) = default
text_or default (some (other json)) = default

abbrev pub only_texts : List (Option String) → List String
only_texts [] = []
only_texts (none ∷ xs) = only_texts xs
only_texts (some s ∷ xs) = s ∷ only_texts xs

-- A list under the key: `[]any` with its texts, or `[]string`.
abbrev pub slice_or : Slice → Option Value → Slice
slice_or default none = default
slice_or default (some (text s)) = default
slice_or default (some (texts xs)) = xs
slice_or default (some (fields fs)) = default
slice_or default (some (options os)) = default
slice_or default (some (any_list xs)) = some (only_texts xs)
slice_or default (some (any_fields fs)) = default
slice_or default (some (other json)) = default

abbrev pub set_text : String → Option String → Fields → Fields
set_text k none fs = fs
set_text k (some v) fs = insert k v fs

abbrev pub text_fields : List (String × Option String) → Fields
text_fields [] = []
text_fields ((k, v) ∷ rest) = set_text k v (text_fields rest)

abbrev pub fields_of : Option Value → Fields
fields_of none = []
fields_of (some (text s)) = []
fields_of (some (texts xs)) = []
fields_of (some (fields fs)) = fs
fields_of (some (options os)) = []
fields_of (some (any_list xs)) = []
fields_of (some (any_fields fs)) = text_fields fs
fields_of (some (other json)) = []

unfoldable pub load_state : Metadata → ApiIntegrationState
load_state metadata = record fresh_state {
  flow = text_or "api_integration" (lookup "flow" metadata);
  step = text_or "collecting" (lookup "step" metadata);
  status = text_or "collecting" (lookup "status" metadata);
  collected_fields = fields_of (lookup "collected_fields" metadata);
  missing_fields = slice_or (some required_fields) (lookup "missing_fields" metadata);
  deliverables = slice_or (some []) (lookup "deliverables" metadata);
}

unfoldable pub save_state : ApiIntegrationState → Metadata → Metadata
save_state state original = insert "deliverables" (texts state.deliverables) (
    insert "suggested_options" (options state.suggested) (
      insert "missing_fields" (texts state.missing_fields) (
        insert "collected_fields" (fields state.collected_fields) (
          insert "status" (text state.status)
            (insert "step" (text state.step) (insert "flow" (text state.flow) original))))))

unfoldable pub get_status : Metadata → String
get_status metadata = text_or "collecting" (lookup "status" metadata)
