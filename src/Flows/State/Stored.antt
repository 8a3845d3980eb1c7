-- ===== src/Flows/State/Stored.antt =====
-- A conversation's metadata (internal/agent/flows/api_integration.go) on its way through the
-- database: json.Marshal writes a nil slice as null, and a read gives []any and map[string]any.
use go_saas_api.Common.{
  ◌≡◌, refl, ap, ◌∙◌, String, false, Option, none, some, List, [], ◌∷◌, map, ◌==◌, string_eq,
  if◌then◌else◌, Bool-cases, inl, inr,
}
use go_saas_api.Common.Assoc.{lookup, insert, lookup-insert, lookup-insert_self}
use go_saas_api.Flows.State.{
  Slice, Fields, Value, text, texts, fields, options, any_list, any_fields, other, Metadata,
  required_fields, ApiIntegrationState, text_or, only_texts, slice_or, text_fields, fields_of,
  load_state, save_state,
}

-- The values of an object, and of a list, as JSON gives them back.
abbrev any_of_fields : Fields → List (String × Option String)
any_of_fields [] = []
any_of_fields ((k, v) ∷ fs) = (k, some v) ∷ any_of_fields fs

unfoldable pub reread : Value → Value
reread (text s) = text s
reread (texts none) = other "null"
reread (texts (some xs)) = any_list (map some xs)
reread (fields fs) = any_fields (any_of_fields fs)
reread (options os) = other "object"
reread (any_list xs) = any_list xs
reread (any_fields fs) = any_fields fs
reread (other json) = other json

-- The metadata that a later request reads.
unfoldable pub stored : Metadata → Metadata
unfolding reread
stored [] = []
stored ((k, v) ∷ m) = (k, reread v) ∷ stored m

abbrev reread_if : Option Value → Option Value
reread_if none = none
reread_if (some v) = some (reread v)

lookup-stored : (k : String) (m : Metadata) → lookup k (stored m) ≡ reread_if (lookup k m)
unfolding lookup stored
lookup-stored k [] = refl
lookup-stored k ((j, v) ∷ m) = elim (Bool-cases (j == k)) [
  | inl same ↦ rw same refl
  | inr differs ↦ rw differs (lookup-stored k m)
]

lookup-text_fields :
    (k : String) (fs : Fields) → lookup k (text_fields (any_of_fields fs)) ≡ lookup k fs
unfolding lookup
lookup-text_fields k [] = refl
lookup-text_fields k ((j, v) ∷ fs) =
    lookup-insert j k v (text_fields (any_of_fields fs))
    ∙ ap (λ rest. if j == k then some v else rest) (lookup-text_fields k fs)

only_texts-some : (xs : List String) → only_texts (map some xs) ≡ xs
only_texts-some [] = refl
only_texts-some (x ∷ xs) = ap (λ ys. x ∷ ys) (only_texts-some xs)

pass :
    (k j : String) (v : Value) (m : Metadata)
    → (k == j) ≡ false
    → lookup j (insert k v m) ≡ lookup j m
pass k j v m differs = lookup-insert k j v m ∙ rw differs refl

module _ (s : ApiIntegrationState) (m : Metadata) where
  pub lookup-deliverables : lookup "deliverables" (save_state s m) ≡ some (texts s.deliverables)
  unfolding save_state
  lookup-deliverables = lookup-insert_self "deliverables" (texts s.deliverables) _

  pub lookup-missing : lookup "missing_fields" (save_state s m) ≡ some (texts s.missing_fields)
  unfolding save_state
  lookup-missing =
      pass "deliverables" "missing_fields" _ _ refl
      ∙ pass "suggested_options" "missing_fields" _ _ refl
      ∙ lookup-insert_self "missing_fields" (texts s.missing_fields) _

  pub lookup-collected :
      lookup "collected_fields" (save_state s m) ≡ some (fields s.collected_fields)
  unfolding save_state
  lookup-collected =
      pass "deliverables" "collected_fields" _ _ refl
      ∙ pass "suggested_options" "collected_fields" _ _ refl
      ∙ pass "missing_fields" "collected_fields" _ _ refl
      ∙ lookup-insert_self "collected_fields" (fields s.collected_fields) _

  pub lookup-status : lookup "status" (save_state s m) ≡ some (text s.status)
  unfolding save_state
  lookup-status =
      pass "deliverables" "status" _ _ refl
      ∙ pass "suggested_options" "status" _ _ refl
      ∙ pass "missing_fields" "status" _ _ refl
      ∙ pass "collected_fields" "status" _ _ refl
      ∙ lookup-insert_self "status" (text s.status) _

  pub lookup-step : lookup "step" (save_state s m) ≡ some (text s.step)
  unfolding save_state
  lookup-step =
      pass "deliverables" "step" _ _ refl
      ∙ pass "suggested_options" "step" _ _ refl
      ∙ pass "missing_fields" "step" _ _ refl
      ∙ pass "collected_fields" "step" _ _ refl
      ∙ pass "status" "step" _ _ refl
      ∙ lookup-insert_self "step" (text s.step) _

  pub lookup-flow : lookup "flow" (save_state s m) ≡ some (text s.flow)
  unfolding save_state
  lookup-flow =
      pass "deliverables" "flow" _ _ refl
      ∙ pass "suggested_options" "flow" _ _ refl
      ∙ pass "missing_fields" "flow" _ _ refl
      ∙ pass "collected_fields" "flow" _ _ refl
      ∙ pass "status" "flow" _ _ refl
      ∙ pass "step" "flow" _ _ refl
      ∙ lookup-insert_self "flow" (text s.flow) _

-- A slice that comes back, with the default where it was nil.
abbrev pub back_or : Slice → Slice → Slice
back_or default none = default
back_or default (some xs) = some xs

slice-back :
    (default xs : Slice) → slice_or default (reread_if (some (texts xs))) ≡ back_or default xs
unfolding reread
slice-back default none = refl
slice-back default (some xs) = ap some (only_texts-some xs)

-- What is saved, stored and read again is the state, each collected field included, but a nil slice
-- comes back as the default: no deliverables, and all required fields as missing.
pub load_state-stored :
    (s : ApiIntegrationState) (m : Metadata) (field : String)
    → ((load_state (stored (save_state s m))).flow ≡ s.flow)
      × ((load_state (stored (save_state s m))).step ≡ s.step)
      × ((load_state (stored (save_state s m))).status ≡ s.status)
      × (lookup field (load_state (stored (save_state s m))).collected_fields
          ≡ lookup field s.collected_fields)
      × ((load_state (stored (save_state s m))).missing_fields
          ≡ back_or (some required_fields) s.missing_fields)
      × ((load_state (stored (save_state s m))).deliverables ≡ back_or (some []) s.deliverables)
unfolding load_state reread
load_state-stored s m field = (
  ap (text_or "api_integration")
      (lookup-stored "flow" (save_state s m) ∙ ap reread_if (lookup-flow s m)),
  ap (text_or "collecting")
      (lookup-stored "step" (save_state s m) ∙ ap reread_if (lookup-step s m)),
  ap (text_or "collecting")
      (lookup-stored "status" (save_state s m) ∙ ap reread_if (lookup-status s m)),
  ap (λ o. lookup field (fields_of o))
        (lookup-stored "collected_fields" (save_state s m) ∙ ap reread_if (lookup-collected s m))
      ∙ lookup-text_fields field s.collected_fields,
  ap (slice_or (some required_fields))
        (lookup-stored "missing_fields" (save_state s m) ∙ ap reread_if (lookup-missing s m))
      ∙ slice-back (some required_fields) s.missing_fields,
  ap (slice_or (some []))
        (lookup-stored "deliverables" (save_state s m) ∙ ap reread_if (lookup-deliverables s m))
      ∙ slice-back (some []) s.deliverables,
)

-- Within one request the state comes back as it was saved.
pub load_state-save_state :
    (s : ApiIntegrationState) (m : Metadata)
    → ((load_state (save_state s m)).collected_fields ≡ s.collected_fields)
      × ((load_state (save_state s m)).missing_fields ≡ s.missing_fields)
unfolding load_state
load_state-save_state s m =
    (ap fields_of (lookup-collected s m), ap (slice_or (some required_fields)) (lookup-missing s m))
