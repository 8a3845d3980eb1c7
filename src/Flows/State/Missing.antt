-- ===== src/Flows/State/Missing.antt =====
-- The required fields that are missing (internal/agent/flows/api_integration.go), and that no field
-- that was collected is lost.
use go_saas_api.Common.{
  ◌≡◌, ◌≢◌, refl, sym, ap, ◌∙◌, String, true, false, Option, none, some, List, [], ◌∷◌, ◌==◌,
  string_eq, Bool-cases, inl, inr, All,
}
use go_saas_api.Common.Assoc.{lookup, insert, lookup-insert}
use go_saas_api.Common.Bytes.{Bytes}
use go_saas_api.Flows.State.Stored.{stored, load_state-stored}
use go_saas_api.Flows.State.{
  Metadata, ApiIntegrationState, load_state, save_state, Slice, Fields, required_fields,
}
use go_saas_api.Flows.State.Update.{
  value_at, cons_slice, missing_of, compute_missing_fields, merge_extracted, first_match, set_if,
  infer_field, Calls, infer_fields_from_content,
}

-- Every required field has a value.
abbrev pub IsComplete : Fields → Type 0
IsComplete collected = compute_missing_fields collected ≡ none

cons_slice-some : (x : String) (xs : Slice) → cons_slice x xs ≢ none
cons_slice-some x none e = cc e
cons_slice-some x (some xs) e = cc e

missing_of-All :
    (collected : Fields) (fs : List String)
    → missing_of collected fs ≡ none
    → All (λ f. (value_at f collected == "") ≡ false) fs
unfolding missing_of
missing_of-All collected [] e = tt
missing_of-All collected (f ∷ fs) e = elim (Bool-cases (value_at f collected == "")) [
  | inl empty ↦ absurd (cons_slice-some f (missing_of collected fs) (sym (rw empty refl) ∙ e))
  | inr there ↦ (there, missing_of-All collected fs (sym (rw there refl) ∙ e))
]

All-missing_of :
    (collected : Fields) (fs : List String)
    → All (λ f. (value_at f collected == "") ≡ false) fs
    → missing_of collected fs ≡ none
unfolding missing_of
All-missing_of collected [] all = refl
All-missing_of collected (f ∷ fs) (there, all) = rw there (All-missing_of collected fs all)

-- What has a value in one collection has one in the other.
pub record Grows (before after : Fields) : Type 0 where
  pub keeps : (f : String) → (value_at f before == "") ≡ false → (value_at f after == "") ≡ false

All-Grows :
    (c d : Fields) (fs : List String)
    → Grows c d
    → All (λ f. (value_at f c == "") ≡ false) fs
    → All (λ f. (value_at f d == "") ≡ false) fs
All-Grows c d [] grows all = tt
All-Grows c d (f ∷ fs) grows (there, all) = (grows.keeps f there, All-Grows c d fs grows all)

pub Grows-IsComplete : (c d : Fields) → Grows c d → IsComplete c → IsComplete d
unfolding compute_missing_fields
Grows-IsComplete c d grows complete =
    All-missing_of d required_fields
      (All-Grows c d required_fields grows (missing_of-All c required_fields complete))

insert-Grows : (k v : String) (c : Fields) → (v == "") ≡ false → Grows c (insert k v c)
insert-Grows k v c named = record {
  keeps = λ f there. elim (Bool-cases (k == f)) [
    | inl same ↦ rw (lookup-insert k f v c, same) named
    | inr differs ↦ rw (lookup-insert k f v c, differs) there
  ];
}

-- A field that is written had none before.
insert_empty-Grows :
    (k v : String) (c : Fields) → (value_at k c == "") ≡ true → Grows c (insert k v c)
insert_empty-Grows k v c empty = record {
  keeps = λ f there. elim (Bool-cases (k == f)) [
    | inl same ↦
        let it : k ≡ f = (string_eq.equals_iff k f).0 same in
        absurd (true_false (sym empty ∙ ap (λ g. value_at g c == "") it ∙ there))
    | inr differs ↦ rw (lookup-insert k f v c, differs) there
  ];
}
  where
    true_false : true ≢ false
    true_false e = cc e

pub Grows-refl : (c : Fields) → Grows c c
Grows-refl c = record { keeps = λ f there. there }

pub Grows-trans : (a b c : Fields) → Grows a b → Grows b c → Grows a c
Grows-trans a b c ab bc = record { keeps = λ f there. bc.keeps f (ab.keeps f there) }

pub merge_extracted-Grows : (block c : Fields) → Grows c (merge_extracted block c)
unfolding merge_extracted
merge_extracted-Grows [] c = Grows-refl c
merge_extracted-Grows ((k, v) ∷ rest) c = elim (Bool-cases (v == "")) [
  | inl empty ↦ rw empty (merge_extracted-Grows rest c)
  | inr named ↦ rw named (
      Grows-trans c (insert k v c) _ (insert-Grows k v c named)
        (merge_extracted-Grows rest (insert k v c)))
]

set_if-Grows :
    (field : String) (o : Option String) (c : Fields)
    → (value_at field c == "") ≡ true
    → Grows c (set_if field o c)
set_if-Grows field none c empty = Grows-refl c
set_if-Grows field (some v) c empty = insert_empty-Grows field v c empty

infer_field-Grows :
    (lower : Bytes) (field : String) (keywords : List (String × String)) (c : Fields)
    → Grows c (infer_field lower field keywords c)
unfolding infer_field
infer_field-Grows lower field keywords c = elim (Bool-cases (value_at field c == "")) [
  | inl empty ↦ rw empty (set_if-Grows field (first_match lower keywords) c empty)
  | inr there ↦ rw there (Grows-refl c)
]

pub infer_fields_from_content-Grows :
    (calls : Calls) (content : Bytes) (c : Fields)
    → Grows c (infer_fields_from_content calls content c)
unfolding infer_fields_from_content
infer_fields_from_content-Grows calls content c =
    let platform = infer_field-Grows (calls.to_lower content) "target_platform" _ c in
    let auth = infer_field-Grows (calls.to_lower content) "auth_type" _ _ in
    let direction = infer_field-Grows (calls.to_lower content) "data_direction" _ _ in
    let frequency = infer_field-Grows (calls.to_lower content) "frequency" _ _ in
    Grows-trans _ _ _ platform (Grows-trans _ _ _ auth (Grows-trans _ _ _ direction frequency))

-- Missing fields depend on what is found under the keys.
missing_of-same :
    (c d : Fields) (fs : List String)
    → ((f : String) → lookup f c ≡ lookup f d)
    → missing_of c fs ≡ missing_of d fs
unfolding missing_of
missing_of-same c d [] same = refl
missing_of-same c d (f ∷ fs) same = rw (same f, missing_of-same c d fs same) refl

-- Nothing that was collected is missing after the metadata was stored and read again.
pub stored-compute_missing_fields :
    (s : ApiIntegrationState) (m : Metadata)
    → compute_missing_fields (load_state (stored (save_state s m))).collected_fields
      ≡ compute_missing_fields s.collected_fields
unfolding compute_missing_fields
stored-compute_missing_fields s m =
    missing_of-same (load_state (stored (save_state s m))).collected_fields s.collected_fields
      required_fields (λ f. let (_, _, _, e, _, _) = load_state-stored s m f in e)
