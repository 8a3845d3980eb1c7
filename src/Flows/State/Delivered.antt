-- ===== src/Flows/State/Delivered.antt =====
-- The files that were delivered (internal/agent/flows/api_integration.go): none is lost.
use go_saas_api.Common.{
  ◌≡◌, refl, String, true, none, some, List, [], ◌∷◌, ◌++◌, string_eq, Bool-cases, inl, inr,
}
use go_saas_api.Flows.State.{Slice, ApiIntegrationState}
use go_saas_api.Flows.State.Update.{append_slice, holds_name, add_names, generated_if}

abbrev pub IsFilled : Slice → Type 0
IsFilled xs = (x : String) × (rest : List String) × (xs ≡ some (x ∷ rest))

IsFilled-append : (xs : Slice) (x : String) → IsFilled (append_slice xs x)
IsFilled-append none x = (x, [], refl)
IsFilled-append (some []) x = (x, [], refl)
IsFilled-append (some (y ∷ ys)) x = (y, ys ++ x ∷ [], refl)

-- A slice that has a name has an element.
holds_name-IsFilled : (name : String) (xs : Slice) → holds_name name xs ≡ true → IsFilled xs
holds_name-IsFilled name none e = cc e
holds_name-IsFilled name (some []) e = cc e
holds_name-IsFilled name (some (y ∷ ys)) e = (y, ys, refl)

add_names-IsFilled :
    (names : List String) (xs : Slice) → IsFilled xs → IsFilled (add_names names xs)
unfolding add_names
add_names-IsFilled [] xs filled = filled
add_names-IsFilled (name ∷ names) xs filled = elim (Bool-cases (holds_name name xs)) [
  | inl there ↦ rw there (add_names-IsFilled names xs filled)
  | inr new ↦ rw new (add_names-IsFilled names (append_slice xs name) (IsFilled-append xs name))
]

pub add_names-some :
    (name : String) (names : List String) (xs : Slice) → IsFilled (add_names (name ∷ names) xs)
unfolding add_names
add_names-some name names xs = elim (Bool-cases (holds_name name xs)) [
  | inl there ↦ rw there (add_names-IsFilled names xs (holds_name-IsFilled name xs there))
  | inr new ↦ rw new (add_names-IsFilled names (append_slice xs name) (IsFilled-append xs name))
]

pub generated_if-filled :
    (xs : Slice) (state : ApiIntegrationState)
    → IsFilled xs
    → generated_if xs state ≡ record state { status = "generated" }
generated_if-filled none state (x, rest, e) = cc
generated_if-filled (some []) state (x, rest, e) = cc
generated_if-filled (some (y ∷ ys)) state filled = refl
