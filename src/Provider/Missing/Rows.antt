-- ===== src/Provider/Missing/Rows.antt =====
-- Rows of one name (internal/provider/store.go), under changes of the table.
use go_saas_api.Common.{
  ℕ, ◌≡◌, refl, String, Bool, false, ◌&&◌, not, List, [], ◌∷◌, ◌++◌, map, ◌==◌, nat_eq, string_eq,
  any_by, Bool-cases, inl, inr, arith,
}
use go_saas_api.Provider.{AiModel, takes_name, updated_model}
use go_saas_api.Provider.Sync.{is_offered, is_row}

-- A row of the provider with the name, and another id.
abbrev pub is_stray : (provider : ℕ) (name : String) (id : ℕ) → AiModel → Bool
is_stray provider name id m = is_row provider name m && not (m.id == id)

module _ (provider : ℕ) (name : String) (id : ℕ) where
  pub stray-append :
      (models : List AiModel) (m : AiModel)
      → any_by (is_stray provider name id) models ≡ false
      → (m.name == name) ≡ false
      → any_by (is_stray provider name id) (models ++ m ∷ []) ≡ false
  stray-append [] m none_yet other = ground (arith, other)
  stray-append (x ∷ models) m none_yet other =
      ground (arith, none_yet, stray-append models m, other)

  updated_model_stray :
      (m : AiModel) (now : ℕ) (old : AiModel)
      → (m.name == name && not (m.id == id)) ≡ false
      → is_stray provider name id old ≡ false
      → is_stray provider name id (updated_model m now old) ≡ false
  unfolding updated_model
  updated_model_stray m now old fine none_yet = elim (Bool-cases (old.id == m.id)) [
    | inl same ↦ rw same (ground (arith, fine))
    | inr differs ↦ rw differs none_yet
  ]

  pub stray-map :
      (m : AiModel) (now : ℕ) (models : List AiModel)
      → (m.name == name && not (m.id == id)) ≡ false
      → any_by (is_stray provider name id) models ≡ false
      → any_by (is_stray provider name id) (map (updated_model m now) models) ≡ false
  stray-map m now [] fine none_yet = refl
  stray-map m now (x ∷ models) fine none_yet = elim (Bool-cases (is_stray provider name id x)) [
    | inl strays ↦ ground (arith, strays, none_yet)
    | inr here ↦
        rw (updated_model_stray m now x fine here)
          (stray-map m now models fine (ground (arith, here, none_yet)))
  ]

  -- The row is switched off where all rows of the name have its id.
  pub cleared-map :
      (m : AiModel) (now : ℕ) (models : List AiModel)
      → m.id ≡ id
      → m.is_active ≡ false
      → any_by (is_stray provider name id) models ≡ false
      → any_by (is_offered provider name) (map (updated_model m now) models) ≡ false
  unfolding updated_model
  cleared-map m now [] its inactive none_yet = refl
  cleared-map m now (x ∷ models) its inactive none_yet =
      elim (Bool-cases (is_stray provider name id x)) [
        | inl strays ↦ ground (arith, strays, none_yet)
        | inr here ↦
            let rest : any_by (is_offered provider name) (map (updated_model m now) models)
                ≡ false =
              cleared-map m now models its inactive (ground (arith, here, none_yet)) in
            elim (Bool-cases (x.id == id)) [
              | inl same ↦ rw (its, same) (ground (arith, inactive, rest))
              | inr differs ↦ rw (its, differs) (ground (arith, here, differs, rest))
            ]
      ]

  pub free-name :
      (m : AiModel) (models : List AiModel)
      → m.id ≡ id
      → m.provider_id ≡ provider
      → m.name ≡ name
      → any_by (is_stray provider name id) models ≡ false
      → any_by (takes_name m) models ≡ false
  unfolding takes_name
  free-name m [] its p n none_yet = refl
  free-name m (x ∷ models) its p n none_yet = elim (Bool-cases (is_stray provider name id x)) [
    | inl strays ↦ ground (arith, strays, none_yet)
    | inr here ↦
        let rest : any_by (takes_name m) models ≡ false =
          free-name m models its p n (ground (arith, here, none_yet)) in
        unfold takes_name in rw (its, p, n) (ground (arith, here, rest))
  ]
