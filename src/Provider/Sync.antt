-- ===== src/Provider/Sync.antt =====
-- Models that are switched off (internal/provider/model_sync.go), over a sync.
use go_saas_api.Common.{
  ℕ, ◌≡◌, refl, String, Bool, true, false, ◌&&◌, ◌||◌, List, [], ◌∷◌, ◌++◌, map, ◌==◌, nat_eq,
  string_eq, any_by, Bool-cases, inl, inr, arith,
}
use go_saas_api.Provider.{
  AiModel, Catalog, SyncResult, collides, takes_name, updated_model, insert_model, change_model,
  statement, create_model, update_model, list_models_by_provider, models_of, has_name, lists,
  counted, dropped, then_on, add_one, deactivate_one, add_new, deactivate_missing, no_result,
  reconciled, reconcile_models,
}

-- An active row of the provider with the name.
abbrev pub is_offered : (provider : ℕ) (name : String) → AiModel → Bool
is_offered provider name m = m.provider_id == provider && m.name == name && m.is_active

abbrev pub is_row : (provider : ℕ) (name : String) → AiModel → Bool
is_row provider name m = m.provider_id == provider && m.name == name

module _ (provider : ℕ) (name : String) where
  abbrev pub Off : Catalog → Type 0
  Off w = any_by (is_offered provider name) w.models ≡ false

  offered-append :
      (models : List AiModel) (m : AiModel)
      → any_by (is_offered provider name) models ≡ false
      → (m.name == name) ≡ false
      → any_by (is_offered provider name) (models ++ m ∷ []) ≡ false
  offered-append [] m off other = ground (arith, other)
  offered-append (x ∷ models) m off other = ground (arith, off, offered-append models m, other)

  -- A row that is switched off is offered nowhere.
  updated_model_off :
      (m : AiModel) (now : ℕ) (old : AiModel)
      → m.is_active ≡ false
      → is_offered provider name old ≡ false
      → is_offered provider name (updated_model m now old) ≡ false
  unfolding updated_model
  updated_model_off m now old inactive off = elim (Bool-cases (old.id == m.id)) [
    | inl same ↦ rw same (ground (arith, inactive))
    | inr differs ↦ rw differs off
  ]

  offered-map :
      (m : AiModel) (now : ℕ) (models : List AiModel)
      → m.is_active ≡ false
      → any_by (is_offered provider name) models ≡ false
      → any_by (is_offered provider name) (map (updated_model m now) models) ≡ false
  offered-map m now [] inactive off = refl
  offered-map m now (x ∷ models) inactive off = elim (Bool-cases (is_offered provider name x)) [
    | inl on ↦ ground (arith, on, off)
    | inr here ↦
        rw (updated_model_off m now x inactive here)
          (offered-map m now models inactive (ground (arith, here, off)))
  ]

  insert_model-Off :
      (m : AiModel) (w : Catalog) → (m.name == name) ≡ false → Off w → Off (insert_model m w).1
  unfolding insert_model
  insert_model-Off m w other off = elim (Bool-cases (any_by (collides m) w.models)) [
    | inl taken ↦ rw taken off
    | inr free ↦ rw free (offered-append w.models m off other)
  ]

  change_model-Off :
      (m : AiModel) (now : ℕ) (w : Catalog)
      → m.is_active ≡ false
      → Off w
      → Off (change_model m now w).1
  unfolding change_model
  change_model-Off m now w inactive off =
      elim (Bool-cases
        (any_by (λ old. old.id == m.id) w.models && any_by (takes_name m) w.models)) [
          | inl taken ↦ rw taken off
          | inr free ↦ rw free (offered-map m now w.models inactive off)
        ]

  statement-Off :
      (faults : List Bool) (run : Catalog → Bool × Catalog) (w : Catalog)
      → ((v : Catalog) → Off v → Off (run v).1)
      → Off w
      → Off (statement faults run w).1
  unfolding statement
  statement-Off [] run w keep off = keep w off
  statement-Off (true ∷ faults) run w keep off = off
  statement-Off (false ∷ faults) run w keep off = keep (record w { faults = faults }) off

  counted-Off : (r : SyncResult) (n : String) (x : Bool × Catalog) → Off x.1 → Off (counted r n x).1
  counted-Off r n (true, w) off = off
  counted-Off r n (false, w) off = off

  dropped-Off : (r : SyncResult) (n : String) (x : Bool × Catalog) → Off x.1 → Off (dropped r n x).1
  dropped-Off r n (true, w) off = off
  dropped-Off r n (false, w) off = off

  then_on-Off :
      (step : SyncResult → Catalog → SyncResult × Catalog) (state : SyncResult × Catalog)
      → ((r : SyncResult) (w : Catalog) → Off w → Off (step r w).1)
      → Off state.1
      → Off (then_on step state).1
  then_on-Off step (r, w) keep off = keep r w off

  module _ {A : Type 0} (build : String → A → AiModel) (existing : List AiModel) where
    -- A model that the table has is not created again.
    add_one-Off :
        (n : String) (found : A) (result : SyncResult) (w : Catalog)
        → (build n found).name ≡ n
        → has_name name existing ≡ true
        → Off w
        → Off (add_one build existing n found result w).1
    unfolding add_one create_model
    add_one-Off n found result w named there off = elim (Bool-cases (has_name n existing)) [
      | inl known ↦ rw known off
      | inr new ↦
          let differs : (n == name) ≡ false =
            ground (arith, string_eq.equals_iff n name, there, new) in
          rw new (
            counted-Off result n (create_model (build n found) w) (
              statement-Off w.faults (insert_model (build n found)) w
                (λ v. insert_model-Off (build n found) v (rw named differs)) off))
    ]

    add_new-Off :
        (discovered : List (String × A)) (state : SyncResult × Catalog)
        → ((n : String) (found : A) → (build n found).name ≡ n)
        → has_name name existing ≡ true
        → Off state.1
        → Off (add_new build existing discovered state).1
    unfolding add_new
    add_new-Off [] state named there off = off
    add_new-Off ((n, found) ∷ rest) state named there off =
        add_new-Off rest (then_on (add_one build existing n found) state) named there (
          then_on-Off (add_one build existing n found) state
            (λ r w o. add_one-Off n found r w (named n found) there o) off)

  deactivate_one-Off :
      (listed : String → Bool) (now : ℕ) (m : AiModel) (result : SyncResult) (w : Catalog)
      → Off w
      → Off (deactivate_one listed now m result w).1
  unfolding deactivate_one update_model
  deactivate_one-Off listed now m result w off = elim (Bool-cases (listed m.name || m.id == 0)) [
    | inl kept ↦ rw kept off
    | inr missing ↦ elim (Bool-cases m.is_active) [
      | inl active ↦
          let cleared : AiModel = record m { is_active = false; updated_at = now } in
          rw (missing, active)
            (dropped-Off result m.name (update_model cleared now w) (
              statement-Off w.faults (change_model cleared now) w
                (λ v. change_model-Off cleared now v refl) off))
      | inr inactive ↦ rw (missing, inactive) off
    ]
  ]

  pub deactivate_missing-Off :
      (listed : String → Bool) (now : ℕ) (existing : List AiModel) (state : SyncResult × Catalog)
      → Off state.1
      → Off (deactivate_missing listed now existing state).1
  unfolding deactivate_missing
  deactivate_missing-Off listed now [] state off = off
  deactivate_missing-Off listed now (m ∷ rest) state off =
      deactivate_missing-Off listed now rest (then_on (deactivate_one listed now m) state)
        (then_on-Off (deactivate_one listed now m) state (deactivate_one-Off listed now m) off)

  pub row-has_name :
      (models : List AiModel)
      → any_by (is_row provider name) models ≡ true
      → has_name name (models_of provider models) ≡ true
  unfolding models_of
  row-has_name [] there = cc
  row-has_name (m ∷ models) there = elim (Bool-cases (m.provider_id == provider)) [
    | inr other ↦ rw other (row-has_name models (ground (arith, there, other)))
    | inl its ↦ elim (Bool-cases (m.name == name)) [
      | inl same ↦ rw its (ground (arith, same))
      | inr differs ↦
          let rest : has_name name (models_of provider models) ≡ true =
            row-has_name models (ground (arith, there, differs)) in
          unfold models_of in rw its (ground (arith, differs, rest))
    ]
  ]

  -- A model that is in the table, but switched off, stays switched off, also where the provider
  -- lists it again, and whatever calls fail.
  pub reconcile_models_off :
      {A : Type 0} (build : String → A → AiModel) (now : ℕ) (discovered : List (String × A))
      (w : Catalog)
      → ((n : String) (found : A) → (build n found).name ≡ n)
      → any_by (is_row provider name) w.models ≡ true
      → any_by (is_offered provider name) w.models ≡ false
      → any_by
          (is_offered provider name)
          (reconcile_models build provider now discovered w).1.models
        ≡ false
  unfolding reconcile_models list_models_by_provider statement
  reconcile_models_off {A} build now discovered w named there off = go w.faults
    where
      found :
          (v : Catalog)
          → v.models ≡ w.models
          → Off (reconciled build provider now discovered (true, v)).1
      found v same =
          deactivate_missing-Off (lists discovered) now (models_of provider v.models)
            (add_new build (models_of provider v.models) discovered (no_result, v))
            (add_new-Off build (models_of provider v.models) discovered (no_result, v) named
              (row-has_name v.models (rw same there)) (rw same off))

      go :
          (faults : List Bool)
          → Off (reconciled build provider now discovered (statement faults (λ v. (true, v)) w)).1
      go [] = found w refl
      go (true ∷ faults) = off
      go (false ∷ faults) = found (record w { faults = faults }) refl
