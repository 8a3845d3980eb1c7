-- ===== src/Provider/Missing.antt =====
-- Models that a provider no longer lists (internal/provider/model_sync.go), over a sync.
mod Rows
use go_saas_api.Common.{
  ℕ, ◌≡◌, refl, ap, String, Bool, true, false, ◌&&◌, ◌||◌, not, none, List, [], ◌∷◌, map, ◌==◌,
  nat_eq, string_eq, if◌then◌else◌, any_by, Bool-cases, inl, inr, arith, All,
}
use go_saas_api.Provider.{
  AiModel, Catalog, SyncResult, collides, takes_name, insert_model, change_model, statement,
  create_model, update_model, list_models_by_provider, models_of, has_name, lists, counted, dropped,
  then_on, add_one, deactivate_one, add_new, deactivate_missing, no_result, reconcile_models,
}
use go_saas_api.Provider.Sync.{
  is_offered, is_row, deactivate_missing-Off, row-has_name, reconcile_models_off,
}
use go_saas_api.Provider.Missing.Rows.{is_stray, stray-append, stray-map, cleared-map, free-name}

create_model-quiet :
    (m : AiModel) (w : Catalog) → w.faults ≡ [] → create_model m w ≡ insert_model m w
unfolding create_model statement
create_model-quiet m w quiet = ap (λ faults. statement faults (insert_model m) w) quiet

update_model-quiet :
    (m : AiModel) (now : ℕ) (w : Catalog)
    → w.faults ≡ []
    → update_model m now w ≡ change_model m now w
unfolding update_model statement
update_model-quiet m now w quiet = ap (λ faults. statement faults (change_model m now) w) quiet

module _ (provider : ℕ) (name : String) (id : ℕ) where
  -- No call fails, and all rows of the provider with the name have the id.
  abbrev IsQuiet : Catalog → Type 0
  IsQuiet w = (w.faults ≡ []) × (any_by (is_stray provider name id) w.models ≡ false)

  insert_model-IsQuiet :
      (m : AiModel) (w : Catalog)
      → (m.name == name) ≡ false
      → IsQuiet w
      → IsQuiet (insert_model m w).1
  unfolding insert_model
  insert_model-IsQuiet m w other (quiet, none_yet) =
      elim (Bool-cases (any_by (collides m) w.models)) [
        | inl taken ↦ rw taken (quiet, none_yet)
        | inr free ↦ rw free (quiet, stray-append provider name id w.models m none_yet other)
      ]

  change_model-IsQuiet :
      (m : AiModel) (now : ℕ) (w : Catalog)
      → (m.name == name && not (m.id == id)) ≡ false
      → IsQuiet w
      → IsQuiet (change_model m now w).1
  unfolding change_model
  change_model-IsQuiet m now w fine (quiet, none_yet) =
      elim (Bool-cases
        (any_by (λ old. old.id == m.id) w.models && any_by (takes_name m) w.models)) [
          | inl taken ↦ rw taken (quiet, none_yet)
          | inr free ↦ rw free (quiet, stray-map provider name id m now w.models fine none_yet)
        ]

  counted-IsQuiet :
      (r : SyncResult) (n : String) (x : Bool × Catalog) → IsQuiet x.1 → IsQuiet (counted r n x).1
  counted-IsQuiet r n (true, w) q = q
  counted-IsQuiet r n (false, w) q = q

  dropped-IsQuiet :
      (r : SyncResult) (n : String) (x : Bool × Catalog) → IsQuiet x.1 → IsQuiet (dropped r n x).1
  dropped-IsQuiet r n (true, w) q = q
  dropped-IsQuiet r n (false, w) q = q

  then_on-IsQuiet :
      (step : SyncResult → Catalog → SyncResult × Catalog) (state : SyncResult × Catalog)
      → ((r : SyncResult) (w : Catalog) → IsQuiet w → IsQuiet (step r w).1)
      → IsQuiet state.1
      → IsQuiet (then_on step state).1
  then_on-IsQuiet step (r, w) keep q = keep r w q

  module _ {A : Type 0} (build : String → A → AiModel) (existing : List AiModel) where
    add_one-IsQuiet :
        (n : String) (found : A) (result : SyncResult) (w : Catalog)
        → (build n found).name ≡ n
        → has_name name existing ≡ true
        → IsQuiet w
        → IsQuiet (add_one build existing n found result w).1
    unfolding add_one
    add_one-IsQuiet n found result w named there (quiet, none_yet) =
        elim (Bool-cases (has_name n existing)) [
          | inl known ↦ rw known (quiet, none_yet)
          | inr new ↦
              let differs : (n == name) ≡ false =
                ground (arith, string_eq.equals_iff n name, there, new) in
              rw (new, create_model-quiet (build n found) w quiet)
                (counted-IsQuiet result n (insert_model (build n found) w)
                  (insert_model-IsQuiet (build n found) w (rw named differs) (quiet, none_yet)))
        ]

    add_new-IsQuiet :
        (discovered : List (String × A)) (state : SyncResult × Catalog)
        → ((n : String) (found : A) → (build n found).name ≡ n)
        → has_name name existing ≡ true
        → IsQuiet state.1
        → IsQuiet (add_new build existing discovered state).1
    unfolding add_new
    add_new-IsQuiet [] state named there q = q
    add_new-IsQuiet ((n, found) ∷ rest) state named there q =
        add_new-IsQuiet rest (then_on (add_one build existing n found) state) named there (
          then_on-IsQuiet (add_one build existing n found) state
            (λ r w o. add_one-IsQuiet n found r w (named n found) there o) q)

  module _ (listed : String → Bool) (now : ℕ) where
    deactivate_one-IsQuiet :
        (m : AiModel) (result : SyncResult) (w : Catalog)
        → (m.name == name && not (m.id == id)) ≡ false
        → IsQuiet w
        → IsQuiet (deactivate_one listed now m result w).1
    unfolding deactivate_one
    deactivate_one-IsQuiet m result w fine (quiet, none_yet) =
        elim (Bool-cases (listed m.name || m.id == 0)) [
          | inl kept ↦ rw kept (quiet, none_yet)
          | inr missing ↦ elim (Bool-cases m.is_active) [
            | inl active ↦
                let cleared : AiModel = record m { is_active = false; updated_at = now } in
                rw (missing, active, update_model-quiet cleared now w quiet)
                  (dropped-IsQuiet result m.name (change_model cleared now w)
                    (change_model-IsQuiet cleared now w fine (quiet, none_yet)))
            | inr inactive ↦ rw (missing, inactive) (quiet, none_yet)
          ]
        ]

    -- The step at a row that is offered switches it off.
    deactivate_one-Cleared :
        (m : AiModel) (result : SyncResult) (w : Catalog)
        → m.id ≡ id
        → m.provider_id ≡ provider
        → m.name ≡ name
        → m.is_active ≡ true
        → (listed m.name || m.id == 0) ≡ false
        → IsQuiet w
        → any_by (is_offered provider name) (deactivate_one listed now m result w).1.models ≡ false
    unfolding deactivate_one change_model
    deactivate_one-Cleared m result w its p n active missing (quiet, none_yet) =
        let cleared : AiModel = record m { is_active = false; updated_at = now } in
        let free : any_by (takes_name cleared) w.models ≡ false =
          free-name provider name id cleared w.models its p n none_yet in
        elim (Bool-cases (any_by (λ old. old.id == m.id) w.models)) [
          | inl there ↦
              rw (missing, active, update_model-quiet cleared now w quiet, there, free)
                (cleared-map provider name id cleared now w.models its refl none_yet)
          | inr absent ↦
              rw (missing, active, update_model-quiet cleared now w quiet, absent)
                (cleared-map provider name id cleared now w.models its refl none_yet)
        ]

    -- Where a row is offered, the loop comes to it.
    deactivate_missing-Cleared :
        (existing : List AiModel) (state : SyncResult × Catalog)
        → (id == 0) ≡ false
        → listed name ≡ false
        → any_by (is_stray provider name id) existing ≡ false
        → any_by (is_offered provider name) existing ≡ true
        → (All (λ m. m.provider_id ≡ provider) existing)
        → IsQuiet state.1
        → any_by (is_offered provider name) (deactivate_missing listed now existing state).1.models
          ≡ false
    unfolding deactivate_missing
    deactivate_missing-Cleared [] state named unlisted none_yet there own q = cc
    deactivate_missing-Cleared (m ∷ rest) state named unlisted none_yet there (own, owns) q =
        elim (Bool-cases (is_stray provider name id m)) [
          | inl strays ↦ ground (arith, strays, none_yet)
          | inr here ↦ elim (Bool-cases (is_offered provider name m)) [
            | inl on ↦
                let n : m.name ≡ name = ground (arith, on, string_eq.equals_iff m.name name) in
                let its : m.id ≡ id = ground (
                  arith,
                  here,
                  on,
                  nat_eq.equals_iff m.id id,
                  nat_eq.equals_iff m.provider_id provider,
                ) in
                deactivate_missing-Off provider name listed now rest
                  (then_on (deactivate_one listed now m) state)
                  (at_step m state its own n (ground (arith, on))
                    (rw (n, unlisted, its, named) refl) q)
            | inr off ↦
                deactivate_missing-Cleared rest (then_on (deactivate_one listed now m) state) named
                  unlisted (ground (arith, here, none_yet)) (ground (arith, off, there)) owns
                  (then_on-IsQuiet (deactivate_one listed now m) state
                    (λ r w.
                      deactivate_one-IsQuiet m r w
                        (ground (arith, here, nat_eq.equals_iff m.provider_id provider, own)))
                    q)
          ]
        ]
      where
        at_step :
            (m : AiModel) (state : SyncResult × Catalog)
            → m.id ≡ id
            → m.provider_id ≡ provider
            → m.name ≡ name
            → m.is_active ≡ true
            → (listed m.name || m.id == 0) ≡ false
            → IsQuiet state.1
            → any_by
                (is_offered provider name)
                (then_on (deactivate_one listed now m) state).1.models
              ≡ false
        at_step m (r, w) its p n active missing q =
            deactivate_one-Cleared m r w its p n active missing q

  offered-models_of :
      (models : List AiModel)
      → any_by (is_offered provider name) models ≡ true
      → any_by (is_offered provider name) (models_of provider models) ≡ true
  unfolding models_of
  offered-models_of [] there = cc
  offered-models_of (m ∷ models) there = elim (Bool-cases (m.provider_id == provider)) [
    | inr other ↦ rw other (offered-models_of models (ground (arith, there, other)))
    | inl its ↦ elim (Bool-cases (is_offered provider name m)) [
      | inl on ↦ rw its (ground (arith, on, its))
      | inr off ↦
          let rest : any_by (is_offered provider name) (models_of provider models) ≡ true =
            offered-models_of models (ground (arith, there, off)) in
          unfold models_of in rw its (ground (arith, off, rest))
    ]
  ]

  stray-models_of :
      (models : List AiModel)
      → any_by (is_stray provider name id) models ≡ false
      → any_by (is_stray provider name id) (models_of provider models) ≡ false
  unfolding models_of
  stray-models_of [] none_yet = refl
  stray-models_of (m ∷ models) none_yet = elim (Bool-cases (is_stray provider name id m)) [
    | inl strays ↦ ground (arith, strays, none_yet)
    | inr here ↦
        let rest : any_by (is_stray provider name id) (models_of provider models) ≡ false =
          stray-models_of models (ground (arith, here, none_yet)) in
        unfold models_of in
        elim (Bool-cases (m.provider_id == provider)) [
          | inl its ↦ rw (its, here) rest
          | inr other ↦ rw other rest
        ]
  ]

  All-models_of :
      (models : List AiModel) → All (λ m. m.provider_id ≡ provider) (models_of provider models)
  unfolding models_of
  All-models_of [] = tt
  All-models_of (m ∷ models) = elim (Bool-cases (m.provider_id == provider)) [
    | inl its ↦ rw its ((nat_eq.equals_iff m.provider_id provider).0 its, All-models_of models)
    | inr other ↦ rw other (All-models_of models)
  ]

  -- Where no call fails, and a name has one id, not the empty one, a sync leaves no active row of a
  -- name of the table that the provider does not list.
  pub reconcile_models_missing :
      {A : Type 0} (build : String → A → AiModel) (now : ℕ) (discovered : List (String × A))
      (w : Catalog)
      → ((n : String) (found : A) → (build n found).name ≡ n)
      → w.faults ≡ []
      → (id == 0) ≡ false
      → any_by (is_row provider name) w.models ≡ true
      → any_by (is_stray provider name id) w.models ≡ false
      → lists discovered name ≡ false
      → any_by
          (is_offered provider name)
          (reconcile_models build provider now discovered w).1.models
        ≡ false
  unfolding reconcile_models
  reconcile_models_missing build now discovered w named quiet full there none_yet unlisted =
      elim (Bool-cases (any_by (is_offered provider name) w.models)) [
        | inr off ↦ reconcile_models_off provider name build now discovered w named there off
        | inl on ↦
            let read : list_models_by_provider provider w ≡ (true, w) =
              unfold list_models_by_provider statement in
              ap (λ faults. statement faults (λ v. (true, v)) w) quiet in
            rw read (
              deactivate_missing-Cleared (lists discovered) now (models_of provider w.models)
                (add_new build (models_of provider w.models) discovered (no_result, w)) full
                unlisted (stray-models_of w.models none_yet) (offered-models_of w.models on)
                (All-models_of w.models)
                (add_new-IsQuiet build (models_of provider w.models) discovered (no_result, w) named
                  (row-has_name provider name w.models there) (quiet, none_yet)))
      ]
