-- ===== src/Provider.antt =====
-- internal/provider/model_sync.go, with the statements of store.go that it calls: the models that a
-- provider lists are brought into the table. A UUID is a number, with 0 for uuid.Nil, a time a
-- number of seconds; the new UUIDs of one sync are a function of the models' names. The requests to
-- a provider and the decoding of their answers are parameters. `config` is left out: a sync writes
-- an empty one or the one it read. Each call of the table fails where the schedule of faults says
-- so, and then has no effect.
pub mod Sync
pub mod Missing
use go_saas_api.Common.{
  ℕ, ◌+◌, String, Bool, true, false, ◌&&◌, ◌||◌, not, Option, none, some, List, [], ◌∷◌, ◌++◌, map,
  ◌==◌, nat_eq, string_eq, if◌then◌else◌, any_by, filter_by,
}
use go_saas_api.Common.Int.{ℤ, pos, negsuc}
use go_saas_api.Common.Assoc.{insert}
use Prim.Native.String as Text

pub record AiModel : Type 0 where
  pub id : ℕ
  pub provider_id : ℕ
  pub name : String
  pub display_name : String
  pub description : String
  pub max_tokens : ℤ
  pub context_window : ℤ
  pub supports_streaming : Bool
  pub supports_images : Bool
  pub is_active : Bool
  pub is_public : Bool
  pub is_premium : Bool
  pub created_at : ℕ
  pub updated_at : ℕ

pub record Catalog : Type 0 where
  pub models : List AiModel
  pub faults : List Bool

pub data SyncError : Type 0 where
  create_failed deactivate_failed : (name : String) → SyncError

pub record SyncResult : Type 0 where
  pub added : ℕ
  pub updated : ℕ
  pub removed : ℕ
  pub errors : List SyncError

-- The fields of a model of /api/tags and of /api/v0/models that are read.
pub record OllamaModel : Type 0 where
  pub name : String
  pub model : String
  pub family : String
  pub parameter_size : String
  pub quantization_level : String

pub record LmStudioModel : Type 0 where
  pub id : String
  pub type_name : String
  pub publisher : String
  pub arch : String
  pub quantization : String
  pub state : String
  pub max_context_length : ℤ

-- The primary key, and UNIQUE (provider_id, name).
unfoldable pub collides : AiModel → AiModel → Bool
collides new old = old.id == new.id || (old.provider_id == new.provider_id && old.name == new.name)

unfoldable pub takes_name : AiModel → AiModel → Bool
takes_name m old = not (old.id == m.id) && (old.provider_id == m.provider_id && old.name == m.name)

-- The columns that UpdateModel sets.
unfoldable pub updated_model : AiModel → (now : ℕ) → AiModel → AiModel
updated_model m now old =
    if old.id == m.id
    then record m { provider_id = old.provider_id; created_at = old.created_at; updated_at = now }
    else old

unfoldable pub insert_model : AiModel → Catalog → Bool × Catalog
unfolding collides
insert_model m w =
    if any_by (collides m) w.models
    then (false, w)
    else (true, record w { models = w.models ++ m ∷ [] })

unfoldable pub change_model : AiModel → (now : ℕ) → Catalog → Bool × Catalog
unfolding takes_name updated_model
change_model m now w =
    if any_by (λ old. old.id == m.id) w.models && any_by (takes_name m) w.models
    then (false, w)
    else (true, record w { models = map (updated_model m now) w.models })

-- A statement under the schedule of faults, and whether it went well.
unfoldable pub statement : List Bool → (Catalog → Bool × Catalog) → Catalog → Bool × Catalog
statement [] run w = run w
statement (true ∷ faults) run w = (false, record w { faults = faults })
statement (false ∷ faults) run w = run (record w { faults = faults })

unfoldable pub create_model : AiModel → Catalog → Bool × Catalog
unfolding statement insert_model
create_model m w = statement w.faults (insert_model m) w

unfoldable pub update_model : AiModel → (now : ℕ) → Catalog → Bool × Catalog
unfolding statement change_model
update_model m now w = statement w.faults (change_model m now) w

unfoldable pub list_models_by_provider : (provider : ℕ) → Catalog → Bool × Catalog
unfolding statement
list_models_by_provider provider w = statement w.faults (λ v. (true, v)) w

unfoldable pub models_of : (provider : ℕ) → List AiModel → List AiModel
models_of provider models = filter_by (λ m. m.provider_id == provider) models

abbrev pub has_name : String → List AiModel → Bool
has_name name models = any_by (λ m. m.name == name) models

abbrev pub lists : {A : Type 0} → List (String × A) → String → Bool
lists discovered name = any_by (λ d. d.0 == name) discovered

abbrev pub counted : SyncResult → (name : String) → Bool × Catalog → SyncResult × Catalog
counted result name (true, w) = (record result { added = result.added + 1 }, w)
counted result name (false, w) =
    (record result { errors = result.errors ++ create_failed name ∷ [] }, w)

abbrev pub dropped : SyncResult → (name : String) → Bool × Catalog → SyncResult × Catalog
dropped result name (true, w) = (record result { removed = result.removed + 1 }, w)
dropped result name (false, w) =
    (record result { errors = result.errors ++ deactivate_failed name ∷ [] }, w)

-- A model that the provider lists and the table has not is created.
unfoldable pub add_one :
    {A : Type 0}
    → (String → A → AiModel)
    → (existing : List AiModel) → String
    → A
    → SyncResult
    → Catalog
    → SyncResult × Catalog
unfolding create_model
add_one build existing name found result w =
    if has_name name existing
    then (result, w)
    else counted result name (create_model (build name found) w)

abbrev pub then_on :
    (SyncResult → Catalog → SyncResult × Catalog) → SyncResult × Catalog → SyncResult × Catalog
then_on step (result, w) = step result w

unfoldable pub add_new :
    {A : Type 0}
    → (String → A → AiModel)
    → (existing : List AiModel) → List (String × A)
    → SyncResult × Catalog
    → SyncResult × Catalog
unfolding add_one
add_new build existing [] state = state
add_new build existing ((name, found) ∷ rest) state =
    add_new build existing rest (then_on (add_one build existing name found) state)

-- An active model that the table has and the provider does not list is switched off. A model that
-- it lists was marked with an empty id.
unfoldable pub deactivate_one :
    (listed : String → Bool) (now : ℕ) → AiModel → SyncResult → Catalog → SyncResult × Catalog
unfolding update_model
deactivate_one listed now m result w =
    if listed m.name || m.id == 0
    then (result, w)
    else if m.is_active
    then dropped result m.name
        (update_model (record m { is_active = false; updated_at = now }) now w)
    else (result, w)

unfoldable pub deactivate_missing :
    (listed : String → Bool) (now : ℕ) → List AiModel → SyncResult × Catalog → SyncResult × Catalog
unfolding deactivate_one
deactivate_missing listed now [] state = state
deactivate_missing listed now (m ∷ rest) state =
    deactivate_missing listed now rest (then_on (deactivate_one listed now m) state)

abbrev pub no_result : SyncResult
no_result = record { added = 0; updated = 0; removed = 0; errors = [] }

abbrev pub reconciled :
    {A : Type 0}
    → (String → A → AiModel)
    → (provider now : ℕ) → List (String × A)
    → Bool × Catalog
    → Option SyncResult × Catalog
unfolding add_new deactivate_missing models_of
reconciled build provider now discovered (false, w) = (none, w)
reconciled build provider now discovered (true, w) =
    let existing = models_of provider w.models in
    let (result, after) =
      deactivate_missing (lists discovered) now existing
        (add_new build existing discovered (no_result, w)) in
    (some result, after)

-- `reconcileModels` and `reconcileLMStudioModels`, which differ in the row that is built. Nothing
-- is the error of the first read.
unfoldable pub reconcile_models :
    {A : Type 0}
    → (String → A → AiModel)
    → (provider now : ℕ) → List (String × A)
    → Catalog
    → Option SyncResult × Catalog
unfolding add_new deactivate_missing models_of list_models_by_provider
reconcile_models build provider now discovered w =
    reconciled build provider now discovered (list_models_by_provider provider w)

unfoldable pub ollama_row :
    (new_id : String → ℕ) (provider now : ℕ) → String → OllamaModel → AiModel
ollama_row new_id provider now name found = record {
  id = new_id name;
  provider_id = provider;
  name = name;
  display_name =
      if not (found.parameter_size == "")
      then Text.◌++◌ name (Text.◌++◌ " (" (Text.◌++◌ found.parameter_size ")"))
      else name;
  description =
      Text.◌++◌ "Family: "
        (Text.◌++◌ found.family (Text.◌++◌ ", Quant: " found.quantization_level));
  max_tokens = pos 4096;
  context_window = pos 8192;
  supports_streaming = true;
  supports_images = false;
  is_active = true;
  is_public = true;
  is_premium = false;
  created_at = now;
  updated_at = now;
}

abbrev window_or_default : ℤ → ℤ
window_or_default (pos ℕ.zero) = pos 4096
window_or_default (pos (ℕ.suc n)) = pos (ℕ.suc n)
window_or_default (negsuc n) = negsuc n

unfoldable pub lm_studio_row :
    (new_id : String → ℕ) (provider now : ℕ) → String → LmStudioModel → AiModel
lm_studio_row new_id provider now name found = record {
  id = new_id name;
  provider_id = provider;
  name = name;
  display_name =
      if not (found.quantization == "")
      then Text.◌++◌ name (Text.◌++◌ " [" (Text.◌++◌ found.quantization "]"))
      else name;
  description = Text.◌++◌ "Type: " (
      Text.◌++◌ found.type_name (
        Text.◌++◌ ", Arch: " (
          Text.◌++◌ found.arch (
            Text.◌++◌ ", Publisher: "
              (Text.◌++◌ found.publisher (Text.◌++◌ ", State: " found.state))))));
  max_tokens = window_or_default found.max_context_length;
  context_window = window_or_default found.max_context_length;
  supports_streaming = true;
  supports_images = found.type_name == "vlm";
  is_active = true;
  is_public = true;
  is_premium = false;
  created_at = now;
  updated_at = now;
}

-- discovered[name] = m
unfoldable pub discovered_ollama :
    List OllamaModel → List (String × OllamaModel) → List (String × OllamaModel)
discovered_ollama [] found = found
discovered_ollama (m ∷ models) found =
    discovered_ollama models (insert (if m.name == "" then m.model else m.name) m found)

unfoldable pub discovered_lm_studio :
    List LmStudioModel → List (String × LmStudioModel) → List (String × LmStudioModel)
discovered_lm_studio [] found = found
discovered_lm_studio (m ∷ models) found = discovered_lm_studio models (insert m.id m found)

-- `tags` and `data` are the decoded answers, if there is one with status 200.
unfoldable pub sync_ollama_models :
    (new_id : String → ℕ) (provider now : ℕ)
    → (tags : Option (List OllamaModel)) → Catalog
    → Option SyncResult × Catalog
unfolding reconcile_models ollama_row discovered_ollama
sync_ollama_models new_id provider now none w = (none, w)
sync_ollama_models new_id provider now (some models) w =
    reconcile_models (ollama_row new_id provider now) provider now (discovered_ollama models []) w

unfoldable pub sync_lm_studio_models :
    (new_id : String → ℕ) (provider now : ℕ)
    → (data_list : Option (List LmStudioModel)) → Catalog
    → Option SyncResult × Catalog
unfolding reconcile_models lm_studio_row discovered_lm_studio
sync_lm_studio_models new_id provider now none w = (none, w)
sync_lm_studio_models new_id provider now (some models) w =
    reconcile_models (lm_studio_row new_id provider now) provider now
      (discovered_lm_studio models []) w
