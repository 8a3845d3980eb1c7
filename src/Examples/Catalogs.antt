-- ===== src/Examples/Catalogs.antt =====
-- A sync of models.
use go_saas_api.Common.{◌≡◌, refl, ℕ, String, true, false, [], ◌∷◌, any_by}
use go_saas_api.Common.Int.{pos}
use go_saas_api.Provider.{AiModel, Catalog, OllamaModel, ollama_row, reconcile_models}
use go_saas_api.Provider.Missing.{reconcile_models_missing}
use go_saas_api.Provider.Sync.{is_offered, reconcile_models_off}

abbrev retired : AiModel
retired = record {
  id = 1;
  provider_id = 7;
  name = "llama3.1";
  display_name = "llama3.1";
  description = "";
  max_tokens = pos 4096;
  context_window = pos 8192;
  supports_streaming = true;
  supports_images = false;
  is_active = false;
  is_public = true;
  is_premium = false;
  created_at = 0;
  updated_at = 0;
}

abbrev catalog : Catalog
catalog = record { models = retired ∷ []; faults = [] }

abbrev seen : OllamaModel
seen = record {
  name = "llama3.1";
  model = "";
  family = "llama";
  parameter_size = "8B";
  quantization_level = "Q4";
}

abbrev new_id : String → ℕ
new_id name = 2

reconcile_models_off_example :
    any_by
      (is_offered 7 "llama3.1")
      (reconcile_models
        (ollama_row new_id 7 10)
        7
        10
        (("llama3.1", seen) ∷ ("mixtral", seen) ∷ [])
        catalog).1.models
    ≡ false
unfolding ollama_row
reconcile_models_off_example =
    reconcile_models_off 7 "llama3.1" (ollama_row new_id 7 10) 10
      (("llama3.1", seen) ∷ ("mixtral", seen) ∷ []) catalog (λ n found. refl) refl refl

abbrev gone : Catalog
gone = record { models = record retired { is_active = true } ∷ []; faults = [] }

reconcile_models_missing_example :
    any_by
      (is_offered 7 "llama3.1")
      (reconcile_models (ollama_row new_id 7 10) 7 10 (("mixtral", seen) ∷ []) gone).1.models
    ≡ false
unfolding ollama_row
reconcile_models_missing_example =
    reconcile_models_missing 7 "llama3.1" 1 (ollama_row new_id 7 10) 10 (("mixtral", seen) ∷ [])
      gone (λ n found. refl) refl refl refl refl refl
