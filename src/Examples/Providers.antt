-- ===== src/Examples/Providers.antt =====
-- pkg/llm: two providers, the preferred one down.
use go_saas_api.Common.{
  ℕ, ◌≡◌, refl, true, none, some, List, [], ◌∷◌, String, ◌==◌, string_eq, if◌then◌else◌, inl, inr,
}
use go_saas_api.Common.Int.{pos}
use go_saas_api.Common.Assoc.{lookup, insert}
use go_saas_api.Llm.MultiClient.{
  ProviderConfig, MultiClient, Answer, Outcome, register, new_multi_client, stream, usable,
}
use go_saas_api.Llm.MultiClient.Order.{IsOrdered}
use go_saas_api.Llm.MultiClient.Runs.{
  Operation, add, serve, recheck, perform_all, perform_all-IsOrdered,
}
use go_saas_api.Llm.MultiClient.Routing.{OwnerOnly, stream-OwnerOnly}
use go_saas_api.Llm.MultiClient.Fallback.{stream_fallback}
use go_saas_api.Llm.MultiClient.Breaker.{serve_times, serve_times_trips}

abbrev local : ProviderConfig String
local = record {
  name = "ollama";
  models = "llama3" ∷ [];
  client = some "local";
  enabled = true;
  weight = pos 10;
}

abbrev remote : ProviderConfig String
remote = record {
  name = "openai";
  models = "gpt" ∷ [];
  client = some "remote";
  enabled = true;
  weight = pos 5;
}

-- The local client fails, the remote one answers.
abbrev call : String → Answer ℕ
call client = if client == "remote" then Answer.ok 7 else Answer.err "connection refused"

abbrev manager : MultiClient String
manager = record {
  providers = ("ollama", local) ∷ ("openai", remote) ∷ [];
  model_map = ("llama3", "ollama") ∷ ("gpt", "openai") ∷ [];
  defaults = "ollama" ∷ "openai" ∷ [];
  failure_counts = [];
  fallback_count = 0;
}

-- `manager` is what two registrations make.
manager-register : register remote (register local new_multi_client) ≡ manager
unfolding register insert
manager-register = refl

abbrev operations : List (Operation String)
operations =
    add local
    ∷ add remote
    ∷ serve call "llama3"
    ∷ serve call "llama3"
    ∷ serve call "llama3"
    ∷ recheck (λ client. client == "local")
    ∷ []

perform_all-IsOrdered_example : IsOrdered (perform_all operations new_multi_client)
perform_all-IsOrdered_example = perform_all-IsOrdered operations

stream-OwnerOnly_example : OwnerOnly call "llama3" "ollama" manager (stream call "llama3" manager)
unfolding lookup
stream-OwnerOnly_example = stream-OwnerOnly call "llama3" "ollama" manager refl

stream_fallback_example : (b : ℕ) × ((stream call "" manager).0 ≡ Outcome.ok b)
unfolding lookup usable
stream_fallback_example =
    stream_fallback call "openai" manager "remote" 7 refl (inr (inl refl)) refl refl

-- Three requests disable the local provider.
serve_times_trips_example : usable "ollama" (serve_times call "llama3" "ollama" 3 manager) ≡ none
unfolding lookup usable
serve_times_trips_example =
    serve_times_trips call "llama3" "ollama" 3 manager "local" "connection refused" refl refl refl
      refl
