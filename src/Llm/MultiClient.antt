-- ===== src/Llm/MultiClient.antt =====
-- pkg/llm/multiclient.go: several providers behind one client, with fallback between them and a
-- circuit breaker for each. The clients are a parameter: a type, and for each operation what the
-- call of a client returns during that operation (`Answer`). One operation runs at a time: the
-- locks are not modelled. Counters are unbounded. Messages of errors are constructors.
mod Loop
mod Sort
pub mod Order
pub mod Runs
pub mod Routing
pub mod Fallback
pub mod Breaker
use go_saas_api.Common.{
  ℕ, suc, ◌+◌, String, Bool, true, false, Option, none, some, List, [], ◌∷◌, map, ◌==◌, string_eq,
  leb, not, ◌||◌, if◌then◌else◌, length,
}
use go_saas_api.Common.Assoc.{lookup, insert}
use go_saas_api.Common.Int.{ℤ, lt_int}

abbrev pub circuit_breaker_threshold : ℕ
circuit_breaker_threshold = 3

pub record ProviderConfig (Client : Type 0) : Type 0 where
  pub name : String
  pub models : List String
  pub client : Option Client
  pub enabled : Bool
  pub weight : ℤ

pub record MultiClient (Client : Type 0) : Type 0 where
  pub providers : List (String × ProviderConfig Client)
  pub model_map : List (String × String)
  pub defaults : List String
  pub failure_counts : List (String × ℕ)
  pub fallback_count : ℕ

-- What the call of a client returns: a value, or an error.
pub data Answer (A : Type 0) : Type 0 where
  ok : A → Answer A
  err : String → Answer A

pub data Failure : Type 0 where
  no_providers_registered : Failure
  all_providers_failed : (name cause : String) → Failure
  no_available_providers : (model : String) → Failure

pub data Outcome (A : Type 0) : Type 0 where
  ok : A → Outcome A
  err : Failure → Outcome A

pub record Weighted : Type 0 where
  pub name : String
  pub weight : ℤ

abbrev pub get_count : String → List (String × ℕ) → ℕ
get_count name counts = elim (lookup name counts) [ none ↦ 0 | some n ↦ n ]

-- The inner loop of the sort: `x` is `w[i]`, the list is what stands behind it.
unfoldable pub sweep : Weighted → List Weighted → Weighted × List Weighted
sweep x [] = (x, [])
sweep x (y ∷ ys) =
    let less = lt_int x.weight y.weight in
    let (top, rest) = sweep (if less then y else x) ys in (top, (if less then x else y) ∷ rest)

-- The outer loop; the first argument counts the rounds left.
unfoldable pub sort_from : ℕ → List Weighted → List Weighted
unfolding sweep
sort_from rounds [] = []
sort_from ℕ.zero (x ∷ xs) = x ∷ xs
sort_from (suc rounds) (x ∷ xs) = let (top, rest) = sweep x xs in top ∷ sort_from rounds rest

unfoldable pub map_models : List String → String → List (String × String) → List (String × String)
map_models [] name m = m
map_models (model ∷ models) name m = map_models models name (insert model name m)

-- The error behind the loop.
unfoldable pub give_up : String → Option (String × String) → Failure
give_up model none = no_available_providers model
give_up model (some (name, cause)) = all_providers_failed name cause

module _ {Client : Type 0} where
  abbrev pub new_multi_client : MultiClient Client
  new_multi_client = record {
    providers = [];
    model_map = [];
    defaults = [];
    failure_counts = [];
    fallback_count = 0;
  }

  -- The enabled providers, in the order in which the map is ranged over.
  unfoldable pub enabled_of : List (String × ProviderConfig Client) → List Weighted
  enabled_of [] = []
  enabled_of ((name, p) ∷ rest) =
      let later = enabled_of rest in
      if p.enabled then record { name = name; weight = p.weight } ∷ later else later

  unfoldable pub rebuild_defaults : MultiClient Client → MultiClient Client
  unfolding enabled_of sort_from
  rebuild_defaults mc =
      let w = enabled_of mc.providers in
      record mc { defaults = map (λ x. x.name) (sort_from (length w) w) }

  unfoldable pub register : ProviderConfig Client → MultiClient Client → MultiClient Client
  unfolding rebuild_defaults map_models
  register cfg mc = rebuild_defaults (record mc {
    providers = insert cfg.name cfg mc.providers;
    model_map = map_models cfg.models cfg.name mc.model_map;
  })

  -- `if p, ok := mc.providers[name]; ok { p.Enabled = false; … }`
  unfoldable pub disable :
      String → Option (ProviderConfig Client) → MultiClient Client → MultiClient Client
  unfolding rebuild_defaults
  disable name none mc = mc
  disable name (some p) mc =
      rebuild_defaults
        (record mc { providers = insert name (record p { enabled = false }) mc.providers })

  unfoldable pub record_failure : String → MultiClient Client → MultiClient Client
  unfolding disable
  record_failure name mc =
      let count = get_count name mc.failure_counts + 1 in
      let mc' = record mc { failure_counts = insert name count mc.failure_counts } in
      if leb circuit_breaker_threshold count
      then disable name (lookup name mc.providers) mc'
      else mc'

  unfoldable pub reset_failures : String → MultiClient Client → MultiClient Client
  reset_failures name mc = record mc { failure_counts = insert name 0 mc.failure_counts }

  -- The client of a provider that is registered, enabled and has one.
  unfoldable pub client_of : Option (ProviderConfig Client) → Option Client
  client_of none = none
  client_of (some p) = if p.enabled then p.client else none

  unfoldable pub usable : String → MultiClient Client → Option Client
  unfolding client_of
  usable name mc = client_of (lookup name mc.providers)

  -- The names to try for a model.
  unfoldable pub names_for : Option String → String → MultiClient Client → List String
  names_for (some preferred) model mc = preferred ∷ []
  names_for none model mc = if model == "" then mc.defaults else []

  -- The count of fallbacks goes up where the provider used is not the preferred one.
  unfoldable pub note_fallback : Option String → String → MultiClient Client → MultiClient Client
  note_fallback none used mc = mc
  note_fallback (some preferred) used mc =
      if used == preferred then mc else record mc { fallback_count = mc.fallback_count + 1 }

  module _ {A : Type 0} (call : Client → Answer A) (model : String) where
    -- The loop over the names, with the last error so far.
    unfoldable pub try_names :
        List String → Option (String × String) → MultiClient Client → Outcome A × MultiClient Client
    try_names [] last mc = (err (give_up model last), mc)
    try_names (name ∷ names) last mc = elim (usable name mc) [
      | none ↦ try_names names last mc
      | some client ↦ elim (call client) [
        | Answer.err cause ↦ try_names names (some (name, cause)) (record_failure name mc)
        | Answer.ok a ↦
            (ok a, note_fallback (lookup model mc.model_map) name (reset_failures name mc))
      ]
    ]

    -- The check for an empty list of names, and the loop.
    unfoldable pub attempt : List String → MultiClient Client → Outcome A × MultiClient Client
    attempt [] mc = (err no_providers_registered, mc)
    attempt (name ∷ names) mc = try_names (name ∷ names) none mc

    unfoldable pub stream : MultiClient Client → Outcome A × MultiClient Client
    stream mc = attempt (names_for (lookup model mc.model_map) model mc) mc

    -- `Complete` is written like `Stream`, with the answer's text for the channel.
    unfoldable pub complete : MultiClient Client → Outcome A × MultiClient Client
    complete mc = attempt (names_for (lookup model mc.model_map) model mc) mc

  -- Whether a provider has a client that passes the check.
  unfoldable pub passes : (Client → Bool) → Option Client → Bool
  passes check none = false
  passes check (some client) = check client

  -- One round of `runHealthChecks`: `check` tells which clients answer without an error.
  unfoldable pub revive :
      (Client → Bool) → String → ProviderConfig Client → MultiClient Client → MultiClient Client
  unfolding passes
  revive check name p mc =
      if p.enabled || not (passes check p.client)
      then mc
      else rebuild_defaults (record mc {
        providers = insert name (record p { enabled = true }) mc.providers;
        failure_counts = insert p.name 0 mc.failure_counts;
      })

  unfoldable pub revive_all :
      (Client → Bool)
      → List (String × ProviderConfig Client)
      → MultiClient Client
      → MultiClient Client
  unfolding revive
  revive_all check [] mc = mc
  revive_all check ((name, p) ∷ rest) mc = revive_all check rest (revive check name p mc)

  unfoldable pub run_health_checks : (Client → Bool) → MultiClient Client → MultiClient Client
  unfolding revive_all
  run_health_checks check mc = revive_all check mc.providers mc

  -- The names of the providers whose check fails; `HealthCheck` returns nil if there is none.
  unfoldable pub health_check :
      (Client → Bool) → List (String × ProviderConfig Client) → List String
  health_check check [] = []
  health_check check ((_, p) ∷ rest) =
      let later = health_check check rest in
      elim p.client [ none ↦ later | some client ↦ if check client then later else p.name ∷ later ]

  unfoldable pub resolve_provider : String → MultiClient Client → String
  resolve_provider model mc = elim (lookup model mc.model_map) [ none ↦ "" | some name ↦ name ]
