-- ===== src/Llm/MultiClient/Routing.antt =====
-- Which providers a request reaches. That a request for a registered model is never passed on is what
-- the comment in `Stream` (pkg/llm/multiclient.go) wants; openspec/specs/agent-runtime/spec.md,
-- docs/ARCHITECTURE.md 5.2 and docs/ISSUES.md #13 want the next provider where the first fails.
use mathlib.Core.Option
use go_saas_api.Common.{
  ◌≡◌, ◌≢◌, refl, ◌∙◌, Option, none, some, List, [], ◌∷◌, String, Bool-cases, Option-cases, inl,
  inr, string_eq, beq_refl, leb, ◌+◌,
}
use go_saas_api.Common.Assoc.{lookup, insert, lookup-insert_ne}
use go_saas_api.Llm.MultiClient.Loop.{try_names-skip, try_names-fail, try_names-done, Answer-cases}
use go_saas_api.Llm.MultiClient.{
  ProviderConfig, MultiClient, Answer, Outcome, usable, try_names, attempt, stream, names_for,
  give_up, record_failure, reset_failures, note_fallback, disable, rebuild_defaults, get_count,
  all_providers_failed, no_available_providers, circuit_breaker_threshold,
}

module _ {Client : Type 0} where
  -- What a request may change: the counters and marks of one provider.
  pub record SameElsewhere (name : String) (mc mc' : MultiClient Client) : Type 0 where
    pub models : mc'.model_map ≡ mc.model_map
    pub counts : (q : String) → q ≢ name → lookup q mc'.failure_counts ≡ lookup q mc.failure_counts
    pub providers : (q : String) → q ≢ name → lookup q mc'.providers ≡ lookup q mc.providers

  SameElsewhere-refl : (name : String) (mc : MultiClient Client) → SameElsewhere name mc mc
  SameElsewhere-refl name mc = record {
    models = refl;
    counts = λ q h. refl;
    providers = λ q h. refl;
  }

  disable-SameElsewhere :
      (name : String) (o : Option (ProviderConfig Client)) (mc mc' : MultiClient Client)
      → SameElsewhere name mc mc'
      → mc'.providers ≡ mc.providers
      → SameElsewhere name mc (disable name o mc')
  unfolding disable rebuild_defaults
  disable-SameElsewhere name none mc mc' h e = h
  disable-SameElsewhere name (some p) mc mc' h e = record {
    models = h.models;
    counts = h.counts;
    providers = λ q ne. lookup-insert_ne name q _ mc'.providers ne ∙ h.providers q ne;
  }

  pub record_failure-SameElsewhere :
      (name : String) (mc : MultiClient Client) → SameElsewhere name mc (record_failure name mc)
  unfolding record_failure
  record_failure-SameElsewhere name mc =
      let count = get_count name mc.failure_counts + 1 in
      let mc' = record mc { failure_counts = insert name count mc.failure_counts } in
      let counted : SameElsewhere name mc mc' = record {
        models = refl;
        counts = λ q ne. lookup-insert_ne name q count mc.failure_counts ne;
        providers = λ q ne. refl;
      } in
      elim (Bool-cases (leb circuit_breaker_threshold count)) [
        | inl open_now ↦
            rw open_now (disable-SameElsewhere name (lookup name mc.providers) mc mc' counted refl)
        | inr closed ↦ rw closed counted
      ]

  reset_failures-SameElsewhere :
      (name : String) (mc : MultiClient Client) → SameElsewhere name mc (reset_failures name mc)
  unfolding reset_failures
  reset_failures-SameElsewhere name mc = record {
    models = refl;
    counts = λ q ne. lookup-insert_ne name q 0 mc.failure_counts ne;
    providers = λ q ne. refl;
  }

  fallback_count-disable :
      (name : String) (o : Option (ProviderConfig Client)) (mc : MultiClient Client)
      → (disable name o mc).fallback_count ≡ mc.fallback_count
  unfolding disable rebuild_defaults
  fallback_count-disable name none mc = refl
  fallback_count-disable name (some p) mc = refl

  fallback_count-record_failure :
      (name : String) (mc : MultiClient Client)
      → (record_failure name mc).fallback_count ≡ mc.fallback_count
  unfolding record_failure
  fallback_count-record_failure name mc =
      let count = get_count name mc.failure_counts + 1 in
      let mc' = record mc { failure_counts = insert name count mc.failure_counts } in
      elim (Bool-cases (leb circuit_breaker_threshold count)) [
        | inl open_now ↦ rw open_now (fallback_count-disable name (lookup name mc.providers) mc')
        | inr closed ↦ rw closed
      ]

  model_map-record_failure :
      (name : String) (mc : MultiClient Client) → (record_failure name mc).model_map ≡ mc.model_map
  model_map-record_failure name mc = (record_failure-SameElsewhere name mc).models

module _ {Client A : Type 0} (call : Client → Answer A) (model : String) where
  -- With no preferred provider a success counts no fallback.
  fallback_count-try_names :
      (names : List String) (last : Option (String × String)) (mc : MultiClient Client)
      → lookup model mc.model_map ≡ none
      → (try_names call model names last mc).1.fallback_count ≡ mc.fallback_count
  fallback_count-try_names [] last mc h = unfold try_names in refl
  fallback_count-try_names (name ∷ names) last mc h = elim (Option-cases (usable name mc)) [
    | inl e ↦
        rw (try_names-skip call model name names last mc e)
          (fallback_count-try_names names last mc h)
    | inr (client, e) ↦ elim (Answer-cases (call client)) [
      | inl (a, f) ↦
          rw (try_names-done call model name names last mc client a e f, h)
            (unfold note_fallback reset_failures in refl)
      | inr (cause, f) ↦ rw (try_names-fail call model name names last mc client cause e f) (
          fallback_count-try_names names (some (name, cause)) (record_failure name mc)
            (rw (model_map-record_failure name mc) h)
          ∙ fallback_count-record_failure name mc)
    ]
  ]

  -- What a request for a registered model answers, by what its provider's client answers.
  pub owner_answer : String → Option (Answer A) → Outcome A
  owner_answer owner none = Outcome.err (no_available_providers model)
  owner_answer owner (some (Answer.err cause)) = Outcome.err (all_providers_failed owner cause)
  owner_answer owner (some (Answer.ok a)) = Outcome.ok a

  pub record OwnerOnly (owner : String) (mc : MultiClient Client)
      (r : Outcome A × MultiClient Client) : Type 0 where
    pub answer : r.0 ≡ owner_answer owner (Option.map call (usable owner mc))
    pub elsewhere : SameElsewhere owner mc r.1
    pub no_fallback : r.1.fallback_count ≡ mc.fallback_count

  try_owner :
      (owner : String) (mc : MultiClient Client)
      → lookup model mc.model_map ≡ some owner
      → OwnerOnly owner mc (try_names call model (owner ∷ []) none mc)
  unfolding owner_answer
  try_owner owner mc h = elim (Option-cases (usable owner mc)) [
    | inl e ↦ rw (try_names-skip call model owner [] none mc e) (
        unfold try_names give_up in
        record { answer = rw e; elsewhere = SameElsewhere-refl owner mc; no_fallback = refl })
    | inr (client, e) ↦ elim (Answer-cases (call client)) [
      | inl (a, f) ↦
          rw (try_names-done call model owner [] none mc client a e f, h)
            (unfold note_fallback in
              rw (beq_refl owner) (record {
                answer = rw (e, f);
                elsewhere = reset_failures-SameElsewhere owner mc;
                no_fallback = unfold reset_failures in refl;
              }))
      | inr (cause, f) ↦ rw (try_names-fail call model owner [] none mc client cause e f) (
          unfold try_names give_up in
          record {
            answer = rw (e, f);
            elsewhere = record_failure-SameElsewhere owner mc;
            no_fallback = fallback_count-record_failure owner mc;
          })
    ]
  ]

  -- A request for a model that is registered goes to the provider that owns the model and to no
  -- other: its answer is that provider's, or an error where that provider is missing, disabled or
  -- fails; the failure count and the configuration of every other provider stay as they were, and
  -- no fallback is counted.
  pub stream-OwnerOnly :
      (owner : String) (mc : MultiClient Client)
      → lookup model mc.model_map ≡ some owner
      → OwnerOnly owner mc (stream call model mc)
  unfolding stream
  stream-OwnerOnly owner mc h = rw h (unfold names_for attempt in try_owner owner mc h)

  fallback_count-attempt :
      (names : List String) (mc : MultiClient Client)
      → lookup model mc.model_map ≡ none
      → (attempt call model names mc).1.fallback_count ≡ mc.fallback_count
  unfolding attempt
  fallback_count-attempt [] mc h = refl
  fallback_count-attempt (name ∷ names) mc h = fallback_count-try_names (name ∷ names) none mc h

  -- No request changes the count of fallbacks, whatever the model, the state and the answers.
  fallback_count-stream :
      (mc : MultiClient Client) → (stream call model mc).1.fallback_count ≡ mc.fallback_count
  fallback_count-stream mc = elim (Option-cases (lookup model mc.model_map)) [
    | inl none_owns ↦
        unfold stream in
        fallback_count-attempt (names_for (lookup model mc.model_map) model mc) mc none_owns
    | inr (owner, owned) ↦ (stream-OwnerOnly owner mc owned).no_fallback
  ]
