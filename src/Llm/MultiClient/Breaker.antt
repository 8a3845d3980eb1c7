-- ===== src/Llm/MultiClient/Breaker.antt =====
-- The circuit breaker: consecutive failures disable a provider, a success starts the count anew.
use go_saas_api.Common.{
  ℕ, zero, suc, ◌+◌, ◌≤◌, ◌<◌, ◌≡◌, refl, ◌∙◌, false, Option, none, some, List, [], String, arith,
  leb, if◌then◌else◌, Bool-cases, inl, inr, string_eq, ap, beq_refl,
}
use go_saas_api.Common.Assoc.{lookup, insert, lookup-insert_self}
use go_saas_api.Llm.MultiClient.Loop.{Answer-cases, try_names-skip, try_names-fail, try_names-done}
use go_saas_api.Llm.MultiClient.Routing.{record_failure-SameElsewhere}
use go_saas_api.Llm.MultiClient.{
  ProviderConfig, MultiClient, Answer, Outcome, usable, client_of, try_names, attempt, stream,
  names_for, record_failure, reset_failures, note_fallback, disable, rebuild_defaults, get_count,
  give_up, no_available_providers, circuit_breaker_threshold,
}

get_count-insert :
    (name : String) (n : ℕ) (counts : List (String × ℕ)) → get_count name (insert name n counts) ≡ n
get_count-insert name n counts = rw (lookup-insert_self name n counts, get_count)

module _ {Client : Type 0} where
  failure_counts-disable :
      (name : String) (o : Option (ProviderConfig Client)) (mc : MultiClient Client)
      → (disable name o mc).failure_counts ≡ mc.failure_counts
  unfolding disable rebuild_defaults
  failure_counts-disable name none mc = refl
  failure_counts-disable name (some p) mc = refl

  record_failure-count :
      (name : String) (mc : MultiClient Client)
      → get_count name (record_failure name mc).failure_counts
        ≡ get_count name mc.failure_counts + 1
  unfolding record_failure
  record_failure-count name mc =
      let count = get_count name mc.failure_counts + 1 in
      let mc' = record mc { failure_counts = insert name count mc.failure_counts } in
      let kept = failure_counts-disable name (lookup name mc.providers) mc' in
      elim (Bool-cases (leb circuit_breaker_threshold count)) [
        | inl open_now ↦ rw (open_now, kept, get_count-insert name count mc.failure_counts)
        | inr closed ↦ rw (closed, get_count-insert name count mc.failure_counts)
      ]

  client_of-enabled :
      (o : Option (ProviderConfig Client)) (client : Client)
      → client_of o ≡ some client
      → (p : ProviderConfig Client) × (o ≡ some p)
  unfolding client_of
  client_of-enabled none client h = cc
  client_of-enabled (some p) client h = (p, refl)

  -- A failure disables the provider exactly where its count reaches the threshold.
  usable-record_failure_self :
      (name : String) (mc : MultiClient Client) (client : Client)
      → usable name mc ≡ some client
      → usable name (record_failure name mc) ≡ (
          if leb circuit_breaker_threshold (get_count name mc.failure_counts + 1)
          then none
          else some client)
  unfolding usable record_failure
  usable-record_failure_self name mc client h =
      let count = get_count name mc.failure_counts + 1 in
      let mc' = record mc { failure_counts = insert name count mc.failure_counts } in
      elim (Bool-cases (leb circuit_breaker_threshold count)) [
        | inl open_now ↦
            let (p, found) = client_of-enabled (lookup name mc.providers) client h in
            rw (open_now, found)
              (unfold disable rebuild_defaults in
                rw (lookup-insert_self name (record p { enabled = false }) mc.providers)
                  (unfold client_of in refl))
        | inr closed ↦ rw closed h
      ]

module _ {Client A : Type 0} (call : Client → Answer A) (model owner : String) where
  stream-fail :
      (mc : MultiClient Client) (client : Client) (cause : String)
      → lookup model mc.model_map ≡ some owner
      → usable owner mc ≡ some client
      → call client ≡ Answer.err cause
      → (stream call model mc).1 ≡ record_failure owner mc
  unfolding stream
  stream-fail mc client cause h u f = rw h (
      unfold names_for attempt in
      rw (try_names-fail call model owner [] none mc client cause u f) (unfold try_names in refl))

  stream-unusable :
      (mc : MultiClient Client)
      → lookup model mc.model_map ≡ some owner
      → usable owner mc ≡ none
      → stream call model mc ≡ (Outcome.err (no_available_providers model), mc)
  unfolding stream
  stream-unusable mc h u = rw h (
      unfold names_for attempt in
      rw (try_names-skip call model owner [] none mc u) (unfold try_names give_up in refl))

  -- `n` requests in a row for the model.
  unfoldable pub serve_times : ℕ → MultiClient Client → MultiClient Client
  serve_times zero mc = mc
  serve_times (suc n) mc = serve_times n (stream call model mc).1

  serve_times-unusable :
      (n : ℕ) (mc : MultiClient Client)
      → lookup model mc.model_map ≡ some owner
      → usable owner mc ≡ none
      → serve_times n mc ≡ mc
  unfolding serve_times
  serve_times-unusable zero mc h u = refl
  serve_times-unusable (suc n) mc h u = rw (stream-unusable mc h u) (serve_times-unusable n mc h u)

  serve_times-failing :
      (n k : ℕ) (mc : MultiClient Client) (client : Client) (cause : String)
      → lookup model mc.model_map ≡ some owner
      → usable owner mc ≡ some client
      → call client ≡ Answer.err cause
      → get_count owner mc.failure_counts ≡ k
      → k < circuit_breaker_threshold
      → usable owner (serve_times n mc)
        ≡ (if leb circuit_breaker_threshold (k + n) then none else some client)
  unfolding serve_times
  serve_times-failing zero k mc client cause h u f c lt = u ∙ ground arith
  serve_times-failing (suc n) k mc client cause h u f c lt =
      let after = usable-record_failure_self owner mc client u in
      let owned : lookup model (record_failure owner mc).model_map ≡ some owner =
        rw ((record_failure-SameElsewhere owner mc).models) h in
      let counted : get_count owner (record_failure owner mc).failure_counts ≡ k + 1 =
        record_failure-count owner mc ∙ ap (λ (m : ℕ). m + 1) c in
      elim (Bool-cases (leb circuit_breaker_threshold (get_count owner mc.failure_counts + 1))) [
        | inl trips ↦
            let off : usable owner (record_failure owner mc) ≡ none = rw trips at after in
            rw
              (
                stream-fail mc client cause h u f,
                serve_times-unusable n (record_failure owner mc) owned off,
                off,
              )
              (let reached : 3 ≤ k + 1 = ground arith in ground arith)
        | inr holds ↦
            let on : usable owner (record_failure owner mc) ≡ some client = rw holds at after in
            rw (stream-fail mc client cause h u f) (
              serve_times-failing n (k + 1) (record_failure owner mc) client cause owned on f
                counted (ground arith)
              ∙ ap (λ (m : ℕ). if leb circuit_breaker_threshold m then none else some client)
                  (omega arith))
      ]

  -- Of a model whose provider is enabled with no failure counted, and whose client fails each
  -- time: after `n` requests in a row the provider is still used if `n` is below the threshold of
  -- 3, and disabled otherwise.
  pub serve_times_trips :
      (n : ℕ) (mc : MultiClient Client) (client : Client) (cause : String)
      → lookup model mc.model_map ≡ some owner
      → usable owner mc ≡ some client
      → call client ≡ Answer.err cause
      → get_count owner mc.failure_counts ≡ 0
      → usable owner (serve_times n mc)
        ≡ (if leb circuit_breaker_threshold n then none else some client)
  serve_times_trips n mc client cause h u f c =
      serve_times-failing n 0 mc client cause h u f c (omega arith)
      ∙ ap (λ (m : ℕ). if leb circuit_breaker_threshold m then none else some client) (omega arith)

  -- A request for a registered model, whose provider is usable, sets the provider's count of
  -- failures to 0 if its client answers and raises it by one if the client fails.
  stream-count :
      (mc : MultiClient Client) (client : Client)
      → lookup model mc.model_map ≡ some owner
      → usable owner mc ≡ some client
      → get_count owner (stream call model mc).1.failure_counts ≡ elim (call client) [
        | Answer.ok a ↦ 0
        | Answer.err cause ↦ get_count owner mc.failure_counts + 1
      ]
  stream-count mc client h u = elim (Answer-cases (call client)) [
    | inl (a, f) ↦ rw f (
        unfold stream in
        rw h (
          unfold names_for attempt in
          rw (try_names-done call model owner [] none mc client a u f, h)
            (unfold note_fallback reset_failures in
              rw (beq_refl owner) (get_count-insert owner 0 mc.failure_counts))))
    | inr (cause, f) ↦ rw (f, stream-fail mc client cause h u f) (record_failure-count owner mc)
  ]
