-- ===== src/Llm/MultiClient/Order.antt =====
-- The fallback order: the enabled providers by falling weight.
use mathlib.Core.List.{Perm}
use mathlib.Core.List.Perm
use go_saas_api.Common.{
  ◌≡◌, refl, Bool, true, false, List, [], ◌∷◌, map, String, Option, none, some, arith, not, ◌||◌,
  length, Bool-cases, Option-cases, inl, inr, ◌∙◌, ◌+◌, leb, ◌==◌, string_eq,
}
use go_saas_api.Common.Assoc.{lookup, insert}
use go_saas_api.Llm.MultiClient.Sort.{Sorted, sort_from-perm, sort_from-Sorted}
use go_saas_api.Llm.MultiClient.Loop.{try_names-skip, try_names-fail, try_names-done, Answer-cases}
use go_saas_api.Llm.MultiClient.{
  ProviderConfig, MultiClient, Weighted, sort_from, enabled_of, rebuild_defaults, register, disable,
  record_failure, reset_failures, note_fallback, try_names, stream, revive, revive_all, Answer,
  names_for, usable, new_multi_client, get_count, passes, attempt, map_models,
}

module _ {Client : Type 0} where
  -- `defaults` are the names of the enabled providers, each once, by falling weight.
  pub record IsOrdered (mc : MultiClient Client) : Type 0 where
    pub entries : List Weighted
    pub names : mc.defaults ≡ map (λ x. x.name) entries
    pub complete : Perm entries (enabled_of mc.providers)
    pub sorted : Sorted entries

  rebuild_defaults-IsOrdered : (mc : MultiClient Client) → IsOrdered (rebuild_defaults mc)
  unfolding rebuild_defaults
  rebuild_defaults-IsOrdered mc =
      let w = enabled_of mc.providers in
      record {
        entries = sort_from (length w) w;
        names = refl;
        complete = sort_from-perm (length w) w;
        sorted = sort_from-Sorted (length w) w (omega arith);
      }

  pub IsOrdered-new : IsOrdered (new_multi_client {Client = Client})
  unfolding enabled_of
  IsOrdered-new = record { entries = []; names = refl; complete = Perm.refl []; sorted = tt }

  pub register-IsOrdered :
      (cfg : ProviderConfig Client) (mc : MultiClient Client) → IsOrdered (register cfg mc)
  unfolding register
  register-IsOrdered cfg mc = rebuild_defaults-IsOrdered (record mc {
    providers = insert cfg.name cfg mc.providers;
    model_map = map_models cfg.models cfg.name mc.model_map;
  })

  -- The fields that the invariant reads may be all that two states share.
  IsOrdered-transport :
      (mc mc' : MultiClient Client)
      → mc'.providers ≡ mc.providers
      → mc'.defaults ≡ mc.defaults
      → IsOrdered mc
      → IsOrdered mc'
  IsOrdered-transport mc mc' p d h = record {
    entries = h.entries;
    names = d ∙ h.names;
    complete = rw p h.complete;
    sorted = h.sorted;
  }

  disable-IsOrdered :
      (name : String) (o : Option (ProviderConfig Client)) (mc : MultiClient Client)
      → IsOrdered mc
      → IsOrdered (disable name o mc)
  unfolding disable
  disable-IsOrdered name none mc h = h
  disable-IsOrdered name (some p) mc h =
      rebuild_defaults-IsOrdered
        (record mc { providers = insert name (record p { enabled = false }) mc.providers })

  record_failure-IsOrdered :
      (name : String) (mc : MultiClient Client) → IsOrdered mc → IsOrdered (record_failure name mc)
  unfolding record_failure
  record_failure-IsOrdered name mc h =
      let counted = insert name (get_count name mc.failure_counts + 1) mc.failure_counts in
      let mc' = record mc { failure_counts = counted } in
      let h' = IsOrdered-transport mc mc' refl refl h in
      elim (Bool-cases (leb 3 (get_count name mc.failure_counts + 1))) [
        | inl open_now ↦ rw open_now (disable-IsOrdered name (lookup name mc.providers) mc' h')
        | inr closed ↦ rw closed h'
      ]

  note_fallback-IsOrdered :
      (o : Option String) (used : String) (mc : MultiClient Client)
      → IsOrdered mc
      → IsOrdered (note_fallback o used mc)
  unfolding note_fallback
  note_fallback-IsOrdered none used mc h = h
  note_fallback-IsOrdered (some preferred) used mc h = elim (Bool-cases (used == preferred)) [
    | inl e ↦ rw e h
    | inr e ↦ rw e (IsOrdered-transport mc _ refl refl h)
  ]

  module _ {A : Type 0} (call : Client → Answer A) (model : String) where
    try_names-IsOrdered :
        (names : List String) (last : Option (String × String)) (mc : MultiClient Client)
        → IsOrdered mc
        → IsOrdered (try_names call model names last mc).1
    try_names-IsOrdered [] last mc h = unfold try_names in h
    try_names-IsOrdered (name ∷ names) last mc h = elim (Option-cases (usable name mc)) [
      | inl e ↦
          rw (try_names-skip call model name names last mc e) (try_names-IsOrdered names last mc h)
      | inr (client, e) ↦ elim (Answer-cases (call client)) [
        | inl (a, f) ↦ rw (try_names-done call model name names last mc client a e f) (
            note_fallback-IsOrdered (lookup model mc.model_map) name (reset_failures name mc) (
              unfold reset_failures in IsOrdered-transport mc (reset_failures name mc) refl refl h))
        | inr (cause, f) ↦ rw (try_names-fail call model name names last mc client cause e f) (
            try_names-IsOrdered names (some (name, cause)) (record_failure name mc)
              (record_failure-IsOrdered name mc h))
      ]
    ]

    pub attempt-IsOrdered :
        (names : List String) (mc : MultiClient Client)
        → IsOrdered mc
        → IsOrdered (attempt call model names mc).1
    unfolding attempt
    attempt-IsOrdered [] mc h = h
    attempt-IsOrdered (name ∷ names) mc h = try_names-IsOrdered (name ∷ names) none mc h

    pub stream-IsOrdered :
        (mc : MultiClient Client) → IsOrdered mc → IsOrdered (stream call model mc).1
    unfolding stream
    stream-IsOrdered mc h = attempt-IsOrdered (names_for (lookup model mc.model_map) model mc) mc h

  revive-IsOrdered :
      (check : Client → Bool) (name : String) (p : ProviderConfig Client) (mc : MultiClient Client)
      → IsOrdered mc
      → IsOrdered (revive check name p mc)
  unfolding revive
  revive-IsOrdered check name p mc h =
      elim (Bool-cases (p.enabled || not (passes check p.client))) [
        | inl stays ↦ rw stays h
        | inr back ↦ rw back (
            rebuild_defaults-IsOrdered (record mc {
              providers = insert name (record p { enabled = true }) mc.providers;
              failure_counts = insert p.name 0 mc.failure_counts;
            }))
      ]

  pub revive_all-IsOrdered :
      (check : Client → Bool) (ps : List (String × ProviderConfig Client)) (mc : MultiClient Client)
      → IsOrdered mc
      → IsOrdered (revive_all check ps mc)
  unfolding revive_all
  revive_all-IsOrdered check [] mc h = h
  revive_all-IsOrdered check ((name, p) ∷ ps) mc h =
      revive_all-IsOrdered check ps (revive check name p mc) (revive-IsOrdered check name p mc h)
