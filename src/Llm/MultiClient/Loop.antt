-- ===== src/Llm/MultiClient/Loop.antt =====
-- The three ways of one round of the loop over the providers.
use go_saas_api.Common.{◌≡◌, ◌⊎◌, inl, inr, String, Option, none, some, List, ◌∷◌, refl, string_eq}
use go_saas_api.Common.Assoc.{lookup}
use go_saas_api.Llm.MultiClient.{
  MultiClient, Answer, Outcome, usable, try_names, record_failure, reset_failures, note_fallback,
}

module _ {Client A : Type 0} (call : Client → Answer A) (model : String) where
  pub try_names-skip :
      (name : String) (names : List String) (last : Option (String × String))
      (mc : MultiClient Client)
      → usable name mc ≡ none
      → try_names call model (name ∷ names) last mc ≡ try_names call model names last mc
  unfolding try_names
  try_names-skip name names last mc e = rw (e, try_names)

  pub try_names-fail :
      (name : String) (names : List String) (last : Option (String × String))
      (mc : MultiClient Client) (client : Client) (cause : String)
      → usable name mc ≡ some client
      → call client ≡ Answer.err cause
      → try_names call model (name ∷ names) last mc
        ≡ try_names call model names (some (name, cause)) (record_failure name mc)
  unfolding try_names
  try_names-fail name names last mc client cause e f = rw (e, f, try_names)

  pub try_names-done :
      (name : String) (names : List String) (last : Option (String × String))
      (mc : MultiClient Client) (client : Client) (a : A)
      → usable name mc ≡ some client
      → call client ≡ Answer.ok a
      → try_names call model (name ∷ names) last mc
        ≡ (Outcome.ok a, note_fallback (lookup model mc.model_map) name (reset_failures name mc))
  unfolding try_names
  try_names-done name names last mc client a e f = rw (e, f, try_names)

pub Answer-cases :
    {A : Type 0} (x : Answer A)
    → ((a : A) × (x ≡ Answer.ok a)) ⊎ ((c : String) × (x ≡ Answer.err c))
Answer-cases (Answer.ok a) = inl (a, refl)
Answer-cases (Answer.err c) = inr (c, refl)
