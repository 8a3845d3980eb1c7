-- ===== src/Llm/MultiClient/Fallback.antt =====
-- A request that names no model falls back from one provider to the next.

use go_saas_api.Common.{
  ◌≡◌, ◌≢◌, refl, ◌∙◌, Option, none, some, List, [], ◌∷◌, String, Option-cases, inl, inr, Has,
  string_eq, ap,
}
use go_saas_api.Common.Assoc.{lookup}
use go_saas_api.Llm.MultiClient.Loop.{try_names-skip, try_names-fail, try_names-done, Answer-cases}
use go_saas_api.Llm.MultiClient.Routing.{record_failure-SameElsewhere}
use go_saas_api.Llm.MultiClient.{
  MultiClient, Answer, Outcome, usable, try_names, attempt, stream, names_for, record_failure,
}

module _ {Client A : Type 0} (call : Client → Answer A) where
  -- A failure of one provider leaves another as usable as it was.
  usable-record_failure :
      (name q : String) (mc : MultiClient Client)
      → q ≢ name
      → usable q (record_failure name mc) ≡ usable q mc
  unfolding usable
  usable-record_failure name q mc ne = rw ((record_failure-SameElsewhere name mc).providers q ne)

  try_names-succeeds :
      (model good : String) (names : List String) (last : Option (String × String))
      (mc : MultiClient Client) (client : Client) (a : A)
      → Has good names
      → usable good mc ≡ some client
      → call client ≡ Answer.ok a
      → (b : A) × ((try_names call model names last mc).0 ≡ Outcome.ok b)
  try_names-succeeds model good [] last mc client a m u c = absurd m
  try_names-succeeds model good (name ∷ names) last mc client a m u c =
      elim (Option-cases (usable name mc)) [
        | inl e ↦ elim m [
          | inl here ↦ cc (ap (λ (n : String). usable n mc) here)
          | inr later ↦
              rw (try_names-skip call model name names last mc e)
                (try_names-succeeds model good names last mc client a later u c)
        ]
        | inr (other, e) ↦ elim (Answer-cases (call other)) [
          | inl (b, f) ↦ rw (try_names-done call model name names last mc other b e f) (b, refl)
          | inr (cause, f) ↦
              let differ : good ≢ name = λ q. cc (ap (λ (n : String). usable n mc) q) in
              elim m [
                | inl here ↦ absurd (differ here)
                | inr later ↦ rw (try_names-fail call model name names last mc other cause e f) (
                    try_names-succeeds model good names (some (name, cause))
                      (record_failure name mc) client a later
                      (usable-record_failure name good mc differ ∙ u) c)
              ]
        ]
      ]

  attempt-succeeds :
      (model good : String) (names : List String) (mc : MultiClient Client) (client : Client)
      (a : A)
      → Has good names
      → usable good mc ≡ some client
      → call client ≡ Answer.ok a
      → (b : A) × ((attempt call model names mc).0 ≡ Outcome.ok b)
  unfolding attempt
  attempt-succeeds model good [] mc client a m u c = absurd m
  attempt-succeeds model good (name ∷ names) mc client a m u c =
      try_names-succeeds model good (name ∷ names) none mc client a m u c

  -- A request that names no model succeeds as soon as one provider in the fallback order is enabled
  -- and its client answers, whatever the providers before it do.
  pub stream_fallback :
      (good : String) (mc : MultiClient Client) (client : Client) (a : A)
      → lookup "" mc.model_map ≡ none
      → Has good mc.defaults
      → usable good mc ≡ some client
      → call client ≡ Answer.ok a
      → (b : A) × ((stream call "" mc).0 ≡ Outcome.ok b)
  unfolding stream names_for
  stream_fallback good mc client a n m u c =
      rw n (attempt-succeeds "" good mc.defaults mc client a m u c)
