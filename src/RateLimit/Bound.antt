-- ===== src/RateLimit/Bound.antt =====
-- How many requests `Limiter.Allow` (internal/platform/ratelimit/ratelimiter.go) lets through in a
-- window.
use mathlib.Core.List.{append-nil, append_assoc}
use go_saas_api.Common.{
  ℕ, ◌+◌, ◌≤◌, ◌≡◌, refl, Bool, true, ◌&&◌, List, [], ◌∷◌, ◌++◌, arith, ltb, leb, if◌then◌else◌,
  Bool-cases, inl, inr,
}
use go_saas_api.Common.Int.{ℤ, pos, lt_int, pos_part}
use go_saas_api.RateLimit.{Redis, Key}
use go_saas_api.RateLimit.Window.{recent, recent-append, Documented}
use go_saas_api.RateLimit.History.{Ordered, reference, serve, serve-reference}

-- The requests of the window that ends at `now`.
unfoldable pub within : (window now : ℕ) → List (ℕ × ℕ) → ℕ
within window now [] = 0
within window now (m ∷ ms) =
    within window now ms + (if leb m.0 now && ltb now (m.0 + window) then 1 else 0)

-- The requests that were allowed.
unfoldable pub accepted : List (ℕ × ℕ) → List Bool → List (ℕ × ℕ)
accepted [] answers = []
accepted (m ∷ ms) [] = []
accepted (m ∷ ms) (answer ∷ answers) =
    let rest = accepted ms answers in if answer then m ∷ rest else rest

within-append :
    (window now : ℕ) (ms : List (ℕ × ℕ)) (m : ℕ × ℕ)
    → within window now (ms ++ m ∷ [])
      ≡ within window now ms + (if leb m.0 now && ltb now (m.0 + window) then 1 else 0)
unfolding within
within-append window now [] m = refl
within-append window now (x ∷ ms) m = omega (arith, within-append window now ms m)

within-le : (window now : ℕ) (ms : List (ℕ × ℕ)) → within window now ms ≤ recent window now ms
unfolding within recent
within-le window now [] = omega arith
within-le window now (m ∷ ms) = ground (arith, within-le window now ms)

recent-later :
    (window now later : ℕ) (ms : List (ℕ × ℕ))
    → now ≤ later
    → recent window later ms ≤ recent window now ms
unfolding recent
recent-later window now later [] le = omega arith
recent-later window now later (m ∷ ms) le = ground (arith, recent-later window now later ms le)

module _ (limit : ℤ) (window : ℕ) where
  -- One request more: the window that ends at `t` still holds no more than the limit.
  within-step :
      (history passed : List (ℕ × ℕ)) (m : ℕ × ℕ) (t : ℕ)
      → recent window m.0 passed ≤ recent window m.0 history
      → within window t passed ≤ pos_part limit
      → lt_int (pos (recent window m.0 history)) limit ≡ true
      → within window t (passed ++ m ∷ []) ≤ pos_part limit
  within-step history passed m t le bound allowed =
      rw (within-append window t passed m) (elim (Bool-cases (leb m.0 t)) [
        | inl behind ↦
            let later = recent-later window m.0 t passed (ground (arith, behind)) in
            ground (arith, later, within-le window t passed, le, allowed)
        | inr ahead ↦ rw ahead (omega (arith, bound))
      ])

  within-reference :
      (ms history passed : List (ℕ × ℕ))
      → ((t : ℕ) → recent window t passed ≤ recent window t history)
      → ((t : ℕ) → within window t passed ≤ pos_part limit)
      → (t : ℕ)
      → within window t (passed ++ accepted ms (reference limit window history ms)) ≤ pos_part limit
  unfolding accepted reference
  within-reference [] history passed fewer bound t = rw (append-nil passed) (bound t)
  within-reference (m ∷ ms) history passed fewer bound t =
      elim (Bool-cases (lt_int (pos (recent window m.0 history)) limit)) [
        | inl allowed ↦
            rw
              (
                allowed,
                ← append_assoc passed (m ∷ [])
                    (accepted ms (reference limit window (history ++ m ∷ []) ms)),
              )
              (within-reference ms (history ++ m ∷ []) (passed ++ m ∷ [])
                (λ u.
                  rw (recent-append window u passed m, recent-append window u history m)
                    (omega (arith, fewer u)))
                (λ u. within-step history passed m u (fewer m.0) (bound u) allowed) t)
        | inr turned_away ↦ rw turned_away (
            within-reference ms (history ++ m ∷ []) passed
              (λ u. rw (recent-append window u history m) (omega (arith, fewer u))) bound t)
      ]

  -- Where Redis does what its commands document and does not fail, and from a state without
  -- entries for the key: of the requests that the limiter allows, no window of its length, wherever
  -- it ends, holds more than the limit, nor any if the limit is negative.
  pub serve-le :
      (redis : Redis) (key : Key) (doc : Documented redis key) (s : redis.State) (ms : List (ℕ × ℕ))
      (t : ℕ)
      → doc.entries s ≡ []
      → Ordered (0, 0) ms
      → within window t (accepted ms (serve redis key limit window ms s)) ≤ pos_part limit
  serve-le redis key doc s ms t empty ordered =
      rw (serve-reference redis key limit window doc s ms empty ordered) (
        within-reference ms [] [] (λ u. unfold recent in omega arith)
          (λ u. unfold within in omega arith) t)
