-- ===== src/RateLimit/History.antt =====
-- `Limiter.Allow` of internal/platform/ratelimit/ratelimiter.go beside a limiter that remembers
-- every request.
use go_saas_api.Common.{
  ℕ, ◌≤◌, ◌<◌, ◌≡◌, inl, inr, refl, ap, ◌∙◌, sym, Bool, true, Option, none, some, List, [], ◌∷◌,
  ◌++◌, arith, length, All,
}
use go_saas_api.Common.Int.{ℤ, pos, lt_int}
use go_saas_api.RateLimit.{Redis, Key, Result, window_start, prune, allow}
use go_saas_api.RateLimit.Window.{
  recent, above, Documented, recent-append, recent-above, length-above, recent-old, IsUpTo,
  above-UpTo, UpTo-append, above-fresh,
}

-- Requests in the order in which they come, behind `last`: the seconds do not fall, and the
-- nanoseconds rise.
abbrev pub Ordered : ℕ × ℕ → List (ℕ × ℕ) → Type 0
Ordered last [] = Unit
Ordered last (m ∷ ms) = (last.0 ≤ m.0) × (last.1 < m.1) × Ordered m ms

-- The limiter that remembers every request: it allows one if less than `limit` came in the window.
unfoldable pub reference : (limit : ℤ) (window : ℕ) → (history requests : List (ℕ × ℕ)) → List Bool
reference limit window history [] = []
reference limit window history (m ∷ ms) =
    lt_int (pos (recent window m.0 history)) limit ∷ reference limit window (history ++ m ∷ []) ms

abbrev pub is_allowed : Option Result → Bool
is_allowed none = true
is_allowed (some r) = r.allowed

module _ (redis : Redis) (key : Key) (limit : ℤ) (window : ℕ) where
  -- The requests on one key, one after the other, with no failure of Redis.
  unfoldable pub serve : List (ℕ × ℕ) → redis.State → List Bool
  serve [] s = []
  serve (m ∷ ms) s =
      let (result, s') = allow redis key limit window m.0 m.1 none s in
      is_allowed result ∷ serve ms s'

  module _ (doc : Documented redis key) where
    -- The state counts like the history, at any time from the last request on.
    record Follows (s : redis.State) (history : List (ℕ × ℕ)) (last : ℕ × ℕ) : Type 0 where
      counts :
          (later : ℕ)
          → last.0 ≤ later
          → recent window later (doc.entries s) ≡ recent window later history
      bounded : All (IsUpTo last) (doc.entries s)
      outlived : (later : ℕ) → doc.deadline s ≤ later → recent window later (doc.entries s) ≡ 0

    -- What has expired was out of the window.
    at_time-Follows :
        (s : redis.State) (history : List (ℕ × ℕ)) (last : ℕ × ℕ) (now later : ℕ)
        → Follows s history last
        → last.0 ≤ now
        → now ≤ later
        → (recent window later (doc.entries (redis.at now s)) ≡ recent window later history)
          × All (IsUpTo last) (doc.entries (redis.at now s))
    at_time-Follows s history last now later f le le' = elim (doc.at_time now s) [
      | inl e ↦ rw e (f.counts later (omega arith), f.bounded)
      | inr (e, gone) ↦ rw e (
          unfold recent in
          (sym (f.outlived later (omega (arith, gone))) ∙ f.counts later (omega arith), tt))
    ]

    module _ (s : redis.State) (history : List (ℕ × ℕ)) (last m : ℕ × ℕ)
        (f : Follows s history last) (le : last.0 ≤ m.0) (lt : last.1 < m.1) where
      abbrev seen : redis.State
      seen = redis.at m.0 s

      abbrev pruned : redis.State
      pruned = prune redis key window m.0 s

      entries-pruned : doc.entries pruned ≡ above (window_start m.0 window) (doc.entries seen)
      unfolding prune
      entries-pruned = doc.removed (window_start m.0 window) seen

      zcard-pruned : redis.zcard key pruned ≡ recent window m.0 history
      zcard-pruned =
          doc.counted pruned
          ∙ ap length entries-pruned
          ∙ length-above window m.0 (doc.entries seen)
          ∙ (at_time-Follows s history last m.0 m.0 f le (omega arith)).0

      abbrev noted : redis.State
      noted = redis.expire key m.0 window (redis.zadd key m.0 m pruned)

      entries-noted :
          doc.entries noted ≡ above (window_start m.0 window) (doc.entries seen) ++ m ∷ []
      entries-noted =
          let known = (at_time-Follows s history last m.0 m.0 f le (omega arith)).1 in
          doc.kept m.0 window (redis.zadd key m.0 m pruned)
          ∙ doc.added m pruned (λ has.
            above-fresh (window_start m.0 window) last m (doc.entries seen) known lt
              (rw entries-pruned at has))
          ∙ ap (λ (ms : List (ℕ × ℕ)). ms ++ m ∷ []) entries-pruned

      noted-Follows : Follows noted (history ++ m ∷ []) m
      noted-Follows =
          let known = (at_time-Follows s history last m.0 m.0 f le (omega arith)).1 in
          let left = above (window_start m.0 window) (doc.entries seen) in
          let bound : All (IsUpTo m) (left ++ m ∷ []) =
            UpTo-append m m left
              (above-UpTo (window_start m.0 window) last m (doc.entries seen) le (omega arith)
                known)
              (omega arith, omega arith) in
          record {
            counts = λ later after.
                rw
                  (
                    entries-noted,
                    recent-append window later left m,
                    recent-append window later history m,
                    recent-above window m.0 later (doc.entries seen) after,
                    (at_time-Follows s history last m.0 later f le after).0,
                  )
                  refl;
            bounded = rw entries-noted bound;
            outlived = λ later dead. rw entries-noted (
                recent-old window later m (left ++ m ∷ []) bound
                  (omega (arith, doc.expires m.0 window (redis.zadd key m.0 m pruned), dead)));
          }

    serve-Follows :
        (ms : List (ℕ × ℕ)) (s : redis.State) (history : List (ℕ × ℕ)) (last : ℕ × ℕ)
        → Follows s history last
        → Ordered last ms
        → serve ms s ≡ reference limit window history ms
    unfolding serve reference allow
    serve-Follows [] s history last f o = refl
    serve-Follows (m ∷ ms) s history last f (le, lt, o) =
        rw
          (
            zcard-pruned s history last m f le lt,
            serve-Follows ms (noted s history last m f le lt) (history ++ m ∷ []) m
                (noted-Follows s history last m f le lt) o,
          )
          refl

    -- Where Redis does what its commands document and does not fail, and from a state without
    -- entries for the key: the limiter, which forgets what is out of the window, lets what has
    -- expired go and counts denied requests too, allows and denies a sequence of requests exactly
    -- as the one that remembers every request.
    pub serve-reference :
        (s : redis.State) (ms : List (ℕ × ℕ))
        → doc.entries s ≡ []
        → Ordered (0, 0) ms
        → serve ms s ≡ reference limit window [] ms
    serve-reference s ms empty o =
        serve-Follows ms s [] (0, 0)
          (record {
            counts = λ later le. rw empty refl;
            bounded = rw empty tt;
            outlived = λ later le. rw empty (unfold recent in refl);
          })
          o
