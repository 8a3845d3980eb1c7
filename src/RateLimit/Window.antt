-- ===== src/RateLimit/Window.antt =====
-- The window of the limiter over a list of requests, and what Redis keeps of it.
use go_saas_api.Common.{
  ℕ, ◌+◌, ◌≤◌, ◌<◌, ◌≡◌, ◌⊎◌, inl, inr, refl, ap, List, [], ◌∷◌, ◌++◌, arith, length, All, Has,
  filter_by, ltb, if◌then◌else◌, Bool-cases,
}
use go_saas_api.Common.Int.{ℤ, pos, lt_int}
use go_saas_api.RateLimit.{Redis, Key, window_start}

-- The times of a list that are within the window before `now`: a request is its time in seconds,
-- with the nanoseconds that tell it from others.
unfoldable pub recent : (window now : ℕ) → List (ℕ × ℕ) → ℕ
recent window now [] = 0
recent window now (m ∷ ms) = recent window now ms + (if ltb now (m.0 + window) then 1 else 0)

-- The members whose score, their first part, is above `high`.
abbrev pub above : ℤ → List (ℕ × ℕ) → List (ℕ × ℕ)
above high = filter_by (λ m. lt_int high (pos m.0))

-- What Redis documents of the commands on one key, for members whose score is their first part:
-- `entries` are the members in the order in which they were added, `deadline` is the time at which
-- the key expires.
pub record Documented (redis : Redis) (key : Key) : Type 0 where
  pub entries : redis.State → List (ℕ × ℕ)
  pub deadline : redis.State → ℕ
  pub at_time :
      (now : ℕ) (s : redis.State)
      → (entries (redis.at now s) ≡ entries s)
        ⊎ ((entries (redis.at now s) ≡ []) × (deadline s ≤ now))
  pub removed :
      (high : ℤ) (s : redis.State)
      → entries (redis.zremrangebyscore key high s) ≡ above high (entries s)
  pub counted : (s : redis.State) → redis.zcard key s ≡ length (entries s)
  pub added :
      (m : ℕ × ℕ) (s : redis.State)
      → (Has m (entries s) → ⊥)
      → entries (redis.zadd key m.0 m s) ≡ entries s ++ m ∷ []
  pub kept :
      (now window : ℕ) (s : redis.State) → entries (redis.expire key now window s) ≡ entries s
  pub expires :
      (now window : ℕ) (s : redis.State) → deadline (redis.expire key now window s) ≡ now + window

pub recent-append :
    (window now : ℕ) (ms : List (ℕ × ℕ)) (m : ℕ × ℕ)
    → recent window now (ms ++ m ∷ [])
      ≡ recent window now ms + (if ltb now (m.0 + window) then 1 else 0)
unfolding recent
recent-append window now [] m = refl
recent-append window now (x ∷ ms) m = omega (arith, recent-append window now ms m)

-- What is left behind the pruning at `now` counts like the list, at any later time.
pub recent-above :
    (window now later : ℕ) (ms : List (ℕ × ℕ))
    → now ≤ later
    → recent window later (above (window_start now window) ms) ≡ recent window later ms
unfolding recent
recent-above window now later [] h = refl
recent-above window now later (m ∷ ms) h = ground (arith, recent-above window now later ms h)

pub length-above :
    (window now : ℕ) (ms : List (ℕ × ℕ))
    → length (above (window_start now window) ms) ≡ recent window now ms
unfolding recent
length-above window now [] = refl
length-above window now (m ∷ ms) = ground (arith, length-above window now ms)

-- Members up to a time and a number of nanoseconds.
abbrev pub IsUpTo : ℕ × ℕ → ℕ × ℕ → Type 0
IsUpTo last m = (m.0 ≤ last.0) × (m.1 ≤ last.1)

pub recent-old :
    (window now : ℕ) (last : ℕ × ℕ) (ms : List (ℕ × ℕ))
    → All (IsUpTo last) ms
    → last.0 + window ≤ now
    → recent window now ms ≡ 0
unfolding recent
recent-old window now last [] h le = refl
recent-old window now last (m ∷ ms) ((b, _), h) le =
    ground (arith, recent-old window now last ms h le)

pub above-UpTo :
    (high : ℤ) (last later : ℕ × ℕ) (ms : List (ℕ × ℕ))
    → last.0 ≤ later.0
    → last.1 ≤ later.1
    → All (IsUpTo last) ms
    → All (IsUpTo later) (above high ms)
above-UpTo high last later [] a b h = tt
above-UpTo high last later (m ∷ ms) a b ((p, q), h) = elim (Bool-cases (lt_int high (pos m.0))) [
  | inl e ↦ rw e ((omega arith, omega arith), above-UpTo high last later ms a b h)
  | inr e ↦ rw e (above-UpTo high last later ms a b h)
]

pub UpTo-append :
    (last m : ℕ × ℕ) (ms : List (ℕ × ℕ))
    → All (IsUpTo last) ms
    → IsUpTo last m
    → All (IsUpTo last) (ms ++ m ∷ [])
UpTo-append last m [] h p = (p, tt)
UpTo-append last m (x ∷ ms) (a, h) p = (a, UpTo-append last m ms h p)

pub above-fresh :
    (high : ℤ) (last m : ℕ × ℕ) (ms : List (ℕ × ℕ))
    → All (IsUpTo last) ms
    → last.1 < m.1
    → Has m (above high ms)
    → ⊥
above-fresh high last m [] h lt has = has
above-fresh high last m (x ∷ ms) ((_, q), h) lt has = elim (Bool-cases (lt_int high (pos x.0))) [
  | inl e ↦ elim (rw e at has) [
    | inl same ↦
        let nanos : m.1 ≡ x.1 = ap (λ (p : ℕ × ℕ). p.1) same in absurd (omega (arith, q, lt, nanos))
    | inr rest ↦ above-fresh high last m ms h lt rest
  ]
  | inr e ↦ above-fresh high last m ms h lt (rw e at has)
]
