-- ===== src/Flows/Registry/Best.antt =====
-- What `DetectAll` of internal/agent/flows/flow.go finds.
use go_saas_api.Common.{
  ℕ, ◌≤◌, ◌≡◌, refl, ap, inl, inr, Bool, true, false, Option, none, some, List, [], ◌∷◌, arith, ltb,
  Bool-cases, Has,
}
use go_saas_api.Common.Bytes.{Bytes}
use go_saas_api.Flows.Registry.{FlowKind, detect, better, detect_from, detect_all}

module _ (lower : Bytes) (history_len : ℕ) where
  abbrev pub Matches : FlowKind → ℕ → Type 0
  Matches f score = detect f lower history_len ≡ (true, score)

  -- A flow that was found is one of the flows, and matches with this score.
  abbrev pub IsFound : List FlowKind → Option FlowKind × ℕ → Type 0
  IsFound flows (none, score) = score ≡ 0
  IsFound flows (some f, score) = Has f flows × Matches f score

  better-le :
      (f : FlowKind) (found : Bool × ℕ) (best : Option FlowKind × ℕ)
      → (best.1 ≤ (better f found best).1) × (found.0 ≡ true → found.1 ≤ (better f found best).1)
  better-le f (true, score) (best, best_score) = ground arith
  better-le f (false, score) (best, best_score) = ground arith

  detect_from-le :
      (flows : List FlowKind) (best : Option FlowKind × ℕ)
      → (best.1 ≤ (detect_from flows lower history_len best).1)
        × ((f : FlowKind) (score : ℕ)
            → Has f flows
            → Matches f score
            → score ≤ (detect_from flows lower history_len best).1)
  unfolding detect_from
  detect_from-le [] best = (omega arith, λ f score none. absurd none)
  detect_from-le (f ∷ flows) best =
      let step = better-le f (detect f lower history_len) best in
      let rest = detect_from-le flows (better f (detect f lower history_len) best) in
      (
        omega arith,
        λ g score there matches.
            here_or_later f flows (better f (detect f lower history_len) best) g score step.1 rest
              there matches,
      )
    where
      here_or_later :
          (f : FlowKind) (flows : List FlowKind) (best' : Option FlowKind × ℕ) (g : FlowKind)
          (score : ℕ)
          → ((detect f lower history_len).0 ≡ true → (detect f lower history_len).1 ≤ best'.1)
          → ((best'.1 ≤ (detect_from flows lower history_len best').1)
              × ((h : FlowKind) (k : ℕ)
                  → Has h flows
                  → Matches h k
                  → k ≤ (detect_from flows lower history_len best').1))
          → Has g (f ∷ flows)
          → Matches g score
          → score ≤ (detect_from flows lower history_len best').1
      here_or_later f flows best' g score step rest (inl same) matches =
          let e : detect f lower history_len ≡ (true, score) = rw (← same) matches in
          let le : (detect f lower history_len).1 ≤ best'.1 = step (ap (λ (p : Bool × ℕ). p.0) e) in
          let k : (detect f lower history_len).1 ≡ score = ap (λ (p : Bool × ℕ). p.1) e in
          let up = rest.0 in omega arith
      here_or_later f flows best' g score step rest (inr later) matches =
          rest.1 g score later matches

  better-IsFound :
      (flows : List FlowKind) (f : FlowKind) (found : Bool × ℕ) (best : Option FlowKind × ℕ)
      → Has f flows
      → detect f lower history_len ≡ found
      → IsFound flows best
      → IsFound flows (better f found best)
  better-IsFound flows f (false, score) (best, best_score) there e h = h
  better-IsFound flows f (true, score) (best, best_score) there e h =
      elim (Bool-cases (ltb best_score score)) [
        | inl more ↦ rw more (there, e)
        | inr less ↦ rw less h
      ]

  detect_from-IsFound :
      (all flows : List FlowKind) (best : Option FlowKind × ℕ)
      → ((f : FlowKind) → Has f flows → Has f all)
      → IsFound all best
      → IsFound all (detect_from flows lower history_len best)
  unfolding detect_from
  detect_from-IsFound all [] best within h = h
  detect_from-IsFound all (f ∷ flows) best within h =
      detect_from-IsFound all flows (better f (detect f lower history_len) best)
        (λ g there. within g (inr there))
        (better-IsFound all f (detect f lower history_len) best (within f (inl refl)) refl h)

  -- The flow that is found is one of those registered and matches with the score that is given, and
  -- no flow that matches has a higher one, in whatever order they are asked; where none is found
  -- the score is 0.
  pub detect_all-best :
      (flows : List FlowKind)
      → IsFound flows (detect_all flows lower history_len)
        × ((f : FlowKind) (score : ℕ)
            → Has f flows
            → Matches f score
            → score ≤ (detect_all flows lower history_len).1)
  unfolding detect_all
  detect_all-best flows = (
    detect_from-IsFound flows flows (none, 0) (λ f there. there) refl,
    (detect_from-le flows (none, 0)).1,
  )
