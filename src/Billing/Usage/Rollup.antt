-- ===== src/Billing/Usage/Rollup.antt =====
-- The counts of the daily rollup and of the log of requests, under the statements of
-- internal/billing/repository_pg.go.
use go_saas_api.Common.{
  ℕ, ◌+◌, ◌≤◌, ◌≡◌, refl, true, false, ◌&&◌, List, [], ◌∷◌, ◌++◌, arith, ◌==◌, nat_eq,
  if◌then◌else◌, any_by, map, Bool-cases, inl, inr,
}
use go_saas_api.Billing.Usage.{
  Money, UsageLog, DailyUsage, day_of, is_row, bump, upsert, sum_rows, add_row,
}

module _ {money : Money} where
  open money use {Amount}

  -- The requests that the rollup counts for a user on a day, over all rows.
  unfoldable pub rolled : (user date : ℕ) → List (DailyUsage money) → ℕ
  rolled user date [] = 0
  rolled user date (row ∷ rows) =
      rolled user date rows + (if is_row user date row then row.requests else 0)

  -- The rows of a user on a day.
  unfoldable pub rows_of : (user date : ℕ) → List (DailyUsage money) → ℕ
  rows_of user date [] = 0
  rows_of user date (row ∷ rows) = rows_of user date rows + (if is_row user date row then 1 else 0)

  -- The requests that the log holds for a user on a day.
  unfoldable pub logged : (user date : ℕ) → List (UsageLog money) → ℕ
  logged user date [] = 0
  logged user date (log ∷ logs) =
      logged user date logs
      + (if log.user_id == user && day_of log.created_at == date then 1 else 0)

  pub logged-append :
      (user date : ℕ) (xs : List (UsageLog money)) (log : UsageLog money)
      → logged user date (xs ++ log ∷ [])
        ≡ logged user date xs
          + (if log.user_id == user && day_of log.created_at == date then 1 else 0)
  unfolding logged
  logged-append user date [] log = refl
  logged-append user date (x ∷ xs) log = omega (arith, logged-append user date xs log)

  rolled-append :
      (user date : ℕ) (xs : List (DailyUsage money)) (row : DailyUsage money)
      → rolled user date (xs ++ row ∷ [])
        ≡ rolled user date xs + (if is_row user date row then row.requests else 0)
  unfolding rolled
  rolled-append user date [] row = refl
  rolled-append user date (x ∷ xs) row = omega (arith, rolled-append user date xs row)

  rows_of-append :
      (user date : ℕ) (xs : List (DailyUsage money)) (row : DailyUsage money)
      → rows_of user date (xs ++ row ∷ [])
        ≡ rows_of user date xs + (if is_row user date row then 1 else 0)
  unfolding rows_of
  rows_of-append user date [] row = refl
  rows_of-append user date (x ∷ xs) row = omega (arith, rows_of-append user date xs row)

  module _ (owner day tokens_in tokens_out : ℕ) (cost : Amount) where
    abbrev bumped : List (DailyUsage money) → List (DailyUsage money)
    bumped = map (bump owner day tokens_in tokens_out cost)

    rows_of-bump :
        (user date : ℕ) (rows : List (DailyUsage money))
        → rows_of user date (bumped rows) ≡ rows_of user date rows
    unfolding rows_of bump is_row
    rows_of-bump user date [] = refl
    rows_of-bump user date (row ∷ rows) = ground (arith, rows_of-bump user date rows)

    rolled-bump :
        (user date : ℕ) (rows : List (DailyUsage money))
        → rolled user date (bumped rows)
          ≡ rolled user date rows
            + (if owner == user && day == date then rows_of owner day rows else 0)
    unfolding rolled rows_of bump is_row
    rolled-bump user date [] = ground arith
    rolled-bump user date (row ∷ rows) = ground (arith, rolled-bump user date rows)

  rows_of-any :
      (user date : ℕ) (rows : List (DailyUsage money))
      → any_by (is_row user date) rows ≡ true
      → 1 ≤ rows_of user date rows
  unfolding rows_of
  rows_of-any user date [] h = cc
  rows_of-any user date (row ∷ rows) h = ground (arith, rows_of-any user date rows)

  rows_of-none :
      (user date : ℕ) (rows : List (DailyUsage money))
      → any_by (is_row user date) rows ≡ false
      → rows_of user date rows ≡ 0
  unfolding rows_of
  rows_of-none user date [] h = refl
  rows_of-none user date (row ∷ rows) h = ground (arith, rows_of-none user date rows)

  -- One row at most for a user on a day: the primary key of the table.
  abbrev pub Keyed : List (DailyUsage money) → Type 0
  Keyed rows = (user date : ℕ) → rows_of user date rows ≤ 1

  module _ (owner day tokens_in tokens_out : ℕ) (cost : Amount) where
    pub upsert-Keyed :
        (rows : List (DailyUsage money))
        → Keyed rows
        → Keyed (upsert owner day tokens_in tokens_out cost rows)
    unfolding upsert
    upsert-Keyed rows h user date = elim (Bool-cases (any_by (is_row owner day) rows)) [
      | inl e ↦
          rw (e, rows_of-bump owner day tokens_in tokens_out cost user date rows) (h user date)
      | inr e ↦
          let row : DailyUsage money = record {
            user_id = owner;
            date = day;
            requests = 1;
            tokens_input = tokens_in;
            tokens_output = tokens_out;
            cost_usd = cost;
          } in
          rw (e, rows_of-append user date rows row)
            (unfold is_row in ground (arith, rows_of-none owner day rows e, h user date))
    ]

    pub rolled-upsert :
        (user date : ℕ) (rows : List (DailyUsage money))
        → Keyed rows
        → rolled user date (upsert owner day tokens_in tokens_out cost rows)
          ≡ rolled user date rows + (if owner == user && day == date then 1 else 0)
    unfolding upsert
    rolled-upsert user date rows h = elim (Bool-cases (any_by (is_row owner day) rows)) [
      | inl e ↦
          let one : rows_of owner day rows ≡ 1 =
            omega (arith, h owner day, rows_of-any owner day rows e) in
          rw (e, rolled-bump owner day tokens_in tokens_out cost user date rows, one) refl
      | inr e ↦
          let row : DailyUsage money = record {
            user_id = owner;
            date = day;
            requests = 1;
            tokens_input = tokens_in;
            tokens_output = tokens_out;
            cost_usd = cost;
          } in
          rw (e, rolled-append user date rows row) (unfold is_row in refl)
    ]

  pub sum_rows-rolled :
      (user date : ℕ) (rows : List (DailyUsage money))
      → (sum_rows user date date rows).total_requests ≡ rolled user date rows
  unfolding sum_rows rolled is_row add_row
  sum_rows-rolled user date [] = refl
  sum_rows-rolled user date (row ∷ rows) = ground (arith, sum_rows-rolled user date rows)
