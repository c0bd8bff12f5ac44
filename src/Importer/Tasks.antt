-- ===== src/Importer/Tasks.antt =====
-- The months of `generateTasks` in internal/importer/importer.go.
use nyyu_market.Prelude.{
  ℕ, zero, suc, ◌+◌, ◌-◌, ◌*◌, ◌/◌, ◌%◌, ◌<◌, ◌≤◌, List, [], ◌∷◌, none, some, ◌≡◌, refl, arith, inl,
  inr, ◌⊎◌,
}
use nyyu_market.Prelude.Text.{Bytes}
use nyyu_market.Models.Interval.{Interval}
use nyyu_market.Importer.{MonthTask, generate_tasks, next_month}

-- The number of months from January of the year 0.
abbrev pub month_number : ℕ → ℕ → ℕ
month_number year month = 12 * year + month - 1

module _ (symbol : Bytes) (interval : Interval) where
  abbrev pub task_at : ℕ → MonthTask
  task_at n = record { symbol = symbol; interval = interval; year = n / 12; month = n % 12 + 1 }

  abbrev pub months_from : ℕ → ℕ → List MonthTask
  months_from n zero = []
  months_from n (suc k) = task_at n ∷ months_from (n + 1) k

  task_at-month_number :
      (year month : ℕ)
      → 1 ≤ month
      → month ≤ 12
      → task_at (month_number year month)
        ≡ record { symbol = symbol; interval = interval; year = year; month = month }
  task_at-month_number year month h k =
      let y : month_number year month / 12 ≡ year = omega arith in
      let m : month_number year month % 12 + 1 ≡ month = omega arith in rw (y, m) refl

  IsMonth : ℕ → Type 0
  IsMonth month = (1 ≤ month) × (month ≤ 12)

  next_month-number :
      (year month : ℕ)
      → IsMonth month
      → IsMonth (next_month year month).1
        × (month_number (next_month year month).0 (next_month year month).1
            ≡ month_number year month + 1)
  unfolding IsMonth
  next_month-number year month h = (ground (arith, h.0, h.1), ground (arith, h.0, h.1))

  generate_from :
      (k j year month end_year end_month : ℕ)
      → IsMonth month
      → IsMonth end_month
      → month_number year month + j ≡ month_number end_year end_month
      → j < k
      → generate_tasks k symbol interval year month end_year end_month
        ≡ some (months_from (month_number year month) (suc j))
  unfolding generate_tasks IsMonth
  generate_from zero j year month end_year end_month h h' e l = absurd (omega arith)
  generate_from (suc k) zero year month end_year end_month h h' e l =
      rw (task_at-month_number year month h.0 h.1) (ground (arith, h.0, h.1, h'.0, h'.1))
  generate_from (suc k) (suc j) year month end_year end_month h h' e l =
      let (m, n) = next_month-number year month h in
      rw
        (
          generate_from k j (next_month year month).0 (next_month year month).1 end_year end_month m
              h' (omega (arith, n)) (omega arith),
          n,
          task_at-month_number year month h.0 h.1,
        )
        (ground (arith, h.0, h.1, h'.0, h'.1))

  generate_never :
      (k year month end_year end_month : ℕ)
      → IsMonth month
      → (month_number end_year end_month < month_number year month)
        ⊎ ((end_month < 1) ⊎ (12 < end_month))
      → generate_tasks k symbol interval year month end_year end_month ≡ none
  unfolding generate_tasks IsMonth
  generate_never zero year month end_year end_month h o = refl
  generate_never (suc k) year month end_year end_month h o =
      let (m, n) = next_month-number year month h in
      rw
        (generate_never k (next_month year month).0 (next_month year month).1 end_year end_month m
          (elim o [ inl l ↦ inl (omega (arith, n)) | inr r ↦ inr r ]))
        (elim o [
          | inl l ↦ ground (arith, h.0, h.1)
          | inr (inl r) ↦ ground (arith, h.0, h.1)
          | inr (inr r) ↦ ground (arith, h.0, h.1)
        ])

  -- Between two months of the calendar, the second not before the first, the loop of `generateTasks`
  -- ends after one round for each month, and gives one task for each month from the first to the
  -- last, in their order; more rounds give the same.
  pub generate_tasks_lem :
      (k year month end_year end_month j : ℕ)
      → 1 ≤ month
      → month ≤ 12
      → 1 ≤ end_month
      → end_month ≤ 12
      → month_number year month + j ≡ month_number end_year end_month
      → j < k
      → generate_tasks k symbol interval year month end_year end_month
        ≡ some (months_from (month_number year month) (suc j))
  unfolding IsMonth
  generate_tasks_lem k year month end_year end_month j a b a' b' =
      generate_from k j year month end_year end_month (a, b) (a', b')

  -- From a month of the calendar, the loop of `generateTasks` does not end, after any number of
  -- rounds, when the last month comes before the first or is no month from 1 to 12.
  pub generate_tasks-endless :
      (k year month end_year end_month : ℕ)
      → 1 ≤ month
      → month ≤ 12
      → (month_number end_year end_month < month_number year month)
        ⊎ ((end_month < 1) ⊎ (12 < end_month))
      → generate_tasks k symbol interval year month end_year end_month ≡ none
  unfolding IsMonth
  generate_tasks-endless k year month end_year end_month a b =
      generate_never k year month end_year end_month (a, b)
