-- ===== src/Importer/Totals.antt =====
-- What `Import` of internal/importer/importer.go has put into the database when it returns.
use nyyu_market.Prelude.{
  ℕ, zero, suc, ◌+◌, List, [], ◌∷◌, ◌++◌, Bool, true, Option, none, some, ◌≡◌, refl, ap, sym, subst,
  ◌∙◌, arith, Bool-cases, inl, inr,
}
use mathlib.Core.List.{Perm, Permᴰ, append-nil, append_assoc}
use mathlib.Core.List.Perm
use nyyu_market.Prelude.Text.{Bytes}
use nyyu_market.Decimal.{Decimal}
use nyyu_market.Models.Interval.{Interval}
use nyyu_market.Models.Candle.{Candle}
use nyyu_market.Time.{Time}
use nyyu_market.Importer.Months.{
  joined, read_archive, read_month, read_months, read_tasks, read_job, read_months-permᴰ,
}
use nyyu_market.Importer.{
  MonthTask, ImportJob, ImportResult, imported, skipped, Archive, month_url, parse_zip_data,
  download_daily_files, batch_create, from_month, from_days, from_archive, tasks_of, process_month,
  process_tasks, with_tasks, add_failed, done, count_failed, import_each, import_job,
}

module _ (d : Decimal) (new_from_string : Bytes → Option d.Number) (now : Time)
    (download : Bytes → Option Archive) where
  open d use {Number}

  -- The candles were read, and they stand behind the rows that were there.
  abbrev Stored :
      Option (List (Candle Number)) → List (Candle Number) → List (Candle Number) → Type 0
  Stored o rows rows' = (cs : List (Candle Number)) × (o ≡ some cs) × (rows' ≡ rows ++ cs)

  Stored-joined :
      (o p : Option (List (Candle Number))) (r s t : List (Candle Number))
      → Stored o r s
      → Stored p s t
      → Stored (joined o p) r t
  Stored-joined o p r s t (cs, e, q) (cs', e', q') =
      (cs ++ cs', rw (e, e') refl, q' ∙ ap (λ x. x ++ cs') q ∙ append_assoc r cs cs')

  -- The candles were read, and they stand behind the rows that were there, in any order.
  abbrev StoredAll :
      Option (List (Candle Number)) → List (Candle Number) → List (Candle Number) → Type 0
  StoredAll o rows rows' =
      (cs cs' : List (Candle Number)) × (o ≡ some cs) × (rows' ≡ rows ++ cs') × Perm cs' cs

  StoredAll-joined :
      (o p : Option (List (Candle Number))) (r s t : List (Candle Number))
      → StoredAll o r s
      → StoredAll p s t
      → StoredAll (joined o p) r t
  StoredAll-joined o p r s t (cs, ds, e, q, x) (cs', ds', e', q', x') = (
    cs ++ cs',
    ds ++ ds',
    rw (e, e') refl,
    q' ∙ ap (λ x. x ++ ds') q ∙ append_assoc r ds ds',
    Perm.append x x',
  )

  module _ (accepts : List (Candle Number) → List (Candle Number) → Bool) where
    -- The result of a batch that was not refused.
    batch_create-Stored :
        (cs rows : List (Candle Number))
        → count_failed ((batch_create d accepts cs rows).0 ∷ []) ≡ 0
        → (batch_create d accepts cs rows).1 ≡ rows ++ cs
    unfolding batch_create
    batch_create-Stored [] rows h = sym (append-nil rows)
    batch_create-Stored (c ∷ cs) rows h = elim (Bool-cases (accepts (c ∷ cs) rows)) [
      | inl e ↦ rw e refl
      | inr e ↦ absurd (ground (arith, h, e))
    ]

    from_month-Stored :
        (o : Option (List (Candle Number))) (rows : List (Candle Number))
        → count_failed ((from_month d accepts o rows).0 ∷ []) ≡ 0
        → Stored o rows (from_month d accepts o rows).1
    from_month-Stored none rows h = absurd (omega (arith, h))
    from_month-Stored (some cs) rows h = (cs, refl, batch_create-Stored cs rows h)

    from_days-Stored :
        (cs rows : List (Candle Number))
        → count_failed ((from_days d accepts cs rows).0 ∷ []) ≡ 0
        → Stored (some cs) rows (from_days d accepts cs rows).1
    from_days-Stored [] rows h = ([], refl, sym (append-nil rows))
    from_days-Stored (c ∷ cs) rows h = (c ∷ cs, refl, batch_create-Stored (c ∷ cs) rows h)

    process_month-Stored :
        (t : MonthTask) (o : Option Archive) (rows : List (Candle Number))
        → count_failed ((from_archive d new_from_string now download accepts t o rows).0 ∷ []) ≡ 0
        → Stored
            (read_archive d new_from_string now download t o)
            rows
            (from_archive d new_from_string now download accepts t o rows).1
    process_month-Stored t none rows h =
        from_days-Stored (download_daily_files d new_from_string now download t) rows h
    process_month-Stored t (some a) rows h =
        from_month-Stored (parse_zip_data d new_from_string now t.symbol t.interval a) rows h

    -- Counting the failures of a list starts with its first result.
    count_failed-cons :
        (r : ImportResult) (rs : List ImportResult)
        → count_failed (r ∷ rs) ≡ 0
        → (count_failed (r ∷ []) ≡ 0) × (count_failed rs ≡ 0)
    count_failed-cons ImportResult.failed rs h = absurd (omega (arith, h))
    count_failed-cons skipped rs h = (refl, h)
    count_failed-cons (imported n) rs h = (refl, h)

    process_tasks-Stored :
        (ts : List MonthTask) (rows : List (Candle Number))
        → count_failed (process_tasks d new_from_string now download accepts ts rows).0 ≡ 0
        → Stored
            (read_months d new_from_string now download ts)
            rows
            (process_tasks d new_from_string now download accepts ts rows).1
    unfolding process_tasks process_month read_months
    process_tasks-Stored [] rows h = ([], refl, sym (append-nil rows))
    process_tasks-Stored (t ∷ ts) rows h =
        let r = process_month d new_from_string now download accepts t rows in
        let (a, b) =
          count_failed-cons r.0 (process_tasks d new_from_string now download accepts ts r.1).0 h in
        Stored-joined (read_month d new_from_string now download t)
          (read_months d new_from_string now download ts) rows r.1 _
          (process_month-Stored t (download (month_url t)) rows a) (process_tasks-Stored ts r.1 b)

    add_failed-zero :
        (m : ℕ) (o : Option (ℕ × List (Candle Number))) (rows : List (Candle Number))
        → add_failed d m o ≡ some (0, rows)
        → (m ≡ 0) × (o ≡ some (0, rows))
    add_failed-zero m none rows h = absurd (cc)
    add_failed-zero m (some (n, r)) rows h =
        let e : m + n ≡ 0 = ap (λ o. elim o [ some (j, x) ↦ j | none ↦ 0 ]) h in
        let f : r ≡ rows = ap (λ o. elim o [ some (j, x) ↦ x | none ↦ r ]) h in
        let z : n ≡ 0 = omega (arith, e) in (omega (arith, e), rw (z, f) refl)

    done-true :
        (o : Option (ℕ × List (Candle Number))) (rows : List (Candle Number))
        → done d o ≡ some (true, rows)
        → o ≡ some (0, rows)
    done-true none rows h = absurd (cc)
    done-true (some (zero, r)) rows h = ap (λ o. some (0, elim o [ some (b, x) ↦ x | none ↦ r ])) h
    done-true (some (suc n, r)) rows h =
        absurd (ground (arith, ap (λ o. elim o [ some (b, x) ↦ b | none ↦ true ]) h))

    module _ (arrange : List MonthTask → List MonthTask)
        (arranges : (ts : List MonthTask) → Permᴰ (arrange ts) ts) where
      work-StoredAll :
          (ts : List MonthTask) (rows : List (Candle Number))
          → count_failed (process_tasks d new_from_string now download accepts (arrange ts) rows).0
            ≡ 0
          → StoredAll
              (read_months d new_from_string now download ts)
              rows
              (process_tasks d new_from_string now download accepts (arrange ts) rows).1
      work-StoredAll ts rows h =
          let (ds, e, q) = process_tasks-Stored (arrange ts) rows h in
          let (cs, e', p) = read_months-permᴰ d new_from_string now download (arranges ts) ds e in
          (cs, ds, e', q, p)

      with_tasks-StoredAll :
          (workers : ℕ) (o : Option (List MonthTask))
          (next : List (Candle Number) → Option (ℕ × List (Candle Number)))
          (p : Option (List (Candle Number))) (rows rows' : List (Candle Number))
          → ((r : List (Candle Number)) → next r ≡ some (0, rows') → StoredAll p r rows')
          → with_tasks d new_from_string now download accepts arrange (suc workers) o next rows
            ≡ some (0, rows')
          → StoredAll (joined (read_tasks d new_from_string now download o) p) rows rows'
      unfolding read_months process_tasks
      with_tasks-StoredAll workers none next p rows rows' f h = absurd (cc)
      with_tasks-StoredAll workers (some ts) next p rows rows' f h =
          let r = process_tasks d new_from_string now download accepts (arrange ts) rows in
          let (a, b) = add_failed-zero (count_failed r.0) (next r.1) rows' h in
          StoredAll-joined (read_months d new_from_string now download ts) p rows r.1 rows'
            (work-StoredAll ts rows a) (f r.1 b)

      -- What the loop of `Import` has done when it has counted no failure.
      import_each-StoredAll :
          (k workers : ℕ) (job : ImportJob) (is : List Interval) (rows rows' : List (Candle Number))
          → job.workers ≡ suc workers
          → import_each d new_from_string now download accepts arrange k job is rows
            ≡ some (0, rows')
          → StoredAll (read_job d new_from_string now download k job is) rows rows'
      unfolding import_each read_job
      import_each-StoredAll k workers job [] rows rows' w h =
          ([], [], refl, cc (append-nil rows), Perm.refl [])
      import_each-StoredAll k workers job (i ∷ is) rows rows' w h =
          with_tasks-StoredAll workers (tasks_of k job i)
            (import_each d new_from_string now download accepts arrange k job is)
            (read_job d new_from_string now download k job is) rows rows'
            (λ r e. import_each-StoredAll k workers job is r rows' w e)
            (subst
              (λ m.
                with_tasks d new_from_string now download accepts arrange m (tasks_of k job i)
                  (import_each d new_from_string now download accepts arrange k job is) rows
                ≡ some (0, rows'))
              w h)

      -- When `Import` of a job with a worker returns without an error, in whatever order the workers
      -- insert the months of one interval: no archive of a month that could be downloaded failed to be
      -- read, and the database holds what it held and behind it, in some order, the candles of all
      -- months of all intervals: of a month's archive if it could be downloaded, and else of those of
      -- its days that could be downloaded and read, which may be none.
      pub import_job-stores :
          (k workers : ℕ) (job : ImportJob) (rows rows' : List (Candle Number))
          → job.workers ≡ suc workers
          → import_job d new_from_string now download accepts arrange k job rows
            ≡ some (true, rows')
          → (cs cs' : List (Candle Number)) × (read_job d new_from_string now download k job
                job.intervals
              ≡ some cs)
            × (rows' ≡ rows ++ cs')
            × Perm cs' cs
      unfolding import_job
      import_job-stores k workers job rows rows' w h =
          import_each-StoredAll k workers job job.intervals rows rows' w (
            done-true
              (import_each d new_from_string now download accepts arrange k job job.intervals rows)
              rows' h)
