-- ===== src/Importer/Months.antt =====
-- The candles that the months of internal/importer/importer.go have, in one order and another.
use nyyu_market.Prelude.{ℕ, List, [], ◌∷◌, ◌++◌, Option, none, some, ◌≡◌, refl, ap, subst, ◌∙◌}
use mathlib.Core.List.{Perm, Permᴰ, append_assoc}
use mathlib.Core.List.Perm
use mathlib.Core.List.Permᴰ
use mathlib.Core.Path.{subst₂}
use nyyu_market.Prelude.Text.{Bytes}
use nyyu_market.Decimal.{Decimal}
use nyyu_market.Models.Interval.{Interval}
use nyyu_market.Models.Candle.{Candle}
use nyyu_market.Time.{Time}
use nyyu_market.Importer.{
  MonthTask, ImportJob, Archive, month_url, parse_zip_data, download_daily_files, tasks_of,
}

abbrev pub joined : {A : Type 0} → Option (List A) → Option (List A) → Option (List A)
joined (some xs) (some ys) = some (xs ++ ys)
joined (some xs) none = none
joined none o = none

module _ (d : Decimal) (new_from_string : Bytes → Option d.Number) (now : Time)
    (download : Bytes → Option Archive) where
  open d use {Number}

  abbrev pub read_archive : MonthTask → Option Archive → Option (List (Candle Number))
  read_archive t (some a) = parse_zip_data d new_from_string now t.symbol t.interval a
  read_archive t none = some (download_daily_files d new_from_string now download t)

  -- The candles of a month: those of its archive, `none` where it cannot be read, or of its days.
  abbrev pub read_month : MonthTask → Option (List (Candle Number))
  read_month t = read_archive t (download (month_url t))

  unfoldable pub read_months : List MonthTask → Option (List (Candle Number))
  read_months [] = some []
  read_months (t ∷ ts) = joined (read_month t) (read_months ts)

  abbrev pub read_tasks : Option (List MonthTask) → Option (List (Candle Number))
  unfolding read_months
  read_tasks none = none
  read_tasks (some ts) = read_months ts

  -- The candles of all intervals of a job.
  unfoldable pub read_job : ℕ → ImportJob → List Interval → Option (List (Candle Number))
  read_job k job [] = some []
  read_job k job (i ∷ is) = joined (read_tasks (tasks_of k job i)) (read_job k job is)

  -- The candles of months in another order.
  abbrev pub Same : Option (List (Candle Number)) → Option (List (Candle Number)) → Type 0
  Same o p =
      (cs : List (Candle Number))
      → o ≡ some cs
      → (cs' : List (Candle Number)) × (p ≡ some cs') × Perm cs cs'

  joined-parts :
      (o p : Option (List (Candle Number))) (cs : List (Candle Number))
      → joined o p ≡ some cs
      → (xs ys : List (Candle Number)) × (o ≡ some xs) × (p ≡ some ys) × (xs ++ ys ≡ cs)
  joined-parts none p cs h = absurd (cc)
  joined-parts (some xs) none cs h = absurd (cc)
  joined-parts (some xs) (some ys) cs h =
      (xs, ys, refl, refl, ap (λ o. elim o [ some c ↦ c | none ↦ cs ]) h)

  Same-joined :
      (o o' p p' : Option (List (Candle Number)))
      → Same o o'
      → Same p p'
      → Same (joined o p) (joined o' p')
  Same-joined o o' p p' f g cs h =
      let (xs, ys, a, b, e) = joined-parts o p cs h in
      let (xs', a', q) = f xs a in
      let (ys', b', r) = g ys b in
      (xs' ++ ys', rw (a', b') refl, subst (λ c. Perm c (xs' ++ ys')) e (Perm.append q r))

  Same-refl : (o : Option (List (Candle Number))) → Same o o
  Same-refl o cs h = (cs, h, Perm.refl cs)

  Same-swap :
      (o p q : Option (List (Candle Number))) → Same (joined o (joined p q)) (joined p (joined o q))
  Same-swap o p q cs h =
      let (xs, ws, a, b, e) = joined-parts o (joined p q) cs h in
      let (ys, zs, b', c, e') = joined-parts p q ws b in
      (
        ys ++ (xs ++ zs),
        ap (λ x. joined x (joined o q)) b'
            ∙ ap (λ x. joined (some ys) (joined x q)) a
            ∙ ap (λ x. joined (some ys) (joined (some xs) x)) c,
        subst (λ c. Perm c (ys ++ (xs ++ zs))) (ap (λ w. xs ++ w) e' ∙ e) (swapped xs ys zs),
      )
    where
      swapped : (xs ys zs : List (Candle Number)) → Perm (xs ++ (ys ++ zs)) (ys ++ (xs ++ zs))
      swapped xs ys zs =
          subst₂ Perm (append_assoc xs ys zs) (append_assoc ys xs zs)
            (Perm.append_right zs ∣ Permᴰ.append_comm xs ys ∣₁)

  pub read_months-permᴰ :
      {ts us : List MonthTask} → Permᴰ ts us → Same (read_months ts) (read_months us)
  unfolding read_months
  read_months-permᴰ Permᴰ.nil cs h = Same-refl (some []) cs h
  read_months-permᴰ (Permᴰ.cons {a = t} {b = u} {l₁ = ts} {l₂ = us} p q) cs h =
      Same-joined (read_month t) (read_month u) (read_months ts) (read_months us)
        (subst (λ u. Same (read_month t) (read_month u)) p (Same-refl (read_month t)))
        (read_months-permᴰ q) cs h
  read_months-permᴰ (Permᴰ.swap {a = t} {b = u} {l = ts} p q) cs h =
      subst₂
        (λ t' u'.
          Same (joined (read_month t) (joined (read_month u) (read_months ts)))
            (joined (read_month u') (joined (read_month t') (read_months ts))))
        p q (Same-swap (read_month t) (read_month u) (read_months ts)) cs h
  read_months-permᴰ (Permᴰ.trans p q) cs h =
      let (cs', e, r) = read_months-permᴰ p cs h in
      let (cs'', e', r') = read_months-permᴰ q cs' e in (cs'', e', Perm.trans r r')
