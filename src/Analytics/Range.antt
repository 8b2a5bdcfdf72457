-- ===== src/Analytics/Range.antt =====
-- Which ranges are accepted.
use nest_shortlink_platform.Common.{
  ℕ, ◌+◌, ◌-◌, ◌*◌, ◌≤◌, ◌<◌, ◌≡◌, ◌≢◌, ◌⊎◌, ◌∙◌, refl, sym, ap, inl, inr, String, Option, none,
  some, Bool, true, false, ltb, ◌==◌, string_eq, eq_iff, Bool-cases, arith,
}
use mathlib.Core.Option.{some-injective, none-ne-some}
use nest_shortlink_platform.Common.Effects.{ok, threw}
use nest_shortlink_platform.Http.{truthy}
use nest_shortlink_platform.Analytics.{
  QueryAnalyticsDto, Granularity, hour, day, day_ms, default_range_days, max_days, date_or,
  default_from, Resolve, check_range, check_dates, to_date, from_date, resolve_range,
}

-- 7 days and 90 days.
abbrev pub longest_ms : Granularity → ℕ
longest_ms hour = 604800000
longest_ms day = 7776000000

max_days-longest_ms : (g : Granularity) → max_days g * day_ms ≡ longest_ms g
unfolding max_days
max_days-longest_ms hour = refl
max_days-longest_ms day = refl

-- A query that names no date means another one by that; otherwise the date is that of the text.
abbrev pub Named : (String → Option ℕ) → Option String → Type 0 → ℕ → Type 0
Named parse none Default t = Default
Named parse (some text) Default t = ((text ≡ "") × Default) ⊎ ((text ≢ "") × (parse text ≡ some t))

module _ (parse : String → Option ℕ) where
  date_or-Named :
      (named : Option String) (default : Option ℕ) (t : ℕ)
      → date_or parse named default ≡ some t
      → Named parse named (default ≡ some t) t
  unfolding date_or truthy
  date_or-Named none default t h = h
  date_or-Named (some text) default t h = elim (Bool-cases (text == "")) [
    | inl empty ↦ inl ((eq_iff text "").0 empty, rw empty at h)
    | inr other ↦
        inr ((λ e. let same : (text == "") ≡ true = (eq_iff text "").1 e in cc), rw other at h)
  ]

  Named-date_or :
      (named : Option String) (default : Option ℕ) (t : ℕ)
      → Named parse named (default ≡ some t) t
      → date_or parse named default ≡ some t
  unfolding date_or truthy
  Named-date_or none default t h = h
  Named-date_or (some text) default t (inl (empty, h)) =
      let same : (text == "") ≡ true = (eq_iff text "").1 empty in rw same h
  Named-date_or (some text) default t (inr (other, h)) =
      let differs : (text == "") ≡ false = ground (arith, other, eq_iff text "") in rw differs h

  Named-weaken :
      (named : Option String) (P Q : Type 0) (t : ℕ)
      → (P → Q)
      → Named parse named P t
      → Named parse named Q t
  Named-weaken none P Q t f h = f h
  Named-weaken (some text) P Q t f (inl (empty, h)) = inl (empty, f h)
  Named-weaken (some text) P Q t f (inr h) = inr h

default_from-before : (f t : ℕ) → default_from (some t) ≡ some f → f + 2592000000 ≡ t
unfolding default_from
default_from-before f t h = elim (Bool-cases (ltb t (default_range_days * day_ms))) [
  | inl early ↦ absurd (none-ne-some f (rw early at h))
  | inr late ↦
      let same : some (t - default_range_days * day_ms) ≡ some f = rw late at h in
      let gap : t - default_range_days * day_ms ≡ f = some-injective _ _ same in
      ground (arith, gap, late)
]

before-default_from : (f t : ℕ) → f + 2592000000 ≡ t → default_from (some t) ≡ some f
unfolding default_from
before-default_from f t h = ground (arith, h)

module _ (parse : String → Option ℕ) (now : ℕ) (query : QueryAnalyticsDto)
    (is_zone : String → Bool) where
  -- The last date: now, if the query names none.
  abbrev pub IsLast : ℕ → Type 0
  IsLast to = Named parse query.to (to ≡ now) to

  -- The first date: 30 days before the last, if the query names none.
  abbrev pub IsFirst : ℕ → ℕ → Type 0
  IsFirst from to = Named parse query.from (from + 2592000000 ≡ to) from

  -- Two dates in order, not too far apart, in a known time zone.
  abbrev pub Acceptable : ℕ → ℕ → Type 0
  Acceptable from to =
      (from < to) × (to ≤ from + longest_ms query.granularity) × (is_zone query.timezone ≡ true)

  abbrev pub Ranges : Resolve → Type 0
  Ranges (ok range _) =
      IsLast range.to
      × IsFirst range.from range.to
      × Acceptable range.from range.to
      × (range.timezone ≡ query.timezone)
      × (range.granularity ≡ query.granularity)
  Ranges (threw e _) = ¬ ((from : ℕ) × (to : ℕ) × IsLast to × IsFirst from to × Acceptable from to)

  abbrev Dates : ℕ → ℕ → Type 0
  Dates from to = (from_date parse now query ≡ some from) × (to_date parse now query ≡ some to)

  Dates-named : (from to : ℕ) → Dates from to → IsLast to × IsFirst from to
  unfolding to_date from_date
  Dates-named from to (f, t) = (
    Named-weaken parse query.to _ _ to (λ e. sym (some-injective now to e))
        (date_or-Named parse query.to (some now) to t),
    Named-weaken parse query.from _ _ from
        (λ e. default_from-before from to (ap default_from (sym t) ∙ e))
        (date_or-Named parse query.from (default_from (to_date parse now query)) from f),
  )

  named-Dates : (from to : ℕ) → IsLast to → IsFirst from to → Dates from to
  unfolding to_date from_date
  named-Dates from to last first =
      let t : to_date parse now query ≡ some to =
        Named-date_or parse query.to (some now) to
          (Named-weaken parse query.to _ _ to (λ e. ap some (sym e)) last) in
      (
        Named-date_or parse query.from (default_from (to_date parse now query)) from (
            Named-weaken parse query.from _ _ from
              (λ e. ap default_from t ∙ before-default_from from to e) first),
        t,
      )

  check_range-Ranges : (from to : ℕ) → Dates from to → Ranges (check_range is_zone query from to)
  unfolding check_range
  check_range-Ranges from to dates =
      let days = max_days-longest_ms query.granularity in
      let (last, first) = Dates-named from to dates in
      let same : (f t : ℕ) → IsLast t → IsFirst f t → (from ≡ f) × (to ≡ t) = λ f t l i.
        let (x, y) = named-Dates f t l i in
        (some-injective from f (sym dates.0 ∙ x), some-injective to t (sym dates.1 ∙ y)) in
      elim (Bool-cases (ltb from to)) [
        | inr late ↦ rw late (λ h.
            let (x, y) = same h.0 h.1 h.2 h.3 in
            let before = h.4.0 in ground (arith, late, before, x, y))
        | inl ordered ↦ elim (Bool-cases (ltb (max_days query.granularity * day_ms) (to - from))) [
          | inl long ↦
              rw (ordered, long)
                (λ h.
                  let (x, y) = same h.0 h.1 h.2 h.3 in
                  let near = h.4.1 in ground (arith, long, near, x, y, days))
          | inr short ↦ elim (Bool-cases (is_zone query.timezone)) [
            | inl known ↦
                rw (ordered, short, known)
                  (
                    last,
                    first,
                    (ground (arith, ordered), ground (arith, short, ordered, days), known),
                    refl,
                    refl,
                  )
            | inr unknown ↦
                rw (ordered, short, unknown)
                  (λ h. let zone = h.4.2 in ground (arith, zone, unknown))
          ]
        ]
      ]

  check_dates-Ranges :
      (from to : Option ℕ)
      → from_date parse now query ≡ from
      → to_date parse now query ≡ to
      → Ranges (check_dates is_zone query from to)
  unfolding check_dates
  check_dates-Ranges none to e g =
      λ h. absurd (none-ne-some h.0 (sym e ∙ (named-Dates h.0 h.1 h.2 h.3).0))
  check_dates-Ranges (some from) none e g =
      λ h. absurd (none-ne-some h.1 (sym g ∙ (named-Dates h.0 h.1 h.2 h.3).1))
  check_dates-Ranges (some from) (some to) e g = check_range-Ranges from to (e, g)

-- A query is given a range exactly if its dates are valid, the first before the last, not further
-- apart than 90 days, or 7 by the hour, and its time zone is known. The range is then of those dates,
-- the time zone and the granularity of the query; the last is now, and the first 30 days before the
-- last, where the query names none or an empty one.
pub resolve_range-Ranges :
    (parse : String → Option ℕ) (now : ℕ) (query : QueryAnalyticsDto) (is_zone : String → Bool)
    → Ranges parse now query is_zone (resolve_range parse now query is_zone)
unfolding resolve_range
resolve_range-Ranges parse now query is_zone =
    check_dates-Ranges parse now query is_zone (from_date parse now query) (to_date parse now query)
      refl refl
