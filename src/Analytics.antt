-- ===== src/Analytics.antt =====
-- `resolveRange` of src/analytics/analytics.service.ts: the range of time that a query is about. Times
-- are milliseconds since the earliest that a Date can hold; nothing stands for an invalid Date.
mod Range
mod Tests
use nest_shortlink_platform.Common.{
  ℕ, ◌+◌, ◌-◌, ◌*◌, String, Option, none, some, Bool, true, false, not, ltb, if◌then◌else◌,
}
use nest_shortlink_platform.Common.Effects.{Outcome, ok, threw, Eff, pure, throw}
use nest_shortlink_platform.Http.{HttpError, bad_request, truthy}

abbrev pub day_ms : ℕ
day_ms = 24 * 60 * 60 * 1000

abbrev pub default_range_days : ℕ
default_range_days = 30

abbrev pub max_range_days : ℕ
max_range_days = 90

abbrev pub max_hourly_range_days : ℕ
max_hourly_range_days = 7

pub data Granularity : Type 0 where
  hour day : Granularity

pub record QueryAnalyticsDto : Type 0 where
  pub from : Option String
  pub to : Option String
  pub granularity : Granularity
  pub timezone : String

pub record AnalyticsRange : Type 0 where
  pub from : ℕ
  pub to : ℕ
  pub timezone : String
  pub granularity : Granularity

unfoldable pub max_days : Granularity → ℕ
max_days hour = max_hourly_range_days
max_days day = max_range_days

-- `new Date(text)` if the text counts as true, and otherwise a default.
unfoldable pub date_or : (String → Option ℕ) → Option String → Option ℕ → Option ℕ
unfolding truthy
date_or parse none default = default
date_or parse (some text) default = if truthy (some text) then parse text else default

-- `new Date(to.getTime() - DEFAULT_RANGE_DAYS * DAY_MS)`.
unfoldable pub default_from : Option ℕ → Option ℕ
default_from none = none
default_from (some to) =
    if ltb to (default_range_days * day_ms) then none else some (to - default_range_days * day_ms)

abbrev pub Resolve : Type 0
Resolve = Outcome HttpError (Unit {0}) AnalyticsRange

-- The checks on two valid dates; `is_zone` is whether Intl knows the time zone.
unfoldable pub check_range : (String → Bool) → QueryAnalyticsDto → ℕ → ℕ → Resolve
unfolding max_days
check_range is_zone query from to =
    if not (ltb from to)
    then threw (bad_request "from must be earlier than to") tt
    else if ltb (max_days query.granularity * day_ms) (to - from)
    then threw (bad_request "The selected range cannot exceed") tt
    else if is_zone query.timezone
    then ok
        (record {
          from = from;
          to = to;
          timezone = query.timezone;
          granularity = query.granularity;
        })
        tt
    else threw (bad_request "timezone must be a valid IANA time zone") tt

unfoldable pub check_dates : (String → Bool) → QueryAnalyticsDto → Option ℕ → Option ℕ → Resolve
unfolding check_range
check_dates is_zone query none to =
    threw (bad_request "from and to must be valid ISO-8601 dates") tt
check_dates is_zone query (some from) none =
    threw (bad_request "from and to must be valid ISO-8601 dates") tt
check_dates is_zone query (some from) (some to) = check_range is_zone query from to

module _ (parse : String → Option ℕ) (now : ℕ) (query : QueryAnalyticsDto) where
  unfoldable pub to_date : Option ℕ
  unfolding date_or
  to_date = date_or parse query.to (some now)

  unfoldable pub from_date : Option ℕ
  unfolding date_or to_date default_from
  from_date = date_or parse query.from (default_from to_date)

  unfoldable pub resolve_range : (String → Bool) → Resolve
  unfolding from_date to_date check_dates
  resolve_range is_zone = check_dates is_zone query from_date to_date
