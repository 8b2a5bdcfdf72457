-- ===== src/Analytics/Tests.antt =====
-- A query by the hour that names its first date only.
use nest_shortlink_platform.Common.{ℕ, String, Option, none, some, true, ◌==◌, string_eq, ◌≡◌, refl}
use nest_shortlink_platform.Common.Effects.{threw}
use nest_shortlink_platform.Http.{bad_request}
use nest_shortlink_platform.Analytics.{QueryAnalyticsDto, hour, resolve_range}
use nest_shortlink_platform.Analytics.Range.{Ranges, resolve_range-Ranges}

abbrev parse : String → Option ℕ
parse text = some 9000000000

abbrev query : QueryAnalyticsDto
query = record { from = some "2024-01-01"; to = none; granularity = hour; timezone = "UTC" }

-- By the hour, with no first date: refused.
refused :
    resolve_range parse 9500000000 (record query { from = none }) (λ zone. true)
    ≡ threw (bad_request "The selected range cannot exceed") tt
unfolding resolve_range
refused = refl

resolve_range-Ranges_example :
    Ranges parse 9500000000 query
      (λ zone. zone == "UTC")
      (resolve_range parse 9500000000 query (λ zone. zone == "UTC"))
resolve_range-Ranges_example = resolve_range-Ranges parse 9500000000 query (λ zone. zone == "UTC")
