-- ===== src/Visits/Tests.antt =====
-- Visit events at work.
use nest_shortlink_platform.Common.{◌≡◌, refl, List, [], ◌∷◌, none, Bool, true, false}
use nest_shortlink_platform.Links.{ShortLink}
use nest_shortlink_platform.Cache.Redirect.{active, public}
use nest_shortlink_platform.Visits.{ShortLinkVisitedEvent, Database, deliver_all}
use nest_shortlink_platform.Visits.Once.{Counted, firsts, deliver_all-once}

abbrev event : ShortLinkVisitedEvent
event = record {
  event_id = "e1";
  short_link_id = "1";
  workspace_id = "w";
  short_code = "abc";
  occurred_at = 5;
  database_visit_count_incremented = false;
  ip_hash = none;
  user_agent = none;
  referer = none;
}

abbrev link : ShortLink
link = record {
  id = "1";
  workspace_id = "w";
  created_by_id = "u";
  code = "abc";
  original_url = "https://example.com";
  title = none;
  visibility = public;
  status = active;
  expires_at = none;
  max_visits = none;
  visit_count = 7;
  password_hash = none;
  access_version = 1;
}

abbrev db : Database
db = record { visits = []; links = link ∷ [] }

abbrev once : List (Bool × ShortLinkVisitedEvent)
once = (false, event) ∷ []

abbrev failing : List (Bool × ShortLinkVisitedEvent)
failing = (true, record event { event_id = "e2" }) ∷ []

-- One event fails and is delivered twice more, another was counted by the redirect.
abbrev mixed : List (Bool × ShortLinkVisitedEvent)
mixed =
    (true, event)
    ∷ (false, event)
    ∷ (false, event)
    ∷ (false, record event { event_id = "e2"; database_visit_count_incremented = true })
    ∷ []

deliver_all-once_example :
    Counted
      (event ∷ record event { event_id = "e2"; database_visit_count_incremented = true } ∷ [])
      db
      (deliver_all mixed db)
    × (deliver_all once (deliver_all failing (deliver_all once db))
        ≡ deliver_all failing (deliver_all once db))
unfolding firsts
deliver_all-once_example = deliver_all-once mixed once failing db (refl, tt)
