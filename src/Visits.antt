-- ===== src/Visits.antt =====
-- src/analytics-worker/visit-events.consumer.ts: visit events from the broker, which may deliver one
-- more than once. Spans and metrics are left out.
pub mod Once
mod Tests
use nest_shortlink_platform.Common.{
  ℕ, ◌+◌, String, List, [], ◌∷◌, Option, Bool, true, false, ◌||◌, ◌==◌, string_eq, if◌then◌else◌,
}
use nest_shortlink_platform.Links.{ShortLink}

pub record ShortLinkVisitedEvent : Type 0 where
  pub event_id : String
  pub short_link_id : String
  pub workspace_id : String
  pub short_code : String
  pub occurred_at : ℕ
  pub database_visit_count_incremented : Bool
  pub ip_hash : Option String
  pub user_agent : Option String
  pub referer : Option String

-- A row of the table ShortLinkVisit, whose key is `event_id`.
pub record ShortLinkVisit : Type 0 where
  pub event_id : String
  pub short_link_id : String
  pub workspace_id : String
  pub short_code : String
  pub visited_at : ℕ
  pub ip_hash : Option String
  pub user_agent : Option String
  pub referer : Option String

pub record Database : Type 0 where
  pub visits : List ShortLinkVisit
  pub links : List ShortLink

-- What the broker is told, and the label that is counted.
pub data Verdict : Type 0 where
  processed duplicate requeued : Verdict

unfoldable pub stored : String → List ShortLinkVisit → Bool
stored event_id [] = false
stored event_id (row ∷ rows) = (row.event_id == event_id) || stored event_id rows

abbrev pub visit_of : ShortLinkVisitedEvent → ShortLinkVisit
visit_of event = record {
  event_id = event.event_id;
  short_link_id = event.short_link_id;
  workspace_id = event.workspace_id;
  short_code = event.short_code;
  visited_at = event.occurred_at;
  ip_hash = event.ip_hash;
  user_agent = event.user_agent;
  referer = event.referer;
}

unfoldable pub increment : String → List ShortLink → List ShortLink
increment id [] = []
increment id (row ∷ rows) =
    (if row.id == id then record row { visit_count = row.visit_count + 1 } else row)
    ∷ increment id rows

-- The transaction, once the key is known to be new.
unfoldable pub record_visit : ShortLinkVisitedEvent → Database → Database
unfolding increment
record_visit event db = record {
  visits = visit_of event ∷ db.visits;
  links =
      if event.database_visit_count_incremented
      then db.links
      else increment event.short_link_id db.links;
}

-- `processEvent`; `fails` says that the transaction throws another error than the duplicate key's,
-- and is rolled back.
unfoldable pub process_event : Bool → ShortLinkVisitedEvent → Database → Verdict × Database
unfolding record_visit stored
process_event fails event db =
    if fails
    then (requeued, db)
    else if stored event.event_id db.visits
    then (duplicate, db)
    else (processed, record_visit event db)

-- Deliveries one after another, of which some fail.
unfoldable pub deliver_all : List (Bool × ShortLinkVisitedEvent) → Database → Database
unfolding process_event
deliver_all [] db = db
deliver_all ((fails, event) ∷ later) db = deliver_all later (process_event fails event db).1
