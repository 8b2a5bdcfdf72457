-- ===== src/Visits/Once.antt =====
-- Events are counted once, however often they are delivered.
use mathlib.Core.Path.{subst}
use nest_shortlink_platform.Common.{
  ℕ, ◌+◌, not, ◌&&◌, nat_eq, if◌then◌else◌, Bool-cases, inl, inr, ◌≡◌, refl, sym, ap, ◌∙◌, String,
  List, [], ◌∷◌, Bool, true, false, ◌||◌, ◌==◌, string_eq, eq_iff, if_elim, arith, All,
}
use nest_shortlink_platform.Links.{ShortLink}
use nest_shortlink_platform.Visits.{
  ShortLinkVisitedEvent, ShortLinkVisit, Database, Verdict, stored, visit_of, increment,
  record_visit, process_event, deliver_all,
}

abbrev pub Stored : Database → Bool × ShortLinkVisitedEvent → Type 0
Stored db delivery = stored delivery.1.event_id db.visits ≡ true

process_event-Stored :
    (id : String) (fails : Bool) (event : ShortLinkVisitedEvent) (db : Database)
    → stored id db.visits ≡ true
    → stored id (process_event fails event db).1.visits ≡ true
unfolding process_event record_visit stored
process_event-Stored id fails event db h =
    if_elim {A = Verdict × Database} (λ r. stored id r.1.visits ≡ true) fails _ _ (λ _. h)
      (λ _.
        if_elim {A = Verdict × Database} (λ r. stored id r.1.visits ≡ true)
          (stored event.event_id db.visits) _ _ (λ _. h)
          (λ _. either ((visit_of event).event_id == id) (stored id db.visits) h))
  where
    either : (a b : Bool) → b ≡ true → (a || b) ≡ true
    either a b k = ground arith

process_event-stores :
    (event : ShortLinkVisitedEvent) (db : Database)
    → stored event.event_id (process_event false event db).1.visits ≡ true
unfolding process_event record_visit stored
process_event-stores event db =
    if_elim {A = Verdict × Database} (λ r. stored event.event_id r.1.visits ≡ true)
      (stored event.event_id db.visits) _ _ (λ h. h)
      (λ _.
        first (event.event_id == event.event_id) (stored event.event_id db.visits)
          ((eq_iff event.event_id event.event_id).1 refl))
  where
    first : (a b : Bool) → a ≡ true → (a || b) ≡ true
    first a b k = ground arith

deliver_all-Stored :
    (id : String) (deliveries : List (Bool × ShortLinkVisitedEvent)) (db : Database)
    → stored id db.visits ≡ true
    → stored id (deliver_all deliveries db).visits ≡ true
unfolding deliver_all
deliver_all-Stored id [] db h = h
deliver_all-Stored id ((fails, event) ∷ later) db h =
    deliver_all-Stored id later (process_event fails event db).1
      (process_event-Stored id fails event db h)

Stored-All :
    (deliveries : List (Bool × ShortLinkVisitedEvent)) (db : Database)
    → All (λ d. d.0 ≡ false) deliveries
    → All (Stored (deliver_all deliveries db)) deliveries
unfolding deliver_all
Stored-All [] db h = tt
Stored-All ((fails, event) ∷ later) db (h, hs) = (
  subst (λ f. stored event.event_id (deliver_all later (process_event f event db).1).visits ≡ true)
      (sym h)
      (deliver_all-Stored event.event_id later (process_event false event db).1
        (process_event-stores event db)),
  Stored-All later (process_event fails event db).1 hs,
)

process_event-duplicate :
    (fails : Bool) (event : ShortLinkVisitedEvent) (db : Database)
    → stored event.event_id db.visits ≡ true
    → (process_event fails event db).1 ≡ db
unfolding process_event
process_event-duplicate fails event db h =
    if_elim {A = Verdict × Database} (λ r. r.1 ≡ db) fails _ _ (λ _. refl) (λ _. rw h refl)

deliver_all-duplicates :
    (deliveries : List (Bool × ShortLinkVisitedEvent)) (db : Database)
    → All (Stored db) deliveries
    → deliver_all deliveries db ≡ db
unfolding deliver_all
deliver_all-duplicates [] db h = refl
deliver_all-duplicates ((fails, event) ∷ later) db (h, hs) =
    ap (deliver_all later) (process_event-duplicate fails event db h)
    ∙ deliver_all-duplicates later db hs

deliver_all-again :
    (deliveries others : List (Bool × ShortLinkVisitedEvent)) (db : Database)
    → All (λ d. d.0 ≡ false) deliveries
    → deliver_all deliveries (deliver_all others (deliver_all deliveries db))
      ≡ deliver_all others (deliver_all deliveries db)
deliver_all-again deliveries others db h =
    deliver_all-duplicates deliveries (deliver_all others (deliver_all deliveries db))
      (kept deliveries (Stored-All deliveries db h))
  where
    kept :
        (ds : List (Bool × ShortLinkVisitedEvent))
        → All (Stored (deliver_all deliveries db)) ds
        → All (Stored (deliver_all others (deliver_all deliveries db))) ds
    kept [] k = tt
    kept (d ∷ ds) (k, ks) =
        (deliver_all-Stored d.1.event_id others (deliver_all deliveries db) k, kept ds ks)

-- The ids of the visits that are stored.
abbrev pub ids : List ShortLinkVisit → List String
ids [] = []
ids (row ∷ rows) = row.event_id ∷ ids rows

abbrev pub among : String → List String → Bool
among id [] = false
among id (x ∷ xs) = (x == id) || among id xs

-- The deliveries that did not fail and whose event is new: the first of each id that is not among
-- those `seen` before.
unfoldable pub firsts :
    List String → List (Bool × ShortLinkVisitedEvent) → List ShortLinkVisitedEvent
firsts seen [] = []
firsts seen ((true, event) ∷ later) = firsts seen later
firsts seen ((false, event) ∷ later) =
    let rest = firsts (event.event_id ∷ seen) later in
    let others = firsts seen later in if among event.event_id seen then others else event ∷ rest

-- Whether an event is to be counted for a link: the redirect did not count it before.
abbrev pub counts : String → ShortLinkVisitedEvent → Bool
counts id event = not event.database_visit_count_incremented && (event.short_link_id == id)

unfoldable pub number : String → List ShortLinkVisitedEvent → ℕ
number id [] = 0
number id (event ∷ events) =
    let rest = number id events in if counts id event then 1 + rest else rest

abbrev pub plus : ℕ → ShortLink → ShortLink
plus n row = record row { visit_count = row.visit_count + n }

-- The links, with the visits of some events added.
abbrev pub with_visits : List ShortLinkVisitedEvent → List ShortLink → List ShortLink
with_visits events [] = []
with_visits events (row ∷ rows) = plus (number row.id events) row ∷ with_visits events rows

abbrev pub rows_of : List ShortLinkVisitedEvent → List ShortLinkVisit → List ShortLinkVisit
rows_of [] visits = visits
rows_of (event ∷ events) visits = rows_of events (visit_of event ∷ visits)

stored-among :
    (id : String) (visits : List ShortLinkVisit) → stored id visits ≡ among id (ids visits)
unfolding stored
stored-among id [] = refl
stored-among id (row ∷ rows) = ap (λ b. (row.event_id == id) || b) (stored-among id rows)

with_visits-none : (links : List ShortLink) → with_visits [] links ≡ links
unfolding number
with_visits-none [] = refl
with_visits-none (row ∷ rows) =
    let same : row.visit_count + 0 ≡ row.visit_count = omega arith in
    let head : plus 0 row ≡ row = ap (λ n. record row { visit_count = n }) same in
    let rest = with_visits-none rows in λ i. head i ∷ rest i

turn : (a b : String) → (a == b) ≡ (b == a)
turn a b = elim (Bool-cases (a == b)) [
  | inl same ↦ same ∙ sym ((eq_iff b a).1 (sym ((eq_iff a b).0 same)))
  | inr other ↦ ground (arith, other, eq_iff a b, eq_iff b a)
]

regroup : (a b : ℕ) → (a + 1) + b ≡ a + (1 + b)
regroup a b = omega arith

plus-increment :
    (here counted : Bool) (n : ℕ) (row : ShortLink)
    → counted ≡ false
    → plus n (if here then record row { visit_count = row.visit_count + 1 } else row)
      ≡ plus (if not counted && here then 1 + n else n) row
plus-increment here true n row h = cc
plus-increment true false n row h =
    ap (λ k. record row { visit_count = k }) (regroup row.visit_count n)
plus-increment false false n row h = refl

same_id :
    (here : Bool) (row : ShortLink)
    → (if here then record row { visit_count = row.visit_count + 1 } else row).id ≡ row.id
same_id true row = refl
same_id false row = refl

with_visits-increment :
    (event : ShortLinkVisitedEvent) (events : List ShortLinkVisitedEvent) (links : List ShortLink)
    → event.database_visit_count_incremented ≡ false
    → with_visits events (increment event.short_link_id links) ≡ with_visits (event ∷ events) links
unfolding increment number
with_visits-increment event events [] h = refl
with_visits-increment event events (row ∷ rows) h =
    let here : Bool = row.id == event.short_link_id in
    let flag : Bool = event.database_visit_count_incremented in
    let later : ShortLink =
      if here then record row { visit_count = row.visit_count + 1 } else row in
    let head : plus (number later.id events) later ≡ plus (number row.id (event ∷ events)) row =
      ap (λ id. plus (number id events) later) (same_id here row)
      ∙ plus-increment here flag (number row.id events) row h
      ∙ ap
          (λ b. plus (if not flag && b then 1 + number row.id events else number row.id events) row)
          (turn row.id event.short_link_id) in
    let rest = with_visits-increment event events rows h in λ i. head i ∷ rest i

with_visits-skip :
    (event : ShortLinkVisitedEvent) (events : List ShortLinkVisitedEvent) (links : List ShortLink)
    → event.database_visit_count_incremented ≡ true
    → with_visits events links ≡ with_visits (event ∷ events) links
unfolding number
with_visits-skip event events [] h = refl
with_visits-skip event events (row ∷ rows) h =
    let n : ℕ = number row.id events in
    let head : plus n row ≡ plus (number row.id (event ∷ events)) row =
      ap (λ b. plus (if not b && (event.short_link_id == row.id) then 1 + n else n) row) (sym h) in
    let rest = with_visits-skip event events rows h in λ i. head i ∷ rest i

record_visit-links :
    (event : ShortLinkVisitedEvent) (events : List ShortLinkVisitedEvent) (db : Database)
    → with_visits events (record_visit event db).links ≡ with_visits (event ∷ events) db.links
unfolding record_visit
record_visit-links event events db = elim (Bool-cases event.database_visit_count_incremented) [
  | inl counted ↦
      ap
        (λ (b : Bool).
          with_visits events (if b then db.links else increment event.short_link_id db.links))
        counted
      ∙ with_visits-skip event events db.links counted
  | inr new ↦
      ap
        (λ (b : Bool).
          with_visits events (if b then db.links else increment event.short_link_id db.links))
        new
      ∙ with_visits-increment event events db.links new
]

-- What deliveries leave: the visits of their first events, and the links with those visits.
abbrev pub Counted : List ShortLinkVisitedEvent → Database → Database → Type 0
Counted new before after =
    (after.visits ≡ rows_of new before.visits) × (after.links ≡ with_visits new before.links)

process_event-new :
    (event : ShortLinkVisitedEvent) (db : Database)
    → stored event.event_id db.visits ≡ false
    → (process_event false event db).1 ≡ record_visit event db
unfolding process_event
process_event-new event db h = rw h refl

process_event-fails :
    (event : ShortLinkVisitedEvent) (db : Database) → (process_event true event db).1 ≡ db
unfolding process_event
process_event-fails event db = refl

firsts-old :
    (seen : List String) (event : ShortLinkVisitedEvent)
    (later : List (Bool × ShortLinkVisitedEvent))
    → among event.event_id seen ≡ true
    → firsts seen ((false, event) ∷ later) ≡ firsts seen later
unfolding firsts
firsts-old seen event later h = rw h refl

firsts-new :
    (seen : List String) (event : ShortLinkVisitedEvent)
    (later : List (Bool × ShortLinkVisitedEvent))
    → among event.event_id seen ≡ false
    → firsts seen ((false, event) ∷ later) ≡ event ∷ firsts (event.event_id ∷ seen) later
unfolding firsts
firsts-new seen event later h = rw h refl

record_visit-Counted :
    (event : ShortLinkVisitedEvent) (events : List ShortLinkVisitedEvent) (db after : Database)
    → Counted events (record_visit event db) after
    → Counted (event ∷ events) db after
unfolding record_visit
record_visit-Counted event events db after (visits, links) =
    (visits, links ∙ record_visit-links event events db)

deliver_all-Counted :
    (deliveries : List (Bool × ShortLinkVisitedEvent)) (db : Database)
    → Counted (firsts (ids db.visits) deliveries) db (deliver_all deliveries db)
unfolding deliver_all firsts record_visit
deliver_all-Counted [] db = (refl, sym (with_visits-none db.links))
deliver_all-Counted ((true, event) ∷ later) db =
    let unchanged : (process_event true event db).1 ≡ db = process_event-fails event db in
    subst (λ d. Counted (firsts (ids db.visits) later) db (deliver_all later d)) (sym unchanged)
      (deliver_all-Counted later db)
deliver_all-Counted ((false, event) ∷ later) db =
    let held = stored-among event.event_id db.visits in
    elim (Bool-cases (among event.event_id (ids db.visits))) [
      | inl old ↦
          subst
            (λ d.
              Counted (firsts (ids db.visits) ((false, event) ∷ later)) db (deliver_all later d))
            (sym (process_event-duplicate false event db (held ∙ old)))
            (subst (λ new. Counted new db (deliver_all later db))
              (sym (firsts-old (ids db.visits) event later old)) (deliver_all-Counted later db))
      | inr new ↦
          subst
            (λ d.
              Counted (firsts (ids db.visits) ((false, event) ∷ later)) db (deliver_all later d))
            (sym (process_event-new event db (held ∙ new)))
            (subst (λ new. Counted new db (deliver_all later (record_visit event db)))
              (sym (firsts-new (ids db.visits) event later new))
              (record_visit-Counted event _ db _
                (deliver_all-Counted later (record_visit event db))))
    ]

-- Events are counted once. Deliveries in any number and order, some of which fail and change nothing,
-- store one visit for each event that was delivered without failing and was not stored before, and
-- add to each link's visit count the number of those of them that are for the link and that the
-- redirect did not count; nothing else of the links changes. After deliveries none of which failed,
-- and any further ones, the first can all be delivered again with no change to the visits and links.
pub deliver_all-once :
    (mixed deliveries others : List (Bool × ShortLinkVisitedEvent)) (db : Database)
    → All (λ d. d.0 ≡ false) deliveries
    → Counted (firsts (ids db.visits) mixed) db (deliver_all mixed db)
      × (deliver_all deliveries (deliver_all others (deliver_all deliveries db))
          ≡ deliver_all others (deliver_all deliveries db))
deliver_all-once mixed deliveries others db h =
    (deliver_all-Counted mixed db, deliver_all-again deliveries others db h)
