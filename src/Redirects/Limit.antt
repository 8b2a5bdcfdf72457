-- ===== src/Redirects/Limit.antt =====
-- The `UPDATE` of `resolveLimited` in src/redirects/redirects.service.ts, as one atomic statement on
-- the table, and how many visits it lets through.
use nest_shortlink_platform.Common.{
  ℕ, ◌+◌, ◌-◌, ◌≤◌, ◌≡◌, refl, ◌∙◌, List, [], ◌∷◌, Option, none, some, Bool, true, false, not, ◌&&◌,
  ltb, ◌==◌, string_eq, nat_eq, eq_iff, nat_beq_iff, sym, ap, if◌then◌else◌, Bool-cases, inl, inr,
  arith, All, length,
}
use nest_shortlink_platform.Links.{ShortLink}
use nest_shortlink_platform.Cache.Redirect.{active, RedirectSnapshot}
use nest_shortlink_platform.Redirects.{RedirectRow, expired, is_active}

unfoldable pub visits_left : Option ℕ → ℕ → Bool
visits_left none visits = false
visits_left (some limit) visits = ltb visits limit

-- The condition of the statement, at a time of the database.
unfoldable pub may_visit : RedirectSnapshot → ℕ → ShortLink → Bool
unfolding visits_left
may_visit snapshot now row =
    (row.id == snapshot.id)
    && (row.code == snapshot.code)
    && is_active row.status
    && (row.access_version == snapshot.access_version)
    && not (expired row.expires_at now)
    && visits_left row.max_visits row.visit_count

abbrev pub visited : ShortLink → ShortLink
visited row = record row { visit_count = row.visit_count + 1 }

-- The rows returned, and the table after the statement.
unfoldable pub limited_update :
    RedirectSnapshot → ℕ → List ShortLink → List RedirectRow × List ShortLink
unfolding may_visit
limited_update snapshot now [] = ([], [])
limited_update snapshot now (row ∷ table) =
    let (rows, rest) = limited_update snapshot now table in
    if may_visit snapshot now row
    then (
      record { original_url = row.original_url; visit_count = row.visit_count + 1 } ∷ rows,
      visited row ∷ rest,
    )
    else (rows, row ∷ rest)

-- Redirects one after another, as the database orders them; each holds a snapshot of its own, which
-- may be stale.
abbrev pub Visits : Type 0
Visits = List (RedirectSnapshot × ℕ)

pub after : Visits → List ShortLink → List ShortLink
after [] table = table
after ((snapshot, now) ∷ later) table = after later (limited_update snapshot now table).1

pub granted : Visits → List ShortLink → ℕ
granted [] table = 0
granted ((snapshot, now) ∷ later) table =
    length (limited_update snapshot now table).0
    + granted later (limited_update snapshot now table).1

abbrev WithinAt : Option ℕ → ℕ → Type 0
WithinAt none visits = Unit {0}
WithinAt (some limit) visits = visits ≤ limit

abbrev pub WithinLimit : ShortLink → Type 0
WithinLimit row = WithinAt row.max_visits row.visit_count

pub total : List ShortLink → ℕ
total [] = 0
total (row ∷ table) = row.visit_count + total table

visits_left-Within :
    (limit : Option ℕ) (visits : ℕ) → visits_left limit visits ≡ true → WithinAt limit (visits + 1)
unfolding visits_left
visits_left-Within none visits h = tt
visits_left-Within (some limit) visits h = ground arith

and-right : (a b : Bool) → (a && b) ≡ true → b ≡ true
and-right a b h = ground arith

may_visit-Within :
    (snapshot : RedirectSnapshot) (now : ℕ) (row : ShortLink)
    → may_visit snapshot now row ≡ true
    → WithinLimit (visited row)
unfolding may_visit
may_visit-Within snapshot now row h =
    visits_left-Within row.max_visits row.visit_count (ground (arith, h))

update_lem :
    (snapshot : RedirectSnapshot) (now : ℕ) (table : List ShortLink)
    → All WithinLimit table
    → All WithinLimit (limited_update snapshot now table).1
      × (total (limited_update snapshot now table).1
          ≡ total table + length (limited_update snapshot now table).0)
unfolding limited_update total
update_lem snapshot now [] h = (tt, refl)
update_lem snapshot now (row ∷ table) (h, hs) =
    let (kept, counted) = update_lem snapshot now table hs in
    elim (Bool-cases (may_visit snapshot now row)) [
      | inl passes ↦
          rw passes ((may_visit-Within snapshot now row passes, kept), omega (arith, counted))
      | inr fails ↦ rw fails ((h, kept), omega (arith, counted))
    ]

-- However many redirects come, with whatever snapshots and at whatever times: the visits counted
-- are exactly those let through, and no link is visited more often than its limit allows, if none
-- was before.
pub after-WithinLimit :
    (visits : Visits) (table : List ShortLink)
    → All WithinLimit table
    → All WithinLimit (after visits table)
      × (total (after visits table) ≡ total table + granted visits table)
unfolding after granted
after-WithinLimit [] table h = (h, omega arith)
after-WithinLimit ((snapshot, now) ∷ later) table h =
    let (kept, counted) = update_lem snapshot now table h in
    let (last, sum) = after-WithinLimit later (limited_update snapshot now table).1 kept in
    (last, omega (arith, counted, sum))

-- The snapshot is of the row as it stands, and the row is not expired.
abbrev pub Current : ShortLink → RedirectSnapshot × ℕ → Type 0
Current row visit =
    (visit.0.id ≡ row.id)
    × (visit.0.code ≡ row.code)
    × (visit.0.access_version ≡ row.access_version)
    × (expired row.expires_at visit.1 ≡ false)

last_test :
    (a b c d e f : Bool)
    → a ≡ true
    → b ≡ true
    → c ≡ true
    → d ≡ true
    → e ≡ false
    → (a && b && c && d && not e && f) ≡ f
last_test a b c d e f h i j k l = ground arith

may_visit-Current :
    (row : ShortLink) (snapshot : RedirectSnapshot) (now : ℕ)
    → row.status ≡ active
    → Current row (snapshot, now)
    → may_visit snapshot now row ≡ visits_left row.max_visits row.visit_count
unfolding may_visit is_active
may_visit-Current row snapshot now live (i, c, v, e) =
    last_test (row.id == snapshot.id) (row.code == snapshot.code) (is_active row.status)
      (row.access_version == snapshot.access_version) (expired row.expires_at now) _
      ((eq_iff row.id snapshot.id).1 (sym i)) ((eq_iff row.code snapshot.code).1 (sym c))
      (ap is_active live) ((nat_beq_iff row.access_version snapshot.access_version).1 (sym v)) e

-- The visits that a limit leaves.
abbrev pub left_of : ℕ → ShortLink → ℕ
left_of limit row = limit - row.visit_count

-- Redirects to one active link that has a limit, each with a snapshot of its id, code and access
-- version and at a time at which the link is not expired: all of them pass, or exactly as many as
-- the limit still allows, whichever is less.
pub granted_row :
    (visits : Visits) (row : ShortLink) (limit : ℕ)
    → row.max_visits ≡ some limit
    → row.status ≡ active
    → All (Current row) visits
    → granted visits (row ∷ [])
      ≡ (if ltb (length visits) (left_of limit row) then length visits else left_of limit row)
unfolding granted limited_update
granted_row [] row limit m live h = ground arith
granted_row ((snapshot, now) ∷ later) row limit m live (h, hs) =
    let test : may_visit snapshot now row ≡ ltb row.visit_count limit =
      may_visit-Current row snapshot now live h ∙ ap (λ l. visits_left l row.visit_count) m in
    elim (Bool-cases (ltb row.visit_count limit)) [
      | inl free ↦ rw (test, free) (grind (arith, granted_row later (visited row) limit m live hs))
      | inr full ↦ rw (test, full) (grind (arith, granted_row later row limit m live hs))
    ]
