-- ===== src/Cache/Bootstrap.antt =====
-- src/cache/short-link-bloom-bootstrap.service.ts: the codes of all links are put into the filter in
-- batches when the application starts. The table is a list in the order of its ids, and does not
-- change meanwhile.
pub mod Groups
pub mod Pages
pub mod Complete
mod Tests
use nest_shortlink_platform.Common.{
  ℕ, zero, suc, String, List, [], ◌∷◌, length, map, Option, none, some, Bool, true, false, ltb,
  ◌==◌, string_eq, if◌then◌else◌,
}
use nest_shortlink_platform.Common.Effects.{
  Outcome, ok, threw, Eff, pure, throw, ◌>>=◌, ◌>>◌, catch,
}
use nest_shortlink_platform.Http.{truthy}
use nest_shortlink_platform.Cache.{Shared, Outside}
use nest_shortlink_platform.Cache.Bloom.{initialize_buckets, add_many, mark_ready, mark_not_ready}

-- What is selected of a link.
pub record Row : Type 0 where
  pub id : String
  pub code : String

abbrev pub batch_size : ℕ
batch_size = 500

abbrev pub take : ℕ → List Row → List Row
take n [] = []
take zero (row ∷ rows) = []
take (suc n) (row ∷ rows) = row ∷ take n rows

-- `cursor` and `skip: 1`: the rows after the one with an id.
unfoldable pub after : String → List Row → List Row
after id [] = []
after id (row ∷ rows) = let rest = after id rows in if row.id == id then rows else rest

-- The rows from the cursor on; an empty text is no cursor.
unfoldable pub from_cursor : Option String → List Row → List Row
unfolding after truthy
from_cursor none rows = rows
from_cursor (some id) rows = if truthy (some id) then after id rows else rows

-- A page, or the exception of a query that fails.
unfoldable pub find_many :
    {E R : Type 0} → Option E → Option String → List Row → Eff E (Shared R) (List Row)
unfolding from_cursor
find_many none cursor rows = pure (take batch_size (from_cursor cursor rows))
find_many (some e) cursor rows = throw e

-- `links[links.length - 1]`.
abbrev pub last_of : Row → List Row → Row
last_of row [] = row
last_of row (next ∷ rows) = last_of next rows

abbrev pub codes_of : List Row → List String
codes_of rows = map (λ row. row.code) rows

module _ {E R : Type 0} where
  -- A page that is not full is the last.
  unfoldable pub go_on : Bool → Eff E (Shared R) Bool → Eff E (Shared R) Bool
  go_on true next = pure true
  go_on false next = next

module _ {E R : Type 0} (o : Outside E R) where
  -- A round of the loop with the links of a page; `next` is the rest of the loop from a cursor on.
  unfoldable pub load_page :
      List Row → (Option String → Eff E (Shared R) Bool) → Eff E (Shared R) Bool
  unfolding go_on
  load_page [] next = pure true
  load_page (row ∷ page) next = do
    add_many o (codes_of (row ∷ page))
    go_on (ltb (length (row ∷ page)) batch_size) (next (some (last_of row page).id))

  -- The `while` loop; false where the fuel runs out. `query_fails` says with which exception, if any,
  -- the query from a cursor on fails.
  unfoldable pub load :
      (Option String → Option E) → List Row → ℕ → Option String → Eff E (Shared R) Bool
  unfolding load_page find_many
  load query_fails rows zero cursor = pure false
  load query_fails rows (suc fuel) cursor = do
    page ← find_many (query_fails cursor) cursor rows
    load_page page (load query_fails rows fuel)

  unfoldable pub finish : Bool → Eff E (Shared R) Bool
  unfolding mark_ready
  finish false = pure false
  finish true = mark_ready o >> pure true

  -- `onApplicationBootstrap`, with the fuel of the loop.
  unfoldable pub on_application_bootstrap :
      (E → Bool) → (Option String → Option E) → List Row → ℕ → Eff E (Shared R) Bool
  unfolding load finish mark_not_ready initialize_buckets
  on_application_bootstrap says_exists query_fails rows fuel =
      mark_not_ready o
      >> catch (initialize_buckets o says_exists >> (load query_fails rows fuel none >>= finish))
          (λ e. mark_not_ready o >> pure true)
