-- ===== src/Outbox.antt =====
-- src/outbox-worker/outbox-relay.service.ts: the table OutboxEvent, and the statements by which the
-- workers claim its rows and settle them. Spans and metrics are left out.
pub mod Lifecycle
pub mod Retries
mod Tests
use nest_shortlink_platform.Common.{
  ℕ, zero, suc, ◌+◌, ◌-◌, ◌*◌, ◌^◌, String, List, [], ◌∷◌, Option, none, some, Bool, true, false,
  ◌&&◌, ◌||◌, ltb, leb, ◌==◌, string_eq, nat_eq, if◌then◌else◌,
}

pub data OutboxStatus : Type 0 where
  pending processing published dead : OutboxStatus

-- The payload is opaque; times are in milliseconds.
pub record OutboxEvent : Type 0 where
  pub id : String
  pub event_type : String
  pub payload : String
  pub status : OutboxStatus
  pub attempts : ℕ
  pub next_attempt_at : ℕ
  pub locked_at : Option ℕ
  pub locked_by : Option String
  pub published_at : Option ℕ
  pub last_error : Option String

pub record ClaimedOutboxEvent : Type 0 where
  pub id : String
  pub event_type : String
  pub attempts : ℕ
  pub payload : String

unfoldable pub lease_over : ℕ → ℕ → Option ℕ → Bool
lease_over now lease_ms none = false
lease_over now lease_ms (some at) = ltb (at + lease_ms) now

unfoldable pub open_to_claim : ℕ → ℕ → OutboxStatus → Option ℕ → Bool
unfolding lease_over
open_to_claim now lease_ms pending locked_at = true
open_to_claim now lease_ms processing locked_at = lease_over now lease_ms locked_at
open_to_claim now lease_ms published locked_at = false
open_to_claim now lease_ms dead locked_at = false

-- The `WHERE` of `claimBatch`.
unfoldable pub claimable : ℕ → ℕ → OutboxEvent → Bool
unfolding open_to_claim
claimable now lease_ms row =
    leb row.next_attempt_at now && open_to_claim now lease_ms row.status row.locked_at

-- Its `SET`.
abbrev pub claimed_by : String → ℕ → OutboxEvent → OutboxEvent
claimed_by worker now row = record row {
  status = processing;
  locked_at = some now;
  locked_by = some worker;
  attempts = row.attempts + 1;
}

-- Its `RETURNING`.
abbrev pub returning : OutboxEvent → ClaimedOutboxEvent
returning row = record {
  id = row.id;
  event_type = row.event_type;
  attempts = row.attempts + 1;
  payload = row.payload;
}

-- `claimBatch` as one atomic statement on a table in the order of `createdAt`: the events claimed,
-- and the table after.
unfoldable pub claim_batch :
    String → ℕ → ℕ → ℕ → List OutboxEvent → List ClaimedOutboxEvent × List OutboxEvent
unfolding claimable
claim_batch worker now lease_ms zero table = ([], table)
claim_batch worker now lease_ms (suc limit) [] = ([], [])
claim_batch worker now lease_ms (suc limit) (row ∷ table) =
    let (batch, after) = claim_batch worker now lease_ms limit table in
    let (others, passed) = claim_batch worker now lease_ms (suc limit) table in
    if claimable now lease_ms row
    then (returning row ∷ batch, claimed_by worker now row ∷ after)
    else (others, row ∷ passed)

unfoldable pub is_processing : OutboxStatus → Bool
is_processing processing = true
is_processing _ = false

unfoldable pub held_by : String → Option String → Bool
held_by worker none = false
held_by worker (some other) = other == worker

-- The `where` of both `updateMany`.
unfoldable pub is_held : String → String → OutboxEvent → Bool
unfolding is_processing held_by
is_held worker id row = (row.id == id) && is_processing row.status && held_by worker row.locked_by

unfoldable pub update_held :
    String → String → (OutboxEvent → OutboxEvent) → List OutboxEvent → List OutboxEvent
unfolding is_held
update_held worker id change [] = []
update_held worker id change (row ∷ table) =
    (if is_held worker id row then change row else row) ∷ update_held worker id change table

-- `publishOne`, once the broker has confirmed.
unfoldable pub mark_published :
    String → ClaimedOutboxEvent → ℕ → List OutboxEvent → List OutboxEvent
mark_published worker event now = update_held worker event.id (λ row. record row {
  status = published;
  published_at = some now;
  locked_at = none;
  locked_by = none;
  last_error = none;
})

unfoldable pub min : ℕ → ℕ → ℕ
min a b = if ltb a b then a else b

unfoldable pub delay_seconds : ℕ → ℕ
unfolding min
delay_seconds attempts = min 300 (2 ^ min attempts 8)

unfoldable pub is_dead : ℕ → ℕ → Bool
is_dead max_attempts attempts = ltb max_attempts attempts

-- `handleFailure`, with the first 4000 characters of the error.
unfoldable pub handle_failure :
    ℕ → String → ClaimedOutboxEvent → String → ℕ → List OutboxEvent → List OutboxEvent
unfolding is_dead delay_seconds
handle_failure max_attempts worker event message now = update_held worker event.id (λ row.
    record row {
      status = if is_dead max_attempts event.attempts then dead else pending;
      next_attempt_at = now + delay_seconds event.attempts * 1000;
      locked_at = none;
      locked_by = none;
      last_error = some message;
    })

-- `publishOne`: the broker confirms, or publishing fails with a message.
unfoldable pub publish_one :
    ℕ → String → ClaimedOutboxEvent → Option String → ℕ → List OutboxEvent → List OutboxEvent
publish_one max_attempts worker event none now = mark_published worker event now
publish_one max_attempts worker event (some message) now =
    handle_failure max_attempts worker event message now

-- What the workers do to the table, one statement after another, in whatever order.
pub data Step : Type 0 where
  claims : (worker : String) (now lease_ms batch_size : ℕ) → Step
  settles :
      (worker : String) (event : ClaimedOutboxEvent) (failure : Option String) (now : ℕ) → Step

unfoldable pub step : ℕ → List OutboxEvent → Step → List OutboxEvent
step max_attempts table (claims worker now lease_ms batch_size) =
    (claim_batch worker now lease_ms batch_size table).1
step max_attempts table (settles worker event failure now) =
    publish_one max_attempts worker event failure now table

unfoldable pub run : ℕ → List OutboxEvent → List Step → List OutboxEvent
unfolding step
run max_attempts table [] = table
run max_attempts table (s ∷ steps) = run max_attempts (step max_attempts table s) steps
