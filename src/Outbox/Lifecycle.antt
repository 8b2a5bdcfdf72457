-- ===== src/Outbox/Lifecycle.antt =====
-- The lifecycle of an event in the outbox.
use nest_shortlink_platform.Common.{
  ℕ, zero, suc, ◌≡◌, ◌≢◌, refl, sym, ◌∙◌, String, List, [], ◌∷◌, Option, none, some, Bool, true,
  false, string_eq, nat_eq, if◌then◌else◌, if_elim, arith, All,
}
use mathlib.Core.Path.{subst}
use nest_shortlink_platform.Outbox.{
  OutboxStatus, pending, processing, published, dead, OutboxEvent, ClaimedOutboxEvent, claimable,
  open_to_claim, claim_batch, is_held, is_processing, update_held, mark_published, is_dead,
  handle_failure, publish_one, Step, claims, settles, step, run,
}

abbrev Locked : Option ℕ → Option String → Type 0
Locked (some at) (some worker) = Unit {0}
Locked _ _ = ⊥

abbrev IsValidAt : OutboxStatus → Option ℕ → Option String → Option ℕ → Option String → Type 0
IsValidAt pending at by since error = (at ≡ none) × (by ≡ none)
IsValidAt processing at by since error = Locked at by
IsValidAt published at by since error = (at ≡ none) × (by ≡ none) × (since ≢ none) × (error ≡ none)
IsValidAt dead at by since error = (at ≡ none) × (by ≡ none) × (error ≢ none)

-- A row is locked, by a worker and since some time, exactly while it is processed; a published row
-- has its time and no error; a dead row keeps its error.
abbrev pub IsValid : OutboxEvent → Type 0
IsValid row = IsValidAt row.status row.locked_at row.locked_by row.published_at row.last_error

claim_batch-IsValid :
    (worker : String) (now lease_ms limit : ℕ) (table : List OutboxEvent)
    → All IsValid table
    → All IsValid (claim_batch worker now lease_ms limit table).1
unfolding claim_batch
claim_batch-IsValid worker now lease_ms zero table h = h
claim_batch-IsValid worker now lease_ms (suc limit) [] h = tt
claim_batch-IsValid worker now lease_ms (suc limit) (row ∷ table) (h, hs) =
    if_elim {A = List ClaimedOutboxEvent × List OutboxEvent} (λ r. All IsValid r.1)
      (claimable now lease_ms row) _ _
      (λ _. (tt, claim_batch-IsValid worker now lease_ms limit table hs))
      (λ _. (h, claim_batch-IsValid worker now lease_ms (suc limit) table hs))

update_held-IsValid :
    (worker id : String) (change : OutboxEvent → OutboxEvent) (table : List OutboxEvent)
    → ((row : OutboxEvent) → IsValid (change row))
    → All IsValid table
    → All IsValid (update_held worker id change table)
unfolding update_held
update_held-IsValid worker id change [] k h = tt
update_held-IsValid worker id change (row ∷ table) k (h, hs) = (
  if_elim IsValid (is_held worker id row) _ _ (λ _. k row) (λ _. h),
  update_held-IsValid worker id change table k hs,
)

failed_valid :
    (b : Bool) (since : Option ℕ) (message : String)
    → IsValidAt (if b then dead else pending) none none since (some message)
failed_valid true since message = (refl, refl, λ e. cc)
failed_valid false since message = (refl, refl)

step-IsValid :
    (max_attempts : ℕ) (table : List OutboxEvent) (s : Step)
    → All IsValid table
    → All IsValid (step max_attempts table s)
unfolding step publish_one mark_published handle_failure
step-IsValid max_attempts table (claims worker now lease_ms size) h =
    claim_batch-IsValid worker now lease_ms size table h
step-IsValid max_attempts table (settles worker event none now) h =
    update_held-IsValid worker event.id _ table (λ row. (refl, refl, λ e. cc, refl)) h
step-IsValid max_attempts table (settles worker event (some message) now) h =
    update_held-IsValid worker event.id _ table
      (λ row. failed_valid (is_dead max_attempts event.attempts) row.published_at message) h

-- Whatever the workers do, in whatever order and at whatever times: if every row of the table is
-- valid, then every row stays valid.
pub run-IsValidTable :
    (max_attempts : ℕ) (table : List OutboxEvent) (steps : List Step)
    → All IsValid table
    → All IsValid (run max_attempts table steps)
unfolding run
run-IsValidTable max_attempts table [] h = h
run-IsValidTable max_attempts table (s ∷ steps) h =
    run-IsValidTable max_attempts (step max_attempts table s) steps
      (step-IsValid max_attempts table s h)

abbrev pub Settled : OutboxStatus → Type 0
Settled published = Unit {0}
Settled dead = Unit {0}
Settled _ = ⊥

-- A later state of a row: the same event, and if the row is settled, the same row.
abbrev pub Follows : OutboxEvent → OutboxEvent → Type 0
Follows row later =
    (Settled row.status → later ≡ row)
    × (later.id ≡ row.id)
    × (later.event_type ≡ row.event_type)
    × (later.payload ≡ row.payload)

-- The rows of two tables, one by one.
abbrev pub Kept : List OutboxEvent → List OutboxEvent → Type 0
Kept [] [] = Unit {0}
Kept (row ∷ table) (later ∷ after) = Follows row later × Kept table after
Kept _ _ = ⊥

Follows-refl : (row : OutboxEvent) → Follows row row
Follows-refl row = (λ _. refl, refl, refl, refl)

Follows-trans : (x y z : OutboxEvent) → Follows x y → Follows y z → Follows x z
Follows-trans x y z (h, i, t, p) (k, j, u, q) = (
  λ settled.
      k (subst (λ (row : OutboxEvent). Settled row.status) (sym (h settled)) settled) ∙ h settled,
  j ∙ i,
  u ∙ t,
  q ∙ p,
)

Kept-refl : (table : List OutboxEvent) → Kept table table
Kept-refl [] = tt
Kept-refl (row ∷ table) = (Follows-refl row, Kept-refl table)

Kept-trans : (a b c : List OutboxEvent) → Kept a b → Kept b c → Kept a c
Kept-trans [] [] [] h k = tt
Kept-trans [] [] (z ∷ c) h k = absurd k
Kept-trans [] (y ∷ b) c h k = absurd h
Kept-trans (x ∷ a) [] c h k = absurd h
Kept-trans (x ∷ a) (y ∷ b) [] h k = absurd k
Kept-trans (x ∷ a) (y ∷ b) (z ∷ c) (h, hs) (k, ks) =
    (Follows-trans x y z h k, Kept-trans a b c hs ks)

open_to_claim-Settled :
    (now lease_ms : ℕ) (status : OutboxStatus) (at : Option ℕ)
    → Settled status
    → open_to_claim now lease_ms status at ≡ false
unfolding open_to_claim
open_to_claim-Settled now lease_ms published at h = refl
open_to_claim-Settled now lease_ms dead at h = refl
open_to_claim-Settled now lease_ms pending at h = absurd h
open_to_claim-Settled now lease_ms processing at h = absurd h

claimable-Settled :
    (now lease_ms : ℕ) (row : OutboxEvent)
    → claimable now lease_ms row ≡ true
    → Settled row.status
    → ⊥
unfolding claimable
claimable-Settled now lease_ms row h settled =
    ground (arith, open_to_claim-Settled now lease_ms row.status row.locked_at settled)

is_processing-Settled : (status : OutboxStatus) → is_processing status ≡ true → Settled status → ⊥
unfolding is_processing
is_processing-Settled processing h k = k
is_processing-Settled pending h k = k
is_processing-Settled published h k = cc
is_processing-Settled dead h k = cc

is_held-Settled :
    (worker id : String) (row : OutboxEvent) → is_held worker id row ≡ true → Settled row.status → ⊥
unfolding is_held
is_held-Settled worker id row h settled = is_processing-Settled row.status (ground arith) settled

claim_batch-Kept :
    (worker : String) (now lease_ms limit : ℕ) (table : List OutboxEvent)
    → Kept table (claim_batch worker now lease_ms limit table).1
unfolding claim_batch
claim_batch-Kept worker now lease_ms zero table = Kept-refl table
claim_batch-Kept worker now lease_ms (suc limit) [] = tt
claim_batch-Kept worker now lease_ms (suc limit) (row ∷ table) =
    if_elim {A = List ClaimedOutboxEvent × List OutboxEvent} (λ r. Kept (row ∷ table) r.1)
      (claimable now lease_ms row) _ _
      (λ h. (
        (λ settled. absurd (claimable-Settled now lease_ms row h settled), refl, refl, refl),
        claim_batch-Kept worker now lease_ms limit table,
      ))
      (λ _. (Follows-refl row, claim_batch-Kept worker now lease_ms (suc limit) table))

-- A change that leaves the columns of the event alone.
abbrev SameEvent : (OutboxEvent → OutboxEvent) → Type 0
SameEvent change =
    (row : OutboxEvent)
    → ((change row).id ≡ row.id)
      × ((change row).event_type ≡ row.event_type)
      × ((change row).payload ≡ row.payload)

update_held-Kept :
    (worker id : String) (change : OutboxEvent → OutboxEvent) (table : List OutboxEvent)
    → SameEvent change
    → Kept table (update_held worker id change table)
unfolding update_held
update_held-Kept worker id change [] same = tt
update_held-Kept worker id change (row ∷ table) same = (
  if_elim (Follows row) (is_held worker id row) (change row) row
      (λ h.
        let (i, t, p) = same row in
        ((λ settled. absurd (is_held-Settled worker id row h settled)), i, t, p))
      (λ _. Follows-refl row),
  update_held-Kept worker id change table same,
)

step-Kept :
    (max_attempts : ℕ) (table : List OutboxEvent) (s : Step)
    → Kept table (step max_attempts table s)
unfolding step publish_one mark_published handle_failure
step-Kept max_attempts table (claims worker now lease_ms size) =
    claim_batch-Kept worker now lease_ms size table
step-Kept max_attempts table (settles worker event none now) =
    update_held-Kept worker event.id _ table (λ row. (refl, refl, refl))
step-Kept max_attempts table (settles worker event (some message) now) =
    update_held-Kept worker event.id _ table (λ row. (refl, refl, refl))

-- Whatever the workers do, in whatever order: the table has the same events in the same places, with
-- their ids, types and payloads, and a row that is published or dead stays entirely as it is.
pub run-Kept :
    (max_attempts : ℕ) (table : List OutboxEvent) (steps : List Step)
    → Kept table (run max_attempts table steps)
unfolding run
run-Kept max_attempts table [] = Kept-refl table
run-Kept max_attempts table (s ∷ steps) =
    Kept-trans table (step max_attempts table s)
      (run max_attempts (step max_attempts table s) steps) (step-Kept max_attempts table s)
      (run-Kept max_attempts (step max_attempts table s) steps)
