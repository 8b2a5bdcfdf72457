-- ===== src/Outbox/Retries.antt =====
-- How often an event whose publishing keeps failing is tried, and how long between.
use nest_shortlink_platform.Common.{
  ℕ, suc, ◌+◌, ◌*◌, ◌^◌, ◌≤◌, ◌≡◌, refl, sym, ap, ◌∙◌, String, List, [], ◌∷◌, none, some, true,
  false, ltb, string_eq, eq_iff, if◌then◌else◌, Bool-cases, inl, inr, arith, length,
}
use mathlib.Core.Path.{subst}
use native.Mathlib.Nat.{pow-le-pow_right}
use nest_shortlink_platform.Outbox.{
  pending, dead, OutboxEvent, ClaimedOutboxEvent, claimable, open_to_claim, claimed_by, claim_batch,
  is_held, is_processing, held_by, update_held, returning, delay_seconds, min, is_dead,
  handle_failure,
}

fail_first : ℕ → String → String → ℕ → List ClaimedOutboxEvent × List OutboxEvent → List OutboxEvent
fail_first max_attempts worker message now ([], claimed) = claimed
fail_first max_attempts worker message now ((event ∷ batch), claimed) =
    handle_failure max_attempts worker event message now claimed

-- One attempt of a worker at the head of the table: it claims an event, if one is due, and fails
-- to publish it.
pub attempt : ℕ → String → ℕ → String → ℕ → List OutboxEvent → List OutboxEvent
unfolding fail_first
attempt max_attempts worker lease_ms message now table =
    fail_first max_attempts worker message now (claim_batch worker now lease_ms 1 table)

pub attempts_at : ℕ → String → ℕ → String → List ℕ → List OutboxEvent → List OutboxEvent
attempts_at max_attempts worker lease_ms message [] table = table
attempts_at max_attempts worker lease_ms message (now ∷ later) table =
    attempts_at max_attempts worker lease_ms message later
      (attempt max_attempts worker lease_ms message now table)

abbrev failed : ℕ → String → ℕ → OutboxEvent → OutboxEvent
failed max_attempts message now row = record row {
  status = if is_dead max_attempts (row.attempts + 1) then dead else pending;
  attempts = row.attempts + 1;
  next_attempt_at = now + delay_seconds (row.attempts + 1) * 1000;
  locked_at = none;
  locked_by = none;
  last_error = some message;
}

claimable_due :
    (lease_ms now : ℕ) (row : OutboxEvent)
    → row.status ≡ pending
    → row.next_attempt_at ≤ now
    → claimable now lease_ms row ≡ true
unfolding claimable open_to_claim
claimable_due lease_ms now row h due = ground arith

is_held-claimed_by :
    (worker : String) (now : ℕ) (row : OutboxEvent)
    → is_held worker row.id (claimed_by worker now row) ≡ true
unfolding is_held is_processing held_by
is_held-claimed_by worker now row =
    ground (arith, (eq_iff row.id row.id).1 refl, (eq_iff worker worker).1 refl)

claim_one :
    (lease_ms now : ℕ) (worker : String) (row : OutboxEvent)
    → claimable now lease_ms row ≡ true
    → claim_batch worker now lease_ms 1 (row ∷ [])
      ≡ (returning row ∷ [], claimed_by worker now row ∷ [])
unfolding claim_batch
claim_one lease_ms now worker row h = rw (h, claim_batch) refl

claim_none :
    (lease_ms now : ℕ) (worker : String) (row : OutboxEvent)
    → claimable now lease_ms row ≡ false
    → claim_batch worker now lease_ms 1 (row ∷ []) ≡ ([], row ∷ [])
unfolding claim_batch
claim_none lease_ms now worker row h = rw (h, claim_batch) refl

fail_claimed :
    (max_attempts now : ℕ) (worker message : String) (row : OutboxEvent)
    → handle_failure max_attempts worker
        (returning row)
        message
        now
        (claimed_by worker now row ∷ [])
      ≡ failed max_attempts message now row ∷ []
unfolding handle_failure update_held
fail_claimed max_attempts now worker message row =
    rw (is_held-claimed_by worker now row, handle_failure, update_held) refl

attempt_due :
    (max_attempts lease_ms now : ℕ) (worker message : String) (row : OutboxEvent)
    → row.status ≡ pending
    → row.next_attempt_at ≤ now
    → attempt max_attempts worker lease_ms message now (row ∷ [])
      ≡ failed max_attempts message now row ∷ []
unfolding attempt
attempt_due max_attempts lease_ms now worker message row h due =
    ap (fail_first max_attempts worker message now)
      (claim_one lease_ms now worker row (claimable_due lease_ms now row h due))
    ∙ fail_claimed max_attempts now worker message row

claimable_dead :
    (lease_ms now : ℕ) (row : OutboxEvent) → row.status ≡ dead → claimable now lease_ms row ≡ false
unfolding claimable open_to_claim
claimable_dead lease_ms now row h = ground arith

attempt_dead :
    (max_attempts lease_ms now : ℕ) (worker message : String) (row : OutboxEvent)
    → row.status ≡ dead
    → attempt max_attempts worker lease_ms message now (row ∷ []) ≡ row ∷ []
unfolding attempt
attempt_dead max_attempts lease_ms now worker message row h =
    ap (fail_first max_attempts worker message now)
      (claim_none lease_ms now worker row (claimable_dead lease_ms now row h))

min-le : (a b : ℕ) → min a b ≤ b
unfolding min
min-le a b = ground arith

-- A failed event waits at most 256 seconds: the cap of 300 is never reached.
delay_seconds_bound : (attempts : ℕ) → delay_seconds attempts ≤ 256
unfolding delay_seconds
delay_seconds_bound attempts =
    let power : 2 ^ min attempts 8 ≤ 2 ^ 8 =
      pow-le-pow_right {n = 2} (omega arith) (min-le attempts 8) in
    omega (arith, power, min-le 300 (2 ^ min attempts 8))

-- Times of which the first is not before `due`, and each is 256 seconds after the last, or more.
abbrev pub Spaced : ℕ → List ℕ → Type 0
Spaced due [] = Unit {0}
Spaced due (now ∷ later) = (due ≤ now) × Spaced (now + 256000) later

abbrev pub Ends : ℕ → ℕ → List OutboxEvent → Type 0
Ends max_attempts tries table =
    (last : OutboxEvent) × (table ≡ last ∷ [])
    × (last.status ≡ (if ltb max_attempts tries then dead else pending))
    × (last.attempts ≡ (if ltb max_attempts tries then max_attempts + 1 else tries))

attempts_at-dead :
    (max_attempts lease_ms : ℕ) (worker message : String) (times : List ℕ) (row : OutboxEvent)
    → row.status ≡ dead
    → attempts_at max_attempts worker lease_ms message times (row ∷ []) ≡ row ∷ []
unfolding attempts_at
attempts_at-dead max_attempts lease_ms worker message [] row h = refl
attempts_at-dead max_attempts lease_ms worker message (now ∷ later) row h =
    ap (attempts_at max_attempts worker lease_ms message later)
      (attempt_dead max_attempts lease_ms now worker message row h)
    ∙ attempts_at-dead max_attempts lease_ms worker message later row h

-- If an event is pending and has been tried at most `max_attempts` times, and a worker tries it at
-- times of which the first is not before it is due and each is 256 seconds after the last or more,
-- and publishing fails each time: then every attempt counts until the event has been tried
-- `max_attempts` + 1 times, and it is dead from then on and pending before.
pub attempts_at-Ends :
    (max_attempts lease_ms due : ℕ) (worker message : String) (times : List ℕ) (row : OutboxEvent)
    → row.status ≡ pending
    → row.attempts ≤ max_attempts
    → row.next_attempt_at ≤ due
    → Spaced due times
    → Ends max_attempts
        (row.attempts + length times)
        (attempts_at max_attempts worker lease_ms message times (row ∷ []))
unfolding attempts_at is_dead
attempts_at-Ends max_attempts lease_ms due worker message [] row h few next s =
    (row, refl, h ∙ ground arith, ground arith)
attempts_at-Ends max_attempts lease_ms due worker message (now ∷ later) row h few next (early, s) =
    subst
      (λ table.
        Ends max_attempts (row.attempts + suc (length later))
          (attempts_at max_attempts worker lease_ms message later table))
      (sym (attempt_due max_attempts lease_ms now worker message row h (omega arith)))
      (elim (Bool-cases (ltb max_attempts (row.attempts + 1))) [
        | inl over ↦ (
          failed max_attempts message now row,
          attempts_at-dead max_attempts lease_ms worker message later
              (failed max_attempts message now row) (rw over refl),
          ground arith,
          ground arith,
        )
        | inr again ↦
            subst
              (λ n. Ends max_attempts n (
                attempts_at max_attempts worker lease_ms message later
                  (failed max_attempts message now row ∷ [])))
              (omega arith)
              (attempts_at-Ends max_attempts lease_ms (now + 256000) worker message later
                (failed max_attempts message now row) (rw again refl) (ground arith)
                (omega (arith, delay_seconds_bound (row.attempts + 1))) s)
      ])
