-- ===== src/Outbox/Tests.antt =====
-- The outbox at work.
use nest_shortlink_platform.Common.{ℕ, ◌+◌, refl, List, [], ◌∷◌, none, some, All, length, arith}
use nest_shortlink_platform.Outbox.{
  OutboxEvent, pending, published, Step, claims, settles, run, returning,
}
use nest_shortlink_platform.Outbox.Lifecycle.{IsValid, Kept, run-IsValidTable, run-Kept}
use nest_shortlink_platform.Outbox.Retries.{Ends, attempts_at, attempts_at-Ends}

abbrev event : OutboxEvent
event = record {
  id = "e1";
  event_type = "short-link.updated.v1";
  payload = "{}";
  status = pending;
  attempts = 0;
  next_attempt_at = 0;
  locked_at = none;
  locked_by = none;
  published_at = none;
  last_error = none;
}

abbrev sent : OutboxEvent
sent = record event { id = "e0"; status = published; published_at = some 5 }

abbrev steps : List Step
steps =
    claims "worker" 10 30000 50
    ∷ settles "worker" (returning event) (some "refused") 20
    ∷ claims "worker" 3000 30000 50
    ∷ settles "worker" (returning event) none 3010
    ∷ []

run-IsValidTable_example : All IsValid (run 10 (event ∷ []) steps)
run-IsValidTable_example = run-IsValidTable 10 (event ∷ []) steps ((refl, refl), tt)

run-Kept_example : Kept (sent ∷ event ∷ []) (run 10 (sent ∷ event ∷ []) steps)
run-Kept_example = run-Kept 10 (sent ∷ event ∷ []) steps

abbrev times : List ℕ
times = 0 ∷ 256000 ∷ []

attempts_at-Ends_example :
    Ends 1 (0 + length times) (attempts_at 1 "worker" 30000 "refused" times (event ∷ []))
attempts_at-Ends_example =
    attempts_at-Ends 1 30000 0 "worker" "refused" times event refl (omega arith) (omega arith)
      (omega arith, (omega arith, tt))
