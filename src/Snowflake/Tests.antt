-- ===== src/Snowflake/Tests.antt =====
-- The generator at concrete clocks.
use nest_shortlink_platform.Common.{
  ℕ, ◌+◌, ◌*◌, ◌^◌, ◌/◌, ◌%◌, ◌≡◌, ◌≢◌, refl, some, none, List, [], ◌∷◌, arith, All,
}
use nest_shortlink_platform.Snowflake.{
  SnowflakeGenerator, new_generator, next_id, issue_all, compose, wait_next_millis, machine_bits,
  sequence_bits, timestamp_shift,
}
use nest_shortlink_platform.Snowflake.Fields.{compose_fields}
use nest_shortlink_platform.Snowflake.Increasing.{
  IsIncreasing, Names, issue_all-IsIncreasing, machines_disjoint,
}

abbrev third_machine : SnowflakeGenerator
third_machine = record { machine_id = 3; last_timestamp = none; sequence = 0 }

abbrev fourth_machine : SnowflakeGenerator
fourth_machine = record { machine_id = 4; last_timestamp = none; sequence = 0 }

-- The clock stands still, steps back and goes on.
abbrev clock : List ℕ
clock = 5 ∷ 5 ∷ 4 ∷ 6 ∷ []

three_ids :
    issue_all 4 third_machine clock
    ≡ (5 * 2 ^ 22 + 3 * 4096) ∷ (5 * 2 ^ 22 + 3 * 4096 + 1) ∷ (6 * 2 ^ 22 + 3 * 4096) ∷ []
unfolding issue_all next_id compose
three_ids = refl

-- At the end of the sequence the generator waits for the next millisecond.
last_of_millisecond :
    issue_all 1
      (record { machine_id = 0; last_timestamp = some 7; sequence = 4095 })
      (7 ∷ 7 ∷ 8 ∷ [])
    ≡ (8 * 2 ^ 22) ∷ []
unfolding issue_all next_id compose wait_next_millis
last_of_millisecond = refl

compose_fields_example :
    (compose 9 1023 4095 / 2 ^ timestamp_shift ≡ 9)
    × (compose 9 1023 4095 / 2 ^ sequence_bits % 2 ^ machine_bits ≡ 1023)
    × (compose 9 1023 4095 % 2 ^ sequence_bits ≡ 4095)
compose_fields_example = compose_fields 9 1023 4095 (omega arith) (omega arith)

third_machine_starts : new_generator 3 ≡ some third_machine
unfolding new_generator
third_machine_starts = refl

fourth_machine_starts : new_generator 4 ≡ some fourth_machine
unfolding new_generator
fourth_machine_starts = refl

issue_all-IsIncreasing_example :
    IsIncreasing 0 (issue_all 4 third_machine clock)
    × All (Names 3) (issue_all 4 third_machine clock)
issue_all-IsIncreasing_example = issue_all-IsIncreasing 3 4 third_machine clock third_machine_starts

machines_disjoint_example :
    All (λ a. All (λ b. a ≢ b) (issue_all 2 fourth_machine clock)) (issue_all 4 third_machine clock)
machines_disjoint_example =
    machines_disjoint 3 4 4 2 third_machine fourth_machine clock clock (omega arith)
      third_machine_starts fourth_machine_starts
