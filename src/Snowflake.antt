-- ===== src/Snowflake.antt =====
-- src/common/id/snowflake.ts: the generator of 64-bit identifiers.
-- Times are milliseconds since CUSTOM_EPOCH. `Date.now()` takes the next reading of a list; a call
-- that has used every reading is still waiting.
pub mod Fields
pub mod Increasing
mod Tests
use Prim.Native.Nat.{bit_and, bit_or}
use nest_shortlink_platform.Common.{
  ℕ, zero, suc, ◌+◌, ◌-◌, ◌*◌, ◌^◌, Option, none, some, List, [], ◌∷◌, Bool, true, false, ltb, leb,
  ◌==◌, nat_eq, if◌then◌else◌,
}

abbrev pub machine_bits : ℕ
machine_bits = 10

abbrev pub sequence_bits : ℕ
sequence_bits = 12

abbrev pub max_machine_id : ℕ
max_machine_id = 2 ^ machine_bits - 1

abbrev pub max_sequence : ℕ
max_sequence = 2 ^ sequence_bits - 1

abbrev pub machine_shift : ℕ
machine_shift = sequence_bits

abbrev pub timestamp_shift : ℕ
timestamp_shift = machine_bits + sequence_bits

-- `last_timestamp` is `none` where the source has -1, before the first identifier.
pub record SnowflakeGenerator : Type 0 where
  pub machine_id : ℕ
  pub last_timestamp : Option ℕ
  pub sequence : ℕ

-- The constructor; `none` is its exception.
pub new_generator : ℕ → Option SnowflakeGenerator
new_generator machine_id =
    if ltb max_machine_id machine_id
    then none
    else some (record { machine_id = machine_id; last_timestamp = none; sequence = 0 })

-- `issued` has the identifier, the new state and the readings left.
pub data Issue : Type 0 where
  issued : ℕ → SnowflakeGenerator → List ℕ → Issue
  clock_moved_backwards : List ℕ → Issue
  waiting : Issue

pub wait_next_millis : List ℕ → ℕ → Option (ℕ × List ℕ)
wait_next_millis [] current = none
wait_next_millis (timestamp ∷ rest) current = elim (leb timestamp current) [
  | true ↦ wait_next_millis rest current
  | false ↦ some (timestamp, rest)
]

pub compose : ℕ → ℕ → ℕ → ℕ
compose timestamp machine_id sequence =
    bit_or (bit_or (timestamp * 2 ^ timestamp_shift) (machine_id * 2 ^ machine_shift)) sequence

stamp : SnowflakeGenerator → ℕ → ℕ → List ℕ → Issue
stamp g timestamp sequence rest =
    issued (compose timestamp g.machine_id sequence)
      (record g { last_timestamp = some timestamp; sequence = sequence }) rest

is_before : ℕ → Option ℕ → Bool
is_before timestamp none = false
is_before timestamp (some last) = ltb timestamp last

is_same : ℕ → Option ℕ → Bool
is_same timestamp none = false
is_same timestamp (some last) = timestamp == last

-- The sequence ran over: the identifier takes the next millisecond.
overrun : SnowflakeGenerator → Option (ℕ × List ℕ) → Issue
unfolding stamp
overrun g none = waiting
overrun g (some (timestamp, rest)) = stamp g timestamp 0 rest

pub next_id : SnowflakeGenerator → List ℕ → Issue
unfolding stamp is_before is_same overrun
next_id g [] = waiting
next_id g (timestamp ∷ rest) =
    if is_before timestamp g.last_timestamp
    then clock_moved_backwards rest
    else if is_same timestamp g.last_timestamp
    then (let sequence = bit_and (g.sequence + 1) max_sequence in
        if sequence == 0
        then overrun g (wait_next_millis rest timestamp)
        else stamp g timestamp sequence rest)
    else stamp g timestamp 0 rest

-- The identifiers that the callers get, one call after another; a call that throws gives none and
-- leaves the generator as it was.
pub issue_all : ℕ → SnowflakeGenerator → List ℕ → List ℕ
issue_all zero g clock = []
issue_all (suc calls) g clock = elim (next_id g clock) [
  | issued id g' rest ↦ id ∷ issue_all calls g' rest
  | clock_moved_backwards rest ↦ issue_all calls g rest
  | waiting ↦ []
]
