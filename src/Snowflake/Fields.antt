-- ===== src/Snowflake/Fields.antt =====
-- The three fields of an identifier.
use nest_shortlink_platform.Common.{ℕ, ◌+◌, ◌*◌, ◌/◌, ◌%◌, ◌^◌, ◌<◌, ◌≡◌, arith}
use Prim.Native.Nat.{bit_or}
use nest_shortlink_platform.Common.Bits.{bit_or-shifted}
use nest_shortlink_platform.Snowflake.{compose, machine_bits, sequence_bits, timestamp_shift}

pub compose-eq-sum :
    (t m s : ℕ) → m < 2 ^ 10 → s < 2 ^ 12 → compose t m s ≡ t * 2 ^ 22 + m * 2 ^ 12 + s
unfolding compose
compose-eq-sum t m s hm hs = rw (bit_or-shifted 22 t (m * 2 ^ 12) (omega arith)) joined
  where
    regrouped : t * 2 ^ 22 + m * 2 ^ 12 ≡ (t * 2 ^ 10 + m) * 2 ^ 12
    regrouped = omega arith

    joined : bit_or (t * 2 ^ 22 + m * 2 ^ 12) s ≡ t * 2 ^ 22 + m * 2 ^ 12 + s
    joined = rw regrouped (bit_or-shifted 12 (t * 2 ^ 10 + m) s hs)

-- Reading an identifier back: for a machine and a sequence in range, the timestamp is the number
-- above bit 22, the machine the ten bits below it and the sequence the low twelve bits.
pub compose_fields :
    (t m s : ℕ)
    → m < 2 ^ machine_bits
    → s < 2 ^ sequence_bits
    → (compose t m s / 2 ^ timestamp_shift ≡ t)
      × (compose t m s / 2 ^ sequence_bits % 2 ^ machine_bits ≡ m)
      × (compose t m s % 2 ^ sequence_bits ≡ s)
compose_fields t m s hm hs = rw (compose-eq-sum t m s hm hs) (omega arith)
