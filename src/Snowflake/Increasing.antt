-- ===== src/Snowflake/Increasing.antt =====
-- The identifiers of one generator rise, and those of two machines differ.
use Prim.Native.Nat.{bit_and}
use nest_shortlink_platform.Common.{
  ℕ, zero, suc, ◌+◌, ◌*◌, ◌/◌, ◌%◌, ◌^◌, ◌≤◌, ◌<◌, ◌≡◌, refl, sym, ap, ◌∙◌, ◌≢◌, Option, none, some,
  List, [], ◌∷◌, All, true, false, ◌==◌, nat_eq, if◌then◌else◌, Bool-cases, inl, inr, arith,
}
use mathlib.Core.Path.{subst}
use nest_shortlink_platform.Common.Bits.{bit_and-mask}
use nest_shortlink_platform.Snowflake.{
  SnowflakeGenerator, Issue, issued, clock_moved_backwards, waiting, new_generator, stamp,
  wait_next_millis, overrun, is_before, is_same, next_id, issue_all, machine_bits, sequence_bits,
  max_sequence,
}
use nest_shortlink_platform.Snowflake.Fields.{compose-eq-sum, compose_fields}

pub record IsValid (g : SnowflakeGenerator) : Type 0 where
  pub machine_fits : g.machine_id < 2 ^ machine_bits
  pub sequence_fits : g.sequence < 2 ^ sequence_bits

pub new_generator-IsValid : (m : ℕ) (g : SnowflakeGenerator) → new_generator m ≡ some g → IsValid g
unfolding new_generator
new_generator-IsValid m g e = ground arith

-- The least number that the next identifier can be, from the last one.
above : ℕ → ℕ → Option ℕ → ℕ
above m s none = 0
above m s (some t) = t * 2 ^ 22 + m * 2 ^ 12 + s + 1

floor : SnowflakeGenerator → ℕ
unfolding above
floor g = above g.machine_id g.sequence g.last_timestamp

wait_next_millis-lt :
    (clock : List ℕ) (c t : ℕ) (rest : List ℕ) → wait_next_millis clock c ≡ some (t, rest) → c < t
unfolding wait_next_millis
wait_next_millis-lt [] c t rest e = cc
wait_next_millis-lt (x ∷ clock) c t rest e = ground (arith, wait_next_millis-lt clock c t rest)

-- What holds of an identifier that `g` issues with the new state `g'`.
record Issues (g : SnowflakeGenerator) (id : ℕ) (g' : SnowflakeGenerator) : Type 0 where
  valid : IsValid g'
  machine : g'.machine_id ≡ g.machine_id
  rises : floor g ≤ id
  next : floor g' ≡ id + 1
  field_machine : id / 2 ^ 12 % 2 ^ 10 ≡ g.machine_id

stamp-Issues :
    (g : SnowflakeGenerator) (t s : ℕ) (clock : List ℕ) {id : ℕ} {g' : SnowflakeGenerator}
    {rest : List ℕ}
    → IsValid g
    → s < 2 ^ 12
    → floor g ≤ t * 2 ^ 22 + g.machine_id * 2 ^ 12 + s
    → stamp g t s clock ≡ issued id g' rest
    → Issues g id g'
unfolding stamp floor
stamp-Issues g t s clock v hs low e = record {
  valid = ground arith;
  machine = ground arith;
  rises = ground (arith, compose-eq-sum t g.machine_id s v.machine_fits hs);
  next = ground (arith, compose-eq-sum t g.machine_id s v.machine_fits hs);
  field_machine = ground (arith, compose_fields t g.machine_id s v.machine_fits hs);
}

overrun-Issues :
    (g : SnowflakeGenerator) (t : ℕ) (o : Option (ℕ × List ℕ)) {id : ℕ} {g' : SnowflakeGenerator}
    {rest : List ℕ}
    → IsValid g
    → g.last_timestamp ≡ some t
    → ((t' : ℕ) (r : List ℕ) → o ≡ some (t', r) → t < t')
    → overrun g o ≡ issued id g' rest
    → Issues g id g'
unfolding overrun floor
overrun-Issues g t none v same later e = cc
overrun-Issues g t (some (t', clock)) v same later e =
    stamp-Issues g t' 0 clock v (omega arith) (passed (later t' clock refl)) e
  where
    passed : t < t' → floor g ≤ t' * 2 ^ 22 + g.machine_id * 2 ^ 12 + 0
    passed h = rw (same, floor) (omega (arith, v.machine_fits, v.sequence_fits))

is_before_iff :
    (t : ℕ) (o : Option ℕ) (m s : ℕ)
    → s < 2 ^ 12
    → m < 2 ^ 10
    → is_before t o ≡ false
    → is_same t o ≡ false
    → above m s o ≤ t * 2 ^ 22 + m * 2 ^ 12 + 0
unfolding is_before is_same above
is_before_iff t none m s hs hm b d = omega arith
is_before_iff t (some last) m s hs hm b d = ground arith

is_same-eq : (t : ℕ) (o : Option ℕ) → is_same t o ≡ true → o ≡ some t
unfolding is_same
is_same-eq t none e = cc
is_same-eq t (some last) e = ground arith

same-Issues :
    (g : SnowflakeGenerator) (t s : ℕ) (clock : List ℕ) {id : ℕ} {g' : SnowflakeGenerator}
    {rest : List ℕ}
    → IsValid g
    → g.last_timestamp ≡ some t
    → s ≡ (g.sequence + 1) % 2 ^ 12
    → (if s == 0 then overrun g (wait_next_millis clock t) else stamp g t s clock)
      ≡ issued id g' rest
    → Issues g id g'
unfolding floor
same-Issues g t s clock v same e h = elim (Bool-cases (s == 0)) [
  | inl z ↦
      overrun-Issues g t (wait_next_millis clock t) v same
        (λ t' r. wait_next_millis-lt clock t t' r) (rw z at h)
  | inr nz ↦ stamp-Issues g t s clock v (omega arith) (passed nz) (rw nz at h)
]
  where
    passed : (s == 0) ≡ false → floor g ≤ t * 2 ^ 22 + g.machine_id * 2 ^ 12 + s
    passed nz =
        let grown : s ≡ g.sequence + 1 = ground (arith, v.sequence_fits) in
        rw (same, floor) (omega arith)

-- An identifier is above the last one and belongs to the machine; the invariant goes on.
next_id-Issues :
    (g : SnowflakeGenerator) (clock : List ℕ) {id : ℕ} {g' : SnowflakeGenerator} {rest : List ℕ}
    → IsValid g
    → next_id g clock ≡ issued id g' rest
    → Issues g id g'
unfolding next_id floor above
next_id-Issues g [] {rest} v e = cc
next_id-Issues g (t ∷ clock) {rest} v e = elim (Bool-cases (is_before t g.last_timestamp)) [
  | inl b ↦ cc
  | inr b ↦ elim (Bool-cases (is_same t g.last_timestamp)) [
    | inl d ↦
        same-Issues g t (bit_and (g.sequence + 1) max_sequence) clock {rest = rest} v
          (is_same-eq t g.last_timestamp d) (bit_and-mask 12 (g.sequence + 1)) (ground arith)
    | inr d ↦
        stamp-Issues g t 0 clock {rest = rest} v (omega arith)
          (is_before_iff t g.last_timestamp g.machine_id g.sequence v.sequence_fits v.machine_fits b
            d)
          (ground arith)
  ]
]

-- Each number is at least `low` and below the next.
abbrev pub IsIncreasing : ℕ → List ℕ → Type 0
IsIncreasing low [] = Unit {0}
IsIncreasing low (x ∷ xs) = (low ≤ x) × IsIncreasing (x + 1) xs

-- The machine's number stands in bits 12 to 21.
abbrev pub Names : ℕ → ℕ → Type 0
Names machine_id id = id / 2 ^ sequence_bits % 2 ^ machine_bits ≡ machine_id

issue_all_lem :
    (calls : ℕ) (g : SnowflakeGenerator) (clock : List ℕ) (low : ℕ)
    → IsValid g
    → low ≤ floor g
    → IsIncreasing low (issue_all calls g clock)
      × All (Names g.machine_id) (issue_all calls g clock)
unfolding issue_all
issue_all_lem zero g clock low v h = (tt, tt)
issue_all_lem (suc calls) g clock low v h =
    go (next_id g clock) refl (λ g' rest low' v' h'. issue_all_lem calls g' rest low' v' h')
  where
    go :
        (r : Issue)
        → next_id g clock ≡ r
        → ((g' : SnowflakeGenerator) (rest : List ℕ) (low' : ℕ)
            → IsValid g'
            → low' ≤ floor g'
            → IsIncreasing low' (issue_all calls g' rest)
              × All (Names g'.machine_id) (issue_all calls g' rest))
        → IsIncreasing low (issue_all (suc calls) g clock)
          × All (Names g.machine_id) (issue_all (suc calls) g clock)
    go (issued id g' rest) e later =
        let i = next_id-Issues g clock {rest = rest} v e in
        let (rising, named) = later g' rest (id + 1) i.valid (omega (arith, i.next)) in
        rw (e, issue_all)
          (
            (omega (arith, i.rises), rising),
            (i.field_machine, subst (λ m. All (Names m) (issue_all calls g' rest)) i.machine named),
          )
    go (clock_moved_backwards rest) e later = rw (e, issue_all) (later g rest low v h)
    go waiting e later = rw (e, issue_all) (tt, tt)

-- Whatever the clock shows, and however often it stands still or goes back: the identifiers that a
-- generator hands out, from its construction on, rise strictly, and each names its machine.
pub issue_all-IsIncreasing :
    (machine_id calls : ℕ) (g : SnowflakeGenerator) (clock : List ℕ)
    → new_generator machine_id ≡ some g
    → IsIncreasing 0 (issue_all calls g clock) × All (Names machine_id) (issue_all calls g clock)
unfolding new_generator
issue_all-IsIncreasing machine_id calls g clock e =
    rw (same) (issue_all_lem calls g clock 0 (new_generator-IsValid machine_id g e) (omega arith))
  where
    same : machine_id ≡ g.machine_id
    same = ground arith

All-map {ℓ κ} :
    {A : Type 0} (P : A → Type ℓ) (Q : A → Type κ) (xs : List A)
    → ((a : A) → P a → Q a)
    → All P xs
    → All Q xs
All-map P Q [] f h = tt
All-map P Q (x ∷ xs) f h = (f x h.0, All-map P Q xs f h.1)

-- No identifier of one machine is an identifier of another, whatever their two clocks show.
pub machines_disjoint :
    (m n calls calls' : ℕ) (g h : SnowflakeGenerator) (clock clock' : List ℕ)
    → m ≢ n
    → new_generator m ≡ some g
    → new_generator n ≡ some h
    → All (λ a. All (λ b. a ≢ b) (issue_all calls' h clock')) (issue_all calls g clock)
machines_disjoint m n calls calls' g h clock clock' ne eg eh =
    All-map (Names m) _ (issue_all calls g clock)
      (λ a na.
        All-map (Names n) (λ b. a ≢ b) (issue_all calls' h clock')
          (λ b nb same.
            ne (sym na ∙ ap (λ (t : ℕ). t / 2 ^ sequence_bits % 2 ^ machine_bits) same ∙ nb))
          (issue_all-IsIncreasing n calls' h clock' eh).1)
      (issue_all-IsIncreasing m calls g clock eg).1
