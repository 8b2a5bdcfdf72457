-- ===== src/RateLimit/Sample.antt =====
-- A Redis that holds one key, for the tests.
use nest_shortlink_platform.Common.{
  ℕ, ◌+◌, ◌*◌, ◌<◌, ◌≡◌, refl, sym, ap, ◌∙◌, String, [], ◌∷◌, length, Option, none, some, Bool,
  ◌&&◌, ltb, string_eq, if◌then◌else◌, arith, inl, if_elim,
}
use nest_shortlink_platform.Common.Int.{pos}
use nest_shortlink_platform.RateLimit.Scripts.{Bucket}
use nest_shortlink_platform.RateLimit.Serve.{Commands}
use nest_shortlink_platform.RateLimit.FixedWindow as FixedWindow
use nest_shortlink_platform.RateLimit.SlidingWindow as SlidingWindow
use nest_shortlink_platform.RateLimit.SlidingWindow.{count, Entries}
use nest_shortlink_platform.RateLimit.TokenBucket as TokenBucket

abbrev pub Count : Type 0
Count = Option (ℕ × Option ℕ)

abbrev pub seen : ℕ → Count → Count
seen now none = none
seen now (some (n, none)) = some (n, none)
seen now (some (n, some ends)) = if ltb now ends then some (n, some ends) else none

abbrev next_count : Count → Count
next_count none = some (1, none)
next_count (some (n, ends)) = some (n + 1, ends)

abbrev value : Count → ℕ
value none = 0
value (some (n, ends)) = n

abbrev ending : ℕ → Count → Count
ending ends none = none
ending ends (some (n, _)) = some (n, some ends)

pub record Store : Type 0 where
  pub counter : Count
  pub entries : Entries
  pub fields : Option Bucket

abbrev filter : (String × ℕ → Bool) → Entries → Entries
filter p [] = []
filter p (x ∷ xs) = let rest = filter p xs in if p x then x ∷ rest else rest

abbrev pub redis : Commands Store
redis = record {
  counter = record {
    incr = λ now s. (
      value (next_count (seen now s.counter)),
      record s { counter = next_count (seen now s.counter) },
    );
    expire =
        λ now seconds s. record s { counter = ending (now + seconds * 1000) (seen now s.counter) };
    pttl = λ now s. pos 0;
  };
  sorted_set = record {
    zremrangebyscore = λ now window s. record s {
      entries = filter (λ entry. ltb now (entry.1 + window * 1000000)) s.entries;
    };
    zcard = λ now s. length s.entries;
    zadd = λ now member s. record s { entries = (member, now) ∷ s.entries };
    expire = λ now seconds s. s;
    oldest = λ now s. none;
  };
  hash = record {
    hmget = λ now s. s.fields;
    hset = λ now held s. record s { fields = some held };
    expire = λ now seconds s. s;
  };
}

-- A key that is seen is seen again at the same time.
pub seen-seen : (now : ℕ) (c : Count) → seen now (seen now c) ≡ seen now c
seen-seen now none = refl
seen-seen now (some (n, none)) = refl
seen-seen now (some (n, some ends)) =
    if_elim {A = Count} (λ c. seen now c ≡ c) (ltb now ends) _ _ (λ h. rw h refl) (λ h. refl)

pub seen-next :
    (now n : ℕ) (ends : Option ℕ)
    → seen now (some (n, ends)) ≡ some (n, ends)
    → seen now (some (n + 1, ends)) ≡ some (n + 1, ends)
seen-next now n none h = refl
seen-next now n (some ends) h = ground (arith, h)

pub seen-ending :
    (now seconds n : ℕ)
    → 0 < seconds
    → seen now (some (n, some (now + seconds * 1000))) ≡ some (n, some (now + seconds * 1000))
seen-ending now seconds n p = ground (arith, p)

pub seen-stays :
    (now later n ends : ℕ) (c : Count)
    → later < ends
    → seen now c ≡ some (n, some ends)
    → seen later c ≡ some (n, some ends)
seen-stays now later n ends none l h = ground (arith, h)
seen-stays now later n ends (some (m, none)) l h = ground (arith, h)
seen-stays now later n ends (some (m, some e)) l h = ground (arith, h, l)

pub seen-leaves :
    (now later n ends : ℕ) (c : Count)
    → ends < later
    → seen now c ≡ some (n, some ends)
    → seen later c ≡ none
seen-leaves now later n ends none l h = ground (arith, h)
seen-leaves now later n ends (some (m, none)) l h = ground (arith, h)
seen-leaves now later n ends (some (m, some e)) l h = ground (arith, h, l)

pub count-filter :
    (p q : String × ℕ → Bool) (xs : Entries) → count p (filter q xs) ≡ count (λ x. p x && q x) xs
unfolding count
count-filter p q [] = refl
count-filter p q (x ∷ xs) = let rest = count-filter p q xs in ground (arith, rest)

abbrev pub counter_laws : FixedWindow.Lawful redis.counter
counter_laws = record {
  seen = λ now s. seen now s.counter;
  incr_new = λ now s h. rw h (refl, refl);
  incr_old = λ now n ends s h.
      rw h (refl, seen-next now n ends (sym (ap (seen now) h) ∙ seen-seen now s.counter ∙ h));
  expire_lem = λ now seconds n ends s p h. rw h (seen-ending now seconds n p);
  stays = λ now later n ends s k l h. seen-stays now later n ends s.counter l h;
  leaves = λ now later n ends s k l h. seen-leaves now later n ends s.counter l h;
}

abbrev pub set_laws : SlidingWindow.Lawful redis.sorted_set
set_laws = record {
  entries = λ now s. s.entries;
  zcard_lem = λ now s. refl;
  zremrangebyscore_lem = λ now later window s p k.
      count-filter p (λ entry. ltb now (entry.1 + window * 1000000)) s.entries;
  zadd_lem = λ now member s p h. refl;
  expire_lem = λ now later seconds s k. inl refl;
}

abbrev pub hash_laws : TokenBucket.Lawful redis.hash
hash_laws = record { stored = λ now later seconds held s k. inl refl }
