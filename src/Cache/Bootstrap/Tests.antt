-- ===== src/Cache/Bootstrap/Tests.antt =====
-- The bootstrap on a filter that keeps the codes it is given.
use nest_shortlink_platform.Common.{
  refl, String, List, [], ◌∷◌, ◌++◌, none, some, false, All, arith,
}
use mathlib.Core.List.{Memᴰ}
use mathlib.Core.List.Memᴰ.{head, tail, append_right}
use nest_shortlink_platform.Common.Int.{pos}
use nest_shortlink_platform.Common.Effects.{ok, pure}
use nest_shortlink_platform.Cache.{Shared, Outside}
use nest_shortlink_platform.Cache.Sample.{start}
use nest_shortlink_platform.Cache.Bootstrap.{Row, on_application_bootstrap}
use nest_shortlink_platform.Cache.Bootstrap.Groups.{Adds}
use nest_shortlink_platform.Cache.Bootstrap.Complete.{
  Bootstrapped, on_application_bootstrap-Bootstrapped,
}

abbrev Filters : Type 0
Filters = List (String × String)

abbrev keyed : String → List String → Filters
keyed key [] = []
keyed key (code ∷ codes) = (key, code) ∷ keyed key codes

abbrev filters : Outside String Filters
filters = record {
  get = λ key. pure none;
  set = λ key text. pure tt;
  set_ex = λ key text ttl. pure tt;
  set_px_nx = λ key token ttl. pure (some "OK");
  del = λ key. pure tt;
  ping = pure tt;
  eval_unlock = λ key token. pure tt;
  eval_safe_exists = λ key code. pure (pos 1);
  bf_add = λ key code s. ok tt (record s { outside = (key, code) ∷ s.outside });
  bf_madd = λ key codes s. ok tt (record s { outside = keyed key codes ++ s.outside });
  exists = λ key. pure 1;
  bf_reserve = λ key. pure tt;
  wait_until_ready = pure tt;
  stats_del = λ key. pure tt;
  stats_eval = λ key baseline. pure baseline;
  sha1_byte = λ code. 0;
  now = λ s. 1000;
  random_below = λ bound. pure 0;
  random_uuid = pure "token";
  sleep = λ ms. pure tt;
}

abbrev KeptIn : String → String → Filters → Type 0
KeptIn key code held = Memᴰ (key, code) held

keyed-KeptIn :
    (key : String) (codes : List String) (held : Filters)
    → All (λ code. KeptIn key code (keyed key codes ++ held)) codes
keyed-KeptIn key [] held = tt
keyed-KeptIn key (code ∷ codes) held = (head refl, later codes (keyed-KeptIn key codes held))
  where
    later :
        (some_codes : List String)
        → All (λ c. KeptIn key c (keyed key codes ++ held)) some_codes
        → All (λ c. KeptIn key c ((key, code) ∷ (keyed key codes ++ held))) some_codes
    later [] h = tt
    later (c ∷ cs) (h, hs) = (tail h, later cs hs)

adds :
    (key : String) (codes : List String) (s : Shared Filters)
    → Adds filters KeptIn key codes s (filters.bf_madd key codes s)
adds key codes s = ((λ k c h. append_right (keyed key codes) h), keyed-KeptIn key codes s.outside)

abbrev rows : List Row
rows = record { id = "1"; code = "abc123" } ∷ record { id = "2"; code = "def456" } ∷ []

abbrev shared : Shared Filters
shared = record {
  hot = [];
  bloom_ready = false;
  breaker = start.shared.breaker;
  redirect_cache_total = [];
  redirect_total = [];
  outside = [];
}

on_application_bootstrap-Bootstrapped_example :
    Bootstrapped filters KeptIn adds rows
      ((refl, tt), (tt, tt))
      (refl, (refl, tt))
      (on_application_bootstrap filters (λ e. false) (λ cursor. none) rows 3 shared)
on_application_bootstrap-Bootstrapped_example =
    on_application_bootstrap-Bootstrapped filters KeptIn adds rows ((refl, tt), (tt, tt))
      (refl, (refl, tt)) (λ e. false) (λ cursor. none) 3 shared (omega arith)
