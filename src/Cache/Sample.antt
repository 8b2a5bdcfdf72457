-- ===== src/Cache/Sample.antt =====
-- A Redis that holds one text, and a link, for the tests.
use nest_shortlink_platform.Common.{
  ◌+◌, ◌≡◌, ◌≢◌, refl, inl, String, [], ◌==◌, string_eq, eq_iff, Option, none, some, true, false,
  arith,
}
use nest_shortlink_platform.Common.Int.{pos}
use nest_shortlink_platform.Common.Effects.{ok, Eff, pure}
use nest_shortlink_platform.Circuit.{Breaker, half_open}
use nest_shortlink_platform.Cache.{Shared, Request, Outside, CacheEnv}
use nest_shortlink_platform.Cache.Resolve.{null_value}
use nest_shortlink_platform.Cache.Redirect.{RedirectSnapshot, Json, active, public}
use nest_shortlink_platform.Cache.Coherence.{Honest, Read}
use nest_shortlink_platform.Cache.Availability.{RoundTrips}

-- A Redis with room for one text, whose calls never throw.
abbrev pub World : Type 0
World = Shared (Option String)

abbrev pub Effect : Type 0 → Type 0
Effect A = Eff String World A

abbrev pub store : String → Effect (Unit {0})
store text s = ok tt (record s { outside = some text })

abbrev pub one_text : Outside String (Option String)
one_text = record {
  get = λ key s. ok s.outside s;
  set = λ key text. store text;
  set_ex = λ key text ttl. store text;
  set_px_nx = λ key token ttl. pure (some "OK");
  del = λ key s. ok tt (record s { outside = none });
  ping = pure tt;
  eval_unlock = λ key token. pure tt;
  eval_safe_exists = λ key code. pure (pos 1);
  bf_add = λ key code. pure tt;
  bf_madd = λ key codes. pure tt;
  exists = λ key. pure 1;
  bf_reserve = λ key. pure tt;
  wait_until_ready = pure tt;
  stats_del = λ key. pure tt;
  stats_eval = λ key baseline. pure (baseline + 1);
  sha1_byte = λ code. 0;
  now = λ s. 1000;
  random_below = λ bound. pure 0;
  random_uuid = pure "token";
  sleep = λ ms. pure tt;
}

abbrev pub env : CacheEnv
env = record {
  circuit = record { enabled = true; failure_threshold_var = none; open_ms_var = none };
  l1_enabled = true;
  bloom_enabled = true;
}

abbrev pub link : RedirectSnapshot
link = record {
  id = "1";
  code = "abc";
  workspace_id = "w";
  created_by_id = "u";
  original_url = "https://example.com";
  status = active;
  visibility = public;
  access_version = 1;
  expires_at = none;
  max_visits = none;
  visit_count = 7;
  cache_type = none;
}

abbrev pub json : Json String
json = record {
  stringify = λ s. "{\"id\":\"1\"}";
  parse = λ text. some link;
  syntax_error = "SyntaxError";
}

abbrev pub text : Option String
text = some "{\"id\":\"1\"}"

json_unmarked : "{\"id\":\"1\"}" ≢ null_value
json_unmarked e =
    let no : ("{\"id\":\"1\"}" == null_value) ≡ true = (eq_iff "{\"id\":\"1\"}" null_value).1 e in
    cc

pub unmarked : (v : String) → text ≡ some v → v ≢ null_value
unmarked v e same = json_unmarked (ground (arith, e, same))

abbrev pub Agrees : Option String → Type 0
Agrees = Read text

pub honest : Honest one_text "abc" text Agrees
honest = record {
  reads = λ s h. (h.1, h);
  writes = λ written ttl r s h. (tt, (h.0, r));
  locks = λ token ttl s h. (tt, h);
  unlocks = λ token s h. (tt, h);
  filters = λ s h. (inl refl, h);
  pings = λ s h. (tt, h);
  sleeps = λ ms s h. (tt, h);
  draws = λ bound s h. (tt, h);
  names = λ s h. (tt, h);
}

pub rt : RoundTrips json (some link)
rt = record { parses = λ s e. e; unmarked = λ s e. json_unmarked }

abbrev pub breaker : Breaker
breaker = record {
  state = half_open;
  failure_count = 1;
  opened_at = 10;
  probe_in_flight = false;
  metrics = record {
    closed_gauge = 0;
    opened_gauge = 0;
    half_open_gauge = 1;
    bypass_total = 0;
    transitions = [];
  };
}

abbrev pub start : Request (Option String)
start = record {
  shared = record {
    hot = [];
    bloom_ready = true;
    breaker = breaker;
    redirect_cache_total = [];
    redirect_total = [];
    outside = none;
  };
  database_loader_failed = false;
}
