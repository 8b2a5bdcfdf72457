-- ===== src/Redirects/Tests.antt =====
-- The redirects at concrete links.
use Prim.Native.String.{◌++◌ as str_append, count}
use text.Mathlib.TextLemmas.{length-append}
use nest_shortlink_platform.Common.{
  ℕ, zero, suc, ◌+◌, ◌/◌, ◌<◌, ◌≡◌, ◌≢◌, ◌∙◌, refl, sym, ap, nat_eq, String, [], ◌∷◌, Option, none,
  some, true, ◌==◌, string_eq, ltb, length, All, if◌then◌else◌, arith,
}
use nest_shortlink_platform.Common.Effects.{threw, pure}
use nest_shortlink_platform.Common.Ensures.{Ensures}
use nest_shortlink_platform.Links.{ShortLink}
use nest_shortlink_platform.Cache.{Request}
use nest_shortlink_platform.Cache.Redirect.{active, public}
use nest_shortlink_platform.Cache.Sample.{one_text, env, link, json, Agrees, honest, rt, start}
use nest_shortlink_platform.Redirects.{
  ShareAccessPayload, Services, snapshot_of, load_from_database, resolve_internal,
  authorize_password, expired,
}
use nest_shortlink_platform.Redirects.Access.{Granted, Looked, resolve_internal-Ensures}
use nest_shortlink_platform.Redirects.Limit.{
  WithinLimit, Visits, after, granted, total, left_of, after-WithinLimit, granted_row,
}
use nest_shortlink_platform.Redirects.Unlock.{Signs, payload_of, signed, authorize_password-sign}

abbrev row : ShortLink
row = record {
  id = "1";
  workspace_id = "w";
  created_by_id = "u";
  code = "abc";
  original_url = "https://example.com";
  title = none;
  visibility = public;
  status = active;
  expires_at = none;
  max_visits = none;
  visit_count = 7;
  password_hash = none;
  access_version = 1;
}

abbrev services : Services String (Option String)
services = record {
  http = λ error. "http";
  find_link = λ code. pure (some row);
  update_limited = λ snapshot. pure [];
  workspace_access = λ user workspace. pure true;
  jwt_sign = λ payload ttl at. "token";
  jwt_verify =
      λ token at. some (record { kind = "share_access"; link_id = "1"; code = "abc"; ver = 1 });
  argon2_verify = λ hash secret. true;
}

resolve_internal-Ensures_example :
    Ensures
      (λ (q : Request (Option String)). Unit {0})
      (λ t.
        (s : Request (Option String)) × Looked one_text json env services
          (λ u w. Unit {0})
          (λ u w q. (λ _. tt, tt))
          "abc"
          start
          s
        × Granted one_text json env services
            (λ u w. Unit {0})
            (λ u w q. (λ _. tt, tt))
            (some link)
            (one_text.now s.shared)
            none
            none
            t)
      (resolve_internal one_text json env services "abc" none none start)
unfolding load_from_database
resolve_internal-Ensures_example =
    resolve_internal-Ensures one_text json env services (λ u w. Unit {0}) (λ u w q. (λ _. tt, tt))
      "abc" (some link) Agrees rt honest (λ q h. (refl, (h, refl))) none none start (tt, tt)

abbrev limited : ShortLink
limited = record row { max_visits = some 9 }

abbrev visits : Visits
visits = (snapshot_of limited, 10) ∷ (snapshot_of limited, 20) ∷ (snapshot_of limited, 30) ∷ []

after-WithinLimit_example :
    All WithinLimit (after visits (limited ∷ []))
    × (total (after visits (limited ∷ [])) ≡ total (limited ∷ []) + granted visits (limited ∷ []))
after-WithinLimit_example = after-WithinLimit visits (limited ∷ []) (omega arith, tt)

granted_row_example :
    granted visits (limited ∷ [])
    ≡ (if ltb (length visits) (left_of 9 limited) then length visits else left_of 9 limited)
unfolding expired
granted_row_example =
    granted_row visits limited 9 refl refl
      ((refl, refl, refl, refl), ((refl, refl, refl, refl), ((refl, refl, refl, refl), tt)))

-- A token of as many dots as the second in which it ends, and one more.
dots : ℕ → String
dots zero = ""
dots (suc n) = str_append "." (dots n)

count-dots : (n : ℕ) → count (dots n) ≡ n
unfolding dots
count-dots zero = refl
count-dots (suc n) = let rest = count-dots n in omega (arith, length-append "." (dots n), rest)

abbrev share_payload : ShareAccessPayload
share_payload = record { kind = "share_access"; link_id = "1"; code = "abc"; ver = 1 }

abbrev dot_sign : ShareAccessPayload → ℕ → ℕ → String
dot_sign payload ttl at = if payload.ver == 1 then dots (suc (at / 1000 + ttl)) else ""

abbrev dot_verify : String → ℕ → Option ShareAccessPayload
dot_verify token time = if ltb (suc (time / 1000)) (count token) then some share_payload else none

abbrev signer : Services String (Option String)
signer = record services { jwt_sign = dot_sign; jwt_verify = dot_verify }

signed_later :
    (time at ttl : ℕ)
    → time / 1000 < at / 1000 + ttl
    → dot_verify (dots (suc (at / 1000 + ttl))) time ≡ some share_payload
signed_later time at ttl h =
    let ends : count (dots (suc (at / 1000 + ttl))) ≡ suc (at / 1000 + ttl) = count-dots _ in
    rw ends (ground (arith, h))

dots_filled : (n : ℕ) → dots (suc n) ≢ ""
dots_filled n e =
    let none_left : suc n ≡ 0 = sym (count-dots (suc n)) ∙ ap count e in omega (arith, none_left)

signs : Signs one_text json env signer (payload_of one_text json env signer row)
signs = record {
  verifies = λ ttl at time h. signed_later time at ttl h;
  not_empty = λ ttl at. dots_filled (at / 1000 + ttl);
}

-- The token is for version 1, and the link has version 2 by now.
authorize_password-sign_example :
    authorize_password one_text json env signer
      (record link { access_version = 2 })
      (some (signed one_text json env signer row 500))
      start
    ≡ threw "http" start
authorize_password-sign_example =
    authorize_password-sign one_text json env signer row signs 500
      (record link { access_version = 2 }) start refl refl (omega arith)
