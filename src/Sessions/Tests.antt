-- ===== src/Sessions/Tests.antt =====
-- Sessions at work.
use nest_shortlink_platform.Common.{
  ◌≡◌, ◌≢◌, refl, String, List, [], ◌∷◌, none, some, ◌==◌, string_eq, eq_iff, true, false,
}
use nest_shortlink_platform.Sessions.{
  AuthSession, RefreshTokenPayload, Crypto, refresh, logout, Action, refreshes, logs_in, act_all,
  next_tokens, verify_refresh_token, hash_refresh_token, rotate_verified,
}
use nest_shortlink_platform.Common.Text.{codes}
use nest_shortlink_platform.Common.Effects.{threw, pure}
use nest_shortlink_platform.Http.{unauthorized}
use nest_shortlink_platform.Sessions.Guard.{
  AccessCrypto, Route, jwt_guard, extract_token_from_header, verify_access_token,
}
use nest_shortlink_platform.Common.Int.{pos}
use nest_shortlink_platform.RateLimit.{array}
use nest_shortlink_platform.Sessions.Login.{
  LoginServices, LoginDto, AuthState, LoggedIn, login, login-LoggedIn,
}
use nest_shortlink_platform.Sessions.LoggedOut.{logout-refused}
use nest_shortlink_platform.Sessions.SingleUse.{refresh_single_use, logout_revokes}

abbrev payload : RefreshTokenPayload
payload = record { sub = "u"; sid = "s"; ver = 0; kind = "refresh" }

abbrev crypto : Crypto
crypto = record {
  jwt_sign = λ p now. "token";
  jwt_sign_access = λ user session now. "access";
  jwt_payload = λ token. some payload;
  jwt_valid = λ token now. true;
  sha256 = λ text. text;
}

abbrev session : AuthSession
session = record {
  id = "s";
  user_id = "u";
  refresh_token_hash = "token";
  version = 0;
  expires_at = 900;
  revoked_at = none;
}

abbrev sessions : List AuthSession
sessions = session ∷ []

abbrev t_id : String
t_id = "t"

abbrev s_id : String
s_id = "s"

other : t_id ≢ s_id
other e = let no : (t_id == s_id) ≡ true = (eq_iff t_id s_id).1 e in cc

abbrev actions : List Action
actions = logs_in "u" "t" 20 ∷ refreshes "token" 30 ∷ []

refresh_single_use_example :
    refresh crypto "token" 40 (act_all crypto (refresh crypto "token" 10 sessions).1 actions)
    ≡ (none, act_all crypto (refresh crypto "token" 10 sessions).1 actions)
unfolding refresh verify_refresh_token rotate_verified hash_refresh_token
refresh_single_use_example =
    refresh_single_use crypto payload "token" 10 40 (next_tokens crypto payload 10) sessions actions
      refl (λ i. tt, tt) refl (other, (tt, tt))

logout_revokes_example :
    refresh crypto "token" 40 (act_all crypto (logout "u" "s" 10 sessions) actions)
    ≡ (none, act_all crypto (logout "u" "s" 10 sessions) actions)
logout_revokes_example =
    logout_revokes crypto payload "token" 10 40 sessions actions refl (other, (tt, tt))

abbrev access : AccessCrypto
access = record {
  jwt_payload = λ token. some (record { sub = "u"; sid = "s"; kind = "access" });
  jwt_valid = λ token now. true;
}

abbrev route : Route
route = record { is_public = false; optional_auth = true }

logout-refused_example :
    jwt_guard access route 40
      (act_all crypto (logout "u" "s" 10 sessions) actions)
      (some (codes "Bearer abc"))
      none
    ≡ threw (unauthorized "Session is invalid or revoked") none
unfolding extract_token_from_header verify_access_token
logout-refused_example =
    logout-refused crypto access route (codes "Bearer abc") (codes "abc")
      (record { sub = "u"; sid = "s"; kind = "access" }) sessions actions 10 40 none refl refl refl
      (other, (tt, tt))

-- Redis answers that four failures are left.
abbrev login_services : LoginServices String
login_services = record {
  eval = λ script key. pure (array (pos 1 ∷ pos 4 ∷ pos 0 ∷ []));
  del = λ key. pure tt;
  normalize = λ text. text;
  users =
      record {
        id = "u";
        email = "ann@example.com";
        name = none;
        password_hash = "secret";
        created_at = 1;
      }
      ∷ [];
  argon2_verify = λ hash secret. hash == secret;
  crypto = crypto;
  random_uuid = "n";
}

abbrev dto : LoginDto
dto = record { email = "ann@example.com"; password = "secret" }

abbrev state : AuthState String
state = record { limits = "redis"; sessions = sessions }

login-LoggedIn_example : LoggedIn login_services dto 20 state (login login_services dto 20 state)
login-LoggedIn_example = login-LoggedIn login_services dto 20 state
