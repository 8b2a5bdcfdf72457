-- ===== src/Sessions/Login.antt =====
-- `login` of src/auth/auth.service.ts, with the limit on failures of src/rate-limit.
use nest_shortlink_platform.Common.{
  ℕ, ◌+◌, ◌≡◌, eq_iff, find-Memᴰ, ◌∷◌, refl, inl, inr, String, List, find, Option, none, some, Bool,
  true, not, ◌==◌, string_eq, if◌then◌else◌, Bool-cases,
}
use mathlib.Core.List.{Memᴰ}
use nest_shortlink_platform.Common.Effects.{Outcome, ok, threw, Eff, throw, ◌>>=◌, ◌>>◌}
use nest_shortlink_platform.Http.{unauthorized, too_many_requests}
use nest_shortlink_platform.RateLimit.{
  Failure, http, Evaluate, RateLimitResult, account_failure, clear_account_failure,
}
use nest_shortlink_platform.Workspaces.{User}
use nest_shortlink_platform.Sessions.{
  AuthSession, Crypto, Tokens, sign_refresh_token, hash_refresh_token, get_refresh_expires_at,
  open_session,
}

pub record LoginDto : Type 0 where
  pub email : String
  pub password : String

-- What a login reads outside: the limits' client, the table User, argon2, and the id drawn for the
-- session.
pub record LoginServices (S : Type 0) : Type 0 where
  pub eval : Evaluate S
  pub del : String → Eff Failure S (Unit {0})
  pub normalize : String → String
  pub users : List User
  pub argon2_verify : String → String → Bool
  pub crypto : Crypto
  pub random_uuid : String

pub record AuthState (S : Type 0) : Type 0 where
  pub limits : S
  pub sessions : List AuthSession

module _ {S : Type 0} where
  -- A call that changes the limits only.
  abbrev pub on_limits : {A : Type 0} → Eff Failure S A → Eff Failure (AuthState S) A
  on_limits m s = elim (m s.limits) [
    | ok a t ↦ ok a (record s { limits = t })
    | threw e t ↦ threw e (record s { limits = t })
  ]

  module _ (services : LoginServices S) where
    unfoldable pub find_by_email_for_auth : String → Option User
    find_by_email_for_auth email = find (λ (user : User). user.email == email) services.users

    unfoldable pub fail : LoginDto → Eff Failure (AuthState S) RateLimitResult
    fail dto = on_limits (account_failure services.eval services.normalize dto.email)

    -- A password that does not match.
    unfoldable pub reject : RateLimitResult → Eff Failure (AuthState S) Tokens
    reject result =
        if not result.allowed
        then throw (http (too_many_requests "Too many failed login attempts"))
        else throw (http (unauthorized "Invalid email or password"))

    unfoldable pub issued : User → ℕ → Tokens
    unfolding sign_refresh_token
    issued user now = record {
      access_token = services.crypto.jwt_sign_access user.id services.random_uuid now;
      refresh_token = sign_refresh_token services.crypto user.id services.random_uuid 0 now;
    }

    -- `authSession.create`.
    abbrev pub with_session : User → ℕ → AuthState S → AuthState S
    with_session user now s = record s {
      sessions = open_session services.crypto user.id services.random_uuid now s.sessions;
    }

    unfoldable pub grant : LoginDto → User → ℕ → Eff Failure (AuthState S) Tokens
    unfolding issued open_session
    grant dto user now =
        on_limits (clear_account_failure services.del services.normalize dto.email)
        >> (λ s. ok (issued user now) (with_session user now s))

    unfoldable pub check_password : LoginDto → ℕ → Option User → Eff Failure (AuthState S) Tokens
    unfolding fail reject grant
    check_password dto now none =
        fail dto >> throw (http (unauthorized "Invalid email or password"))
    check_password dto now (some user) =
        if not (services.argon2_verify user.password_hash dto.password)
        then fail dto >>= reject
        else grant dto user now

    unfoldable pub login : LoginDto → ℕ → Eff Failure (AuthState S) Tokens
    unfolding check_password find_by_email_for_auth
    login dto now = check_password dto now (find_by_email_for_auth dto.email)

    -- Tokens of a user, for the session whose id was drawn.
    abbrev pub TokensOf : User → ℕ → Tokens → Type 0
    TokensOf user now tokens =
        (tokens.access_token ≡ services.crypto.jwt_sign_access user.id services.random_uuid now)
        × (tokens.refresh_token
            ≡ services.crypto.jwt_sign
                (record { sub = user.id; sid = services.random_uuid; ver = 0; kind = "refresh" })
                now)

    -- The session of those tokens: not revoked, of that user, with the refresh token's hash and
    -- a life of seven days.
    abbrev pub session_of : User → ℕ → Tokens → AuthSession
    session_of user now tokens = record {
      id = services.random_uuid;
      user_id = user.id;
      refresh_token_hash = services.crypto.sha256 tokens.refresh_token;
      version = 0;
      expires_at = now + 604800000;
      revoked_at = none;
    }

    -- The end of a login: tokens and a session of a user with the email, whose password was given, or
    -- an exception, with the sessions as before.
    abbrev pub LoggedIn : LoginDto → ℕ → AuthState S → Outcome Failure (AuthState S) Tokens → Type 0
    LoggedIn dto now before (ok tokens after) =
        (user : User) × Memᴰ user services.users
        × (user.email ≡ dto.email)
        × (services.argon2_verify user.password_hash dto.password ≡ true)
        × TokensOf user now tokens
        × (after.sessions ≡ session_of user now tokens ∷ before.sessions)
    LoggedIn dto now before (threw e after) = after.sessions ≡ before.sessions

    on_limits-sessions :
        {A : Type 0} (m : Eff Failure S A) (k : A → Eff Failure (AuthState S) Tokens)
        (dto : LoginDto) (now : ℕ) (before : AuthState S)
        → ((a : A) (t : S) → LoggedIn dto now before (k a (record before { limits = t })))
        → LoggedIn dto now before ((on_limits m >>= k) before)
    on_limits-sessions {A} m k dto now before h = go (m before.limits)
      where
        go :
            (r : Outcome Failure S A)
            → LoggedIn dto now before
                (elim (elim r as (λ x. Outcome Failure (AuthState S) A) [
                  | ok a t ↦ ok a (record before { limits = t })
                  | threw e t ↦ threw e (record before { limits = t })
                ]) [ ok a t ↦ k a t | threw e t ↦ threw e t ])
        go (ok a t) = h a t
        go (threw e t) = refl

    reject-LoggedIn :
        (dto : LoginDto) (now : ℕ) (before : AuthState S) (result : RateLimitResult) (t : S)
        → LoggedIn dto now before (reject result (record before { limits = t }))
    unfolding reject
    reject-LoggedIn dto now before result t = elim (Bool-cases result.allowed) [
      | inl within ↦ rw within refl
      | inr over ↦ rw over refl
    ]

    grant-LoggedIn :
        (dto : LoginDto) (now : ℕ) (before : AuthState S) (user : User)
        → find_by_email_for_auth dto.email ≡ some user
        → services.argon2_verify user.password_hash dto.password ≡ true
        → LoggedIn dto now before (grant dto user now before)
    unfolding grant issued open_session sign_refresh_token hash_refresh_token get_refresh_expires_at
        find_by_email_for_auth
    grant-LoggedIn dto now before user found matched =
        let (listed, alike) =
          find-Memᴰ (λ (user : User). user.email == dto.email) user services.users found in
        on_limits-sessions (clear_account_failure services.del services.normalize dto.email)
          (λ done s. ok (issued user now) (with_session user now s)) dto now before
          (λ done t.
            (user, listed, (eq_iff user.email dto.email).0 alike, matched, (refl, refl), refl))

    -- A login gives tokens only to who gives the email and the password of a user: they are an access
    -- token and a refresh token of that user, for a new session of that user, which holds the refresh
    -- token's hash and lasts seven days, and which is added to the sessions there were. Any other end
    -- of it is an exception, whether of the limit, of Redis or of a wrong password, and leaves the sessions as
    -- they were.
    pub login-LoggedIn :
        (dto : LoginDto) (now : ℕ) (before : AuthState S)
        → LoggedIn dto now before (login dto now before)
    unfolding login check_password fail
    login-LoggedIn dto now before = go (find_by_email_for_auth dto.email) refl
      where
        go :
            (found : Option User)
            → find_by_email_for_auth dto.email ≡ found
            → LoggedIn dto now before (check_password dto now found before)
        go none e =
            on_limits-sessions (account_failure services.eval services.normalize dto.email)
              (λ r. throw (http (unauthorized "Invalid email or password"))) dto now before
              (λ r t. refl)
        go (some user) e =
            elim (Bool-cases (services.argon2_verify user.password_hash dto.password)) [
              | inl matched ↦ rw matched (grant-LoggedIn dto now before user e matched)
              | inr wrong ↦ rw wrong (
                  on_limits-sessions (account_failure services.eval services.normalize dto.email)
                    reject dto now before (reject-LoggedIn dto now before))
            ]
