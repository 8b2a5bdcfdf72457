-- ===== src/Sessions/LoggedOut.antt =====
-- After a logout, the access tokens of the session open no route that asks for one.
use nest_shortlink_platform.Common.{
  ℕ, ◌≡◌, refl, ap, String, List, [], ◌∷◌, find, Option, none, some, true, false, ◌&&◌, ◌==◌,
  string_eq, nat_eq, eq_iff, if_elim, arith, All, All-map,
}
use nest_shortlink_platform.Common.Effects.{threw}
use nest_shortlink_platform.Http.{unauthorized}
use nest_shortlink_platform.Sessions.{
  AuthSession, RefreshTokenPayload, Crypto, is_none, update_many, may_rotate, rotated, open_session,
  revoked, logout, Action, refreshes, logs_in, logs_out, logs_out_everywhere, act_all,
}
use nest_shortlink_platform.Sessions.Rows.{Opens, act_all-All}
use nest_shortlink_platform.Sessions.Barred.{Other}
use nest_shortlink_platform.Sessions.Guard.{
  AccessTokenPayload, AccessCrypto, Route, verify_access_token, is_live, admit, check_session,
  check_token, jwt_guard, extract_token_from_header,
}

-- The row is not of the session, or it is revoked.
Ended : String → String → AuthSession → Type 0
Ended user session row = row.id ≡ session → row.user_id ≡ user → is_none row.revoked_at ≡ false

rotated-Ended :
    (crypto : Crypto) (user session : String) (other : RefreshTokenPayload) (hash : String)
    (now : ℕ) (row : AuthSession)
    → may_rotate crypto other hash now row ≡ true
    → Ended user session row
    → Ended user session (rotated crypto other now row)
unfolding may_rotate Ended
rotated-Ended crypto user session other hash now row passes h = h

revoked-Ended :
    (user session : String) (now : ℕ) (row : AuthSession) → Ended user session (revoked now row)
unfolding is_none Ended
revoked-Ended user session now row i u = refl

Opens-Ended :
    (crypto : Crypto) (user session : String) (a : Action)
    → Other session a
    → Opens crypto
        (Ended user session)
        (rotated-Ended crypto user session)
        (λ now row _. revoked-Ended user session now row)
        a
unfolding open_session Ended
Opens-Ended crypto user session (refreshes token now) o = tt
Opens-Ended crypto user session (logs_in other opened now) o = ((λ i u. absurd (o i)), tt)
Opens-Ended crypto user session (logs_out other ended now) o = tt
Opens-Ended crypto user session (logs_out_everywhere other now) o = tt

-- The logout itself.
logout-Ended :
    (user session : String) (now : ℕ) (sessions : List AuthSession)
    → All (Ended user session) (logout user session now sessions)
unfolding logout update_many Ended
logout-Ended user session now [] = tt
logout-Ended user session now (row ∷ rows) =
    let rest = logout-Ended user session now rows in
    if_elim {A = ℕ × List AuthSession} (λ r. All (Ended user session) r.1)
      ((row.id == session) && (row.user_id == user) && is_none row.revoked_at) _ _
      (λ _. (revoked-Ended user session now row, rest))
      (λ h.
        ((λ i u. ground (arith, h, i, u, eq_iff row.id session, eq_iff row.user_id user)), rest))

find-Ended :
    (payload : AccessTokenPayload) (now : ℕ) (sessions : List AuthSession)
    → All (Ended payload.sub payload.sid) sessions
    → find (is_live payload now) sessions ≡ none
unfolding is_live Ended
find-Ended payload now [] h = refl
find-Ended payload now (row ∷ rows) (h, hs) =
    let rest = find-Ended payload now rows hs in
    let dead : is_live payload now row ≡ false =
      ground (arith, h, eq_iff row.id payload.sid, eq_iff row.user_id payload.sub) in
    rw dead rest

-- Once a session is logged out, a request that carries an access token of it is refused with 401 on
-- every route that is not public, whatever the users do in between and whenever the token ends. No
-- later login is given the same session id.
pub logout-refused :
    (crypto : Crypto) (access : AccessCrypto) (route : Route) (header token : List ℕ)
    (payload : AccessTokenPayload) (sessions : List AuthSession) (actions : List Action)
    (at later : ℕ) (user : Option AccessTokenPayload)
    → route.is_public ≡ false
    → extract_token_from_header (some header) ≡ some token
    → verify_access_token access token later ≡ some payload
    → All (Other payload.sid) actions
    → jwt_guard access route later
        (act_all crypto (logout payload.sub payload.sid at sessions) actions)
        (some header)
        user
      ≡ threw (unauthorized "Session is invalid or revoked") user
unfolding jwt_guard check_token check_session admit
logout-refused crypto access route header token payload sessions actions at later user closed
      carries verified o =
    let rows = act_all crypto (logout payload.sub payload.sid at sessions) actions in
    let ended : All (Ended payload.sub payload.sid) rows =
      act_all-All crypto (Ended payload.sub payload.sid)
        (rotated-Ended crypto payload.sub payload.sid)
        (λ now row _. revoked-Ended payload.sub payload.sid now row)
        (logout payload.sub payload.sid at sessions) actions
        (All-map _ _ actions (Opens-Ended crypto payload.sub payload.sid) o)
        (logout-Ended payload.sub payload.sid at sessions) in
    rw (closed, carries, verified)
      (ap (λ found. admit payload found user) (find-Ended payload later rows ended))
