-- ===== src/Sessions/SingleUse.antt =====
-- A refresh token is good for one refresh, and for none after a logout.
use nest_shortlink_platform.Common.{
  ℕ, ◌≡◌, ◌≢◌, inl, inr, ap, String, List, [], ◌∷◌, none, some, Bool, true, false, ◌&&◌, ◌==◌,
  string_eq, nat_eq, eq_iff, nat_beq_iff, if_elim, Bool-cases, arith, All,
}
use nest_shortlink_platform.Sessions.{
  AuthSession, RefreshTokenPayload, Crypto, Tokens, is_none, update_many, hash_refresh_token,
  may_rotate, rotated, rotate, rotate_verified, refresh, logout, Action, act_all,
}
use nest_shortlink_platform.Sessions.Barred.{
  Barred, Barred-may_rotate, update_many-none, revoked-Barred, Other, act_all-Barred,
  refresh-refused, verify_refresh_token-cases,
}

-- At most one row has the session's id, as its primary key says.
abbrev pub OneRow : String → List AuthSession → Type 0
OneRow session [] = Unit {0}
OneRow session (row ∷ rows) =
    (row.id ≡ session → All (λ r. r.id ≢ session) rows) × OneRow session rows

foreign :
    (crypto : Crypto) (payload : RefreshTokenPayload) (hash : String) (now : ℕ)
    (rows : List AuthSession)
    → All (λ r. r.id ≢ payload.sid) rows
    → All (λ r. may_rotate crypto payload hash now r ≡ false) rows × All (Barred payload) rows
foreign crypto payload hash now [] h = (tt, tt)
foreign crypto payload hash now (row ∷ rows) (h, hs) =
    let barred : Barred payload row = λ i u. absurd (h i) in
    let (passed, kept) = foreign crypto payload hash now rows hs in
    ((Barred-may_rotate crypto payload hash now row barred, passed), (barred, kept))

rotated_own :
    (crypto : Crypto) (payload : RefreshTokenPayload) (now : ℕ) (row : AuthSession)
    → Barred payload (rotated crypto payload now row)
rotated_own crypto payload now row i u = inl (omega arith)

may_rotate-id :
    (crypto : Crypto) (payload : RefreshTokenPayload) (hash : String) (now : ℕ) (row : AuthSession)
    → may_rotate crypto payload hash now row ≡ true
    → row.id ≡ payload.sid
unfolding may_rotate
may_rotate-id crypto payload hash now row h = ground (arith, eq_iff row.id payload.sid)

update_many-Barred :
    (crypto : Crypto) (payload : RefreshTokenPayload) (hash : String) (now : ℕ)
    (sessions : List AuthSession)
    → OneRow payload.sid sessions
    → (update_many (may_rotate crypto payload hash now) (rotated crypto payload now) sessions).0 ≡ 1
    → All
        (Barred payload)
        (update_many (may_rotate crypto payload hash now) (rotated crypto payload now) sessions).1
unfolding update_many
update_many-Barred crypto payload hash now [] o c = tt
update_many-Barred crypto payload hash now (row ∷ rows) (o, os) c = elim (Bool-cases (test row)) [
  | inl passes ↦
      let (others, barred) =
        foreign crypto payload hash now rows
          (o (may_rotate-id crypto payload hash now row passes)) in
      rw (passes, update_many-none test change rows others)
        (rotated_own crypto payload now row, barred)
  | inr fails ↦
      let one : (update_many test change rows).0 ≡ 1 = rw fails at c in
      let absent : row.id ≡ payload.sid → ⊥ =
        λ i. none_of (foreign crypto payload hash now rows (o i)).0 one in
      rw fails ((λ i u. absurd (absent i)), update_many-Barred crypto payload hash now rows os one)
]
  where
    test : AuthSession → Bool
    test = may_rotate crypto payload hash now

    change : AuthSession → AuthSession
    change = rotated crypto payload now

    none_of :
        All (λ r. may_rotate crypto payload hash now r ≡ false) rows
        → (update_many (may_rotate crypto payload hash now) (rotated crypto payload now) rows).0 ≡ 1
        → ⊥
    none_of blocked one =
        let zero_rows : (update_many (may_rotate crypto payload hash now)
              (rotated crypto payload now) rows).0
            ≡ 0 =
          ap (λ r. r.0)
            (update_many-none (may_rotate crypto payload hash now) (rotated crypto payload now) rows
              blocked) in
        omega (arith, zero_rows, one)

rotate_granted-Barred :
    (crypto : Crypto) (payload : RefreshTokenPayload) (token : String) (now : ℕ) (tokens : Tokens)
    (sessions : List AuthSession)
    → OneRow payload.sid sessions
    → (rotate crypto payload token now sessions).0 ≡ some tokens
    → All (Barred payload) (rotate crypto payload token now sessions).1
unfolding rotate
rotate_granted-Barred crypto payload token now tokens sessions o h =
    let r : ℕ × List AuthSession =
      update_many (may_rotate crypto payload (hash_refresh_token crypto token) now)
        (rotated crypto payload now) sessions in
    elim (Bool-cases (r.0 == 1)) [
      | inl one ↦ rw one (
          update_many-Barred crypto payload (hash_refresh_token crypto token) now sessions o
            ((nat_beq_iff r.0 1).0 one))
      | inr other ↦ absurd (nothing (rw other at h))
    ]
  where
    nothing : none ≡ some tokens → ⊥
    nothing e = cc

refresh_granted-Barred :
    (crypto : Crypto) (payload : RefreshTokenPayload) (token : String) (now : ℕ) (tokens : Tokens)
    (sessions : List AuthSession)
    → crypto.jwt_payload token ≡ some payload
    → OneRow payload.sid sessions
    → (refresh crypto token now sessions).0 ≡ some tokens
    → All (Barred payload) (refresh crypto token now sessions).1
unfolding refresh rotate_verified
refresh_granted-Barred crypto payload token now tokens sessions p o h =
    elim (verify_refresh_token-cases crypto payload token now p) [
      | inl bad ↦ absurd (nothing (rw bad at h))
      | inr good ↦
          rw good (rotate_granted-Barred crypto payload token now tokens sessions o (rw good at h))
    ]
  where
    nothing : none ≡ some tokens → ⊥
    nothing e = cc

-- If the table has at most one row of a token's session, then once the token has been exchanged
-- for new ones, whatever refreshes, logouts and logins of other sessions follow, presenting it
-- again is refused, at any time, and changes no session.
pub refresh_single_use :
    (crypto : Crypto) (payload : RefreshTokenPayload) (token : String) (now later : ℕ)
    (tokens : Tokens) (sessions : List AuthSession) (actions : List Action)
    → crypto.jwt_payload token ≡ some payload
    → OneRow payload.sid sessions
    → (refresh crypto token now sessions).0 ≡ some tokens
    → All (Other payload.sid) actions
    → refresh crypto token later (act_all crypto (refresh crypto token now sessions).1 actions)
      ≡ (none, act_all crypto (refresh crypto token now sessions).1 actions)
refresh_single_use crypto payload token now later tokens sessions actions p o h others =
    refresh-refused crypto payload token later _ p (
      act_all-Barred crypto payload (refresh crypto token now sessions).1 actions others
        (refresh_granted-Barred crypto payload token now tokens sessions p o h))

logout-Barred :
    (payload : RefreshTokenPayload) (now : ℕ) (sessions : List AuthSession)
    → All (Barred payload) (logout payload.sub payload.sid now sessions)
unfolding logout update_many
logout-Barred payload now [] = tt
logout-Barred payload now (row ∷ sessions) =
    if_elim {A = ℕ × List AuthSession} (λ r. All (Barred payload) r.1)
      ((row.id == payload.sid) && (row.user_id == payload.sub) && is_none row.revoked_at) _ _
      (λ _. (revoked-Barred payload now row, logout-Barred payload now sessions))
      (λ fails. (
        λ i u. inr (
            last_test (row.id == payload.sid) (row.user_id == payload.sub) (is_none row.revoked_at)
              ((eq_iff row.id payload.sid).1 i) ((eq_iff row.user_id payload.sub).1 u) fails),
        logout-Barred payload now sessions,
      ))
  where
    last_test : (a b c : Bool) → a ≡ true → b ≡ true → (a && b && c) ≡ false → c ≡ false
    last_test a b c h k e = ground arith

-- After the logout of a session, no refresh token of that session and user is exchanged again,
-- whatever refreshes, logouts and logins of other sessions follow, and whenever it is presented.
pub logout_revokes :
    (crypto : Crypto) (payload : RefreshTokenPayload) (token : String) (now later : ℕ)
    (sessions : List AuthSession) (actions : List Action)
    → crypto.jwt_payload token ≡ some payload
    → All (Other payload.sid) actions
    → refresh crypto token later
        (act_all crypto (logout payload.sub payload.sid now sessions) actions)
      ≡ (none, act_all crypto (logout payload.sub payload.sid now sessions) actions)
logout_revokes crypto payload token now later sessions actions p others =
    refresh-refused crypto payload token later _ p (
      act_all-Barred crypto payload (logout payload.sub payload.sid now sessions) actions others
        (logout-Barred payload now sessions))
