-- ===== src/Sessions/Barred.antt =====
-- Sessions that a refresh token can no longer rotate, and that they stay so.
use nest_shortlink_platform.Common.{
  ℕ, ◌<◌, ◌≡◌, ◌≢◌, ◌⊎◌, inl, inr, refl, sym, ap, ◌∙◌, String, List, [], ◌∷◌, Option, none, some,
  Bool, true, false, ◌==◌, string_eq, nat_eq, eq_iff, if_elim, arith, All, All-map,
}
use mathlib.Core.Path.{subst}
use nest_shortlink_platform.Sessions.Rows.{Opens, act_all-All}
use nest_shortlink_platform.Sessions.{
  AuthSession, RefreshTokenPayload, Crypto, is_none, update_many, verify_refresh_token, check_kind,
  hash_refresh_token, may_rotate, rotated, rotate, rotate_verified, refresh, open_session, revoked,
  Action, refreshes, logs_in, logs_out, logs_out_everywhere, act_all,
}

-- The row is not one that the payload may rotate, now or later: it is another session or user's, or
-- has a later version, or is revoked.
abbrev pub Barred : RefreshTokenPayload → AuthSession → Type 0
Barred payload row =
    row.id ≡ payload.sid
    → row.user_id ≡ payload.sub
    → (payload.ver < row.version) ⊎ (is_none row.revoked_at ≡ false)

pub Barred-may_rotate :
    (crypto : Crypto) (payload : RefreshTokenPayload) (hash : String) (now : ℕ) (row : AuthSession)
    → Barred payload row
    → may_rotate crypto payload hash now row ≡ false
unfolding may_rotate
Barred-may_rotate crypto payload hash now row h =
    ground (arith, eq_iff row.id payload.sid, eq_iff row.user_id payload.sub, h)

-- No row is updated if none passes the test.
pub update_many-none :
    (where_ : AuthSession → Bool) (change : AuthSession → AuthSession) (sessions : List AuthSession)
    → All (λ row. where_ row ≡ false) sessions
    → update_many where_ change sessions ≡ (0, sessions)
unfolding update_many
update_many-none where_ change [] h = refl
update_many-none where_ change (row ∷ sessions) (h, hs) =
    let rest : update_many where_ change sessions ≡ (0, sessions) =
      update_many-none where_ change sessions hs in
    rw (h, rest) refl

rotated-Barred :
    (crypto : Crypto) (payload other : RefreshTokenPayload) (hash : String) (now : ℕ)
    (row : AuthSession)
    → may_rotate crypto other hash now row ≡ true
    → Barred payload row
    → Barred payload (rotated crypto other now row)
unfolding may_rotate
rotated-Barred crypto payload other hash now row passes h i u = elim (h i u) [
  | inl older ↦ inl (ground arith)
  | inr gone ↦ inr gone
]

pub revoked-Barred :
    (payload : RefreshTokenPayload) (now : ℕ) (row : AuthSession) → Barred payload (revoked now row)
unfolding is_none
revoked-Barred payload now row i u = inr refl

-- A login of another session.
abbrev pub Other : String → Action → Type 0
Other session (logs_in user opened now) = opened ≢ session
Other session _ = Unit {0}

Opens-Barred :
    (crypto : Crypto) (payload : RefreshTokenPayload) (a : Action)
    → Other payload.sid a
    → Opens crypto
        (Barred payload)
        (rotated-Barred crypto payload)
        (λ now row _. revoked-Barred payload now row)
        a
unfolding open_session
Opens-Barred crypto payload (refreshes token now) o = tt
Opens-Barred crypto payload (logs_in user session now) o = ((λ i u. absurd (o i)), tt)
Opens-Barred crypto payload (logs_out user session now) o = tt
Opens-Barred crypto payload (logs_out_everywhere user now) o = tt

pub act_all-Barred :
    (crypto : Crypto) (payload : RefreshTokenPayload) (sessions : List AuthSession)
    (actions : List Action)
    → All (Other payload.sid) actions
    → All (Barred payload) sessions
    → All (Barred payload) (act_all crypto sessions actions)
act_all-Barred crypto payload sessions actions o h =
    act_all-All crypto (Barred payload) (rotated-Barred crypto payload)
      (λ now row _. revoked-Barred payload now row) sessions actions
      (All-map _ _ actions (Opens-Barred crypto payload) o) h

rotate-refused :
    (crypto : Crypto) (payload : RefreshTokenPayload) (token : String) (now : ℕ)
    (sessions : List AuthSession)
    → All (Barred payload) sessions
    → rotate crypto payload token now sessions ≡ (none, sessions)
unfolding rotate
rotate-refused crypto payload token now sessions h =
    rw
      (
        update_many-none (may_rotate crypto payload (hash_refresh_token crypto token) now)
            (rotated crypto payload now) sessions (blocked sessions h),
        rotate,
      )
      refl
  where
    blocked :
        (rows : List AuthSession)
        → All (Barred payload) rows
        → All
            (λ row. may_rotate crypto payload (hash_refresh_token crypto token) now row ≡ false)
            rows
    blocked [] k = tt
    blocked (row ∷ rows) (k, ks) = (
      Barred-may_rotate crypto payload (hash_refresh_token crypto token) now row k,
      blocked rows ks,
    )

check_kind-cases :
    (crypto : Crypto) (found : Option RefreshTokenPayload) (payload : RefreshTokenPayload)
    → found ≡ some payload
    → (check_kind crypto found ≡ none) ⊎ (check_kind crypto found ≡ some payload)
unfolding check_kind
check_kind-cases crypto found payload p =
    subst (λ f. (check_kind crypto f ≡ none) ⊎ (check_kind crypto f ≡ some payload)) (sym p)
      (if_elim {A = Option RefreshTokenPayload} (λ r. (r ≡ none) ⊎ (r ≡ some payload))
        (payload.kind == "refresh") _ _ (λ _. inr refl) (λ _. inl refl))

pub verify_refresh_token-cases :
    (crypto : Crypto) (payload : RefreshTokenPayload) (token : String) (now : ℕ)
    → crypto.jwt_payload token ≡ some payload
    → (verify_refresh_token crypto token now ≡ none)
      ⊎ (verify_refresh_token crypto token now ≡ some payload)
unfolding verify_refresh_token
verify_refresh_token-cases crypto payload token now p =
    if_elim {A = Option RefreshTokenPayload} (λ r. (r ≡ none) ⊎ (r ≡ some payload))
      (crypto.jwt_valid token now) _ _
      (λ _. check_kind-cases crypto (crypto.jwt_payload token) payload p) (λ _. inl refl)

pub refresh-refused :
    (crypto : Crypto) (payload : RefreshTokenPayload) (token : String) (now : ℕ)
    (sessions : List AuthSession)
    → crypto.jwt_payload token ≡ some payload
    → All (Barred payload) sessions
    → refresh crypto token now sessions ≡ (none, sessions)
unfolding refresh rotate_verified
refresh-refused crypto payload token now sessions p h =
    elim (verify_refresh_token-cases crypto payload token now p) [
      | inl bad ↦ ap (λ found. rotate_verified crypto found token now sessions) bad
      | inr good ↦
          ap (λ found. rotate_verified crypto found token now sessions) good
          ∙ rotate-refused crypto payload token now sessions h
    ]
