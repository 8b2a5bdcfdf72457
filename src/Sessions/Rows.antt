-- ===== src/Sessions/Rows.antt =====
-- What all rows of the table keep, whatever the users do.
use nest_shortlink_platform.Common.{
  ℕ, String, List, [], ◌∷◌, Option, none, some, Bool, true, ◌≡◌, if_elim, All, nat_eq,
}
use nest_shortlink_platform.Sessions.{
  AuthSession, RefreshTokenPayload, Crypto, Tokens, update_many, verify_refresh_token,
  hash_refresh_token, may_rotate, rotated, rotate, rotate_verified, refresh, open_session, revoked,
  logout, logout_all, Action, refreshes, logs_in, logs_out, logs_out_everywhere, act, act_all,
}

-- What holds of the rows before, and of every change, holds of the rows after.
pub update_many-All :
    (P : AuthSession → Type 0) (where_ : AuthSession → Bool) (change : AuthSession → AuthSession)
    (sessions : List AuthSession)
    → ((row : AuthSession) → where_ row ≡ true → P row → P (change row))
    → All P sessions
    → All P (update_many where_ change sessions).1
unfolding update_many
update_many-All P where_ change [] k h = tt
update_many-All P where_ change (row ∷ sessions) k (h, hs) =
    if_elim {A = ℕ × List AuthSession} (λ r. All P r.1) (where_ row) _ _
      (λ passes. (k row passes h, update_many-All P where_ change sessions k hs))
      (λ _. (h, update_many-All P where_ change sessions k hs))

module _ (crypto : Crypto) (P : AuthSession → Type 0)
    (rotates : (other : RefreshTokenPayload) (hash : String) (now : ℕ) (row : AuthSession)
      → may_rotate crypto other hash now row ≡ true
      → P row
      → P (rotated crypto other now row))
    (revokes : (now : ℕ) (row : AuthSession) → P row → P (revoked now row)) where
  rotate-All :
      (other : RefreshTokenPayload) (token : String) (now : ℕ) (sessions : List AuthSession)
      → All P sessions
      → All P (rotate crypto other token now sessions).1
  unfolding rotate
  rotate-All other token now sessions h =
      let hash : String = hash_refresh_token crypto token in
      let test : AuthSession → Bool = may_rotate crypto other hash now in
      let kept : All P (update_many test (rotated crypto other now) sessions).1 =
        update_many-All P test (rotated crypto other now) sessions
          (λ row passes k. rotates other hash now row passes k) h in
      if_elim {A = Option Tokens × List AuthSession} (λ r. All P r.1) _ _ _ (λ _. kept) (λ _. kept)

  refresh-All :
      (token : String) (now : ℕ) (sessions : List AuthSession)
      → All P sessions
      → All P (refresh crypto token now sessions).1
  unfolding refresh
  refresh-All token now sessions h = go (verify_refresh_token crypto token now)
    where
      go :
          (found : Option RefreshTokenPayload)
          → All P (rotate_verified crypto found token now sessions).1
      go none = h
      go (some other) = rotate-All other token now sessions h

  -- A login opens a row that has the property.
  abbrev pub Opens : Action → Type 0
  Opens (logs_in user session now) = All P (open_session crypto user session now [])
  Opens _ = Unit {0}

  act-All :
      (sessions : List AuthSession) (a : Action)
      → Opens a
      → All P sessions
      → All P (act crypto sessions a)
  unfolding act open_session logout logout_all
  act-All sessions (refreshes token now) o h = refresh-All token now sessions h
  act-All sessions (logs_in user session now) o h = (o.0, h)
  act-All sessions (logs_out user session now) o h =
      update_many-All P _ _ sessions (λ row _ k. revokes now row k) h
  act-All sessions (logs_out_everywhere user now) o h =
      update_many-All P _ _ sessions (λ row _ k. revokes now row k) h

  pub act_all-All :
      (sessions : List AuthSession) (actions : List Action)
      → All Opens actions
      → All P sessions
      → All P (act_all crypto sessions actions)
  unfolding act_all
  act_all-All sessions [] o h = h
  act_all-All sessions (a ∷ actions) (o, os) h =
      act_all-All (act crypto sessions a) actions os (act-All sessions a o h)
