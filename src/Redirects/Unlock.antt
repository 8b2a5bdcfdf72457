-- ===== src/Redirects/Unlock.antt =====
-- The share tokens of src/redirects/redirects.service.ts: who gets one, and what it opens.
use nest_shortlink_platform.Common.{
  ℕ, ◌+◌, ◌/◌, ◌<◌, ◌≡◌, ◌≢◌, refl, sym, String, some, Bool, true, false, ◌&&◌, ◌==◌, string_eq,
  nat_eq, eq_iff, if◌then◌else◌, Bool-cases, inl, inr, arith,
}
use nest_shortlink_platform.Common.Effects.{ok, threw}
use nest_shortlink_platform.Http.{forbidden}
use nest_shortlink_platform.Links.{ShortLink}
use nest_shortlink_platform.Cache.{Request, Outside, CacheEnv}
use nest_shortlink_platform.Cache.Redirect.{RedirectSnapshot, Json}
use nest_shortlink_platform.Redirects.{
  ShareAccessPayload, Services, payload_matches, reject_if, verify, sign, check_payload,
  authorize_password,
}

module _ {E R : Type 0} (o : Outside E R) (json : Json E) (env : CacheEnv)
    (services : Services E R) where
  abbrev pub payload_of : ShortLink → ShareAccessPayload
  payload_of row = record {
    kind = "share_access";
    link_id = row.id;
    code = row.code;
    ver = row.access_version;
  }

  -- JwtService counts in whole seconds: a payload that was signed is verified while the second of
  -- the time is before that of the signing and the time to live, and no token of it is empty.
  pub record Signs (payload : ShareAccessPayload) : Type 0 where
    pub verifies :
        (ttl at time : ℕ)
        → time / 1000 < at / 1000 + ttl
        → services.jwt_verify (services.jwt_sign payload ttl at) time ≡ some payload
    pub not_empty : (ttl at : ℕ) → services.jwt_sign payload ttl at ≢ ""

  abbrev pub signed : ShortLink → ℕ → String
  signed row at = sign o json env services row.id row.code row.access_version at

  verify-sign :
      (row : ShortLink) (signs : Signs (payload_of row)) (at time : ℕ)
      → time / 1000 < at / 1000 + 1800
      → verify o json env services (signed row at) time ≡ some (payload_of row)
  unfolding verify sign
  verify-sign row signs at time h = rw (signs.verifies 1800 at time h, verify) refl

  same_tests : (a b c d : Bool) → a ≡ true → b ≡ true → c ≡ d → (a && b && c) ≡ d
  same_tests a b c d h i j = ground arith

  same_version : (v w : ℕ) → (w == v) ≡ (v == w)
  same_version v w = ground arith

  payload_matches-payload_of :
      (row : ShortLink) (link : RedirectSnapshot)
      → link.id ≡ row.id
      → link.code ≡ row.code
      → payload_matches (payload_of row) link ≡ (link.access_version == row.access_version)
  unfolding payload_matches
  payload_matches-payload_of row link i c =
      same_tests (row.id == link.id) (row.code == link.code)
        (row.access_version == link.access_version) (link.access_version == row.access_version)
        ((eq_iff row.id link.id).1 (sym i)) ((eq_iff row.code link.code).1 (sym c))
        (same_version link.access_version row.access_version)

  check_payload-payload_of :
      (row : ShortLink) (link : RedirectSnapshot) (q : Request R)
      → link.id ≡ row.id
      → link.code ≡ row.code
      → check_payload o json env services link (some (payload_of row)) q ≡ (
          if link.access_version == row.access_version
          then ok tt q
          else threw (services.http (forbidden "Share access invalid")) q)
  unfolding check_payload reject_if
  check_payload-payload_of row link q i c =
      let test : payload_matches (payload_of row) link
          ≡ (link.access_version == row.access_version) =
        payload_matches-payload_of row link i c in
      elim (Bool-cases (link.access_version == row.access_version)) [
        | inl same ↦ rw (test, same) refl
        | inr other ↦ rw (test, other) refl
      ]

  filled : (token : String) → token ≢ "" → (token == "") ≡ false
  filled token h = ground (arith, eq_iff token "")

  -- If JwtService verifies what it signed until the time to live is over, counting whole seconds:
  -- in the 1800 seconds from that in which it was signed, a token opens the link of the id and code
  -- that it was signed for if the link's access version is that of the token, and is refused if it
  -- is any other.
  pub authorize_password-sign :
      (row : ShortLink) (signs : Signs (payload_of row)) (at : ℕ) (link : RedirectSnapshot)
      (q : Request R)
      → link.id ≡ row.id
      → link.code ≡ row.code
      → o.now q.shared / 1000 < at / 1000 + 1800
      → authorize_password o json env services link (some (signed row at)) q ≡ (
          if link.access_version == row.access_version
          then ok tt q
          else threw (services.http (forbidden "Share access invalid")) q)
  unfolding authorize_password reject_if sign
  authorize_password-sign row signs at link q i c h =
      let opened : (signed row at == "") ≡ false =
        filled (signed row at) (signs.not_empty 1800 at) in
      rw (opened, verify-sign row signs at (o.now q.shared) h)
        (check_payload-payload_of row link q i c)
