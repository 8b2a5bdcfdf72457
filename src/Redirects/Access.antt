-- ===== src/Redirects/Access.antt =====
-- Who gets a target: only those whom the link's visibility admits.
use nest_shortlink_platform.Common.{
  ℕ, ◌≡◌, refl, sym, ap, ◌<◌, Bool-cases, inl, inr, String, Option, none, some, Bool, true, false,
  not, ◌==◌, string_eq, nat_eq, eq_iff, if◌then◌else◌, arith,
}
use mathlib.Core.Path.{subst}
use nest_shortlink_platform.Common.Effects.{Outcome, ok, threw, Eff, pure, ◌>>=◌, ◌>>◌}
use nest_shortlink_platform.Common.Ensures.{Ensures, Returns, Ensures-bind, Ensures-weaken}
use nest_shortlink_platform.Http.{HttpError, not_found, unauthorized, forbidden}
use nest_shortlink_platform.Cache.{Request, Outside, CacheEnv}
use nest_shortlink_platform.Cache.Redirect as Cache
use nest_shortlink_platform.Cache.Redirect.{
  LinkStatus, Visibility, active, disabled, public, workspace, private, password, RedirectSnapshot,
  Json, CacheType, with_type,
}
use nest_shortlink_platform.Cache.Coherence.{Honest}
use nest_shortlink_platform.Cache.Availability.{
  Presents, RoundTrips, CoherentFor, Loads, text_of, get_or_load-Presents,
}
use nest_shortlink_platform.Redirects.{
  RedirectTarget, ShareAccessPayload, Services, target, expired, is_active, payload_matches,
  reject_if, assert_available, authorize_workspace, authorize_private, verify, check_payload,
  authorize_password, authorize_as, authorize, resolve_limited, count_visit, redirect_to,
  resolve_internal, load_from_database,
}

module _ {E R : Type 0} (o : Outside E R) (json : Json E) (env : CacheEnv)
    (services : Services E R) where
  -- The token is verified at a time, and is for the link as it is now.
  abbrev pub HoldsToken : ℕ → RedirectSnapshot → Option String → Type 0
  HoldsToken time link token =
      (t : String) × (payload : ShareAccessPayload) × (token ≡ some t)
      × (services.jwt_verify t time ≡ some payload)
      × (payload.kind ≡ "share_access")
      × (payload.link_id ≡ link.id)
      × (payload.code ≡ link.code)
      × (payload.ver ≡ link.access_version)

  -- Whom a visibility admits at a time: `Member` says who has access to a workspace.
  abbrev pub Admits :
      (String → String → Type 0)
      → ℕ
      → Visibility
      → RedirectSnapshot
      → Option String
      → Option String
      → Type 0
  Admits Member time public link user token = Unit {0}
  Admits Member time workspace link user token =
      (u : String) × (user ≡ some u) × Member u link.workspace_id
  Admits Member time private link user token = user ≡ some link.created_by_id
  Admits Member time password link user token = HoldsToken time link token

  abbrev Anything : Request R → Type 0
  Anything q = Unit {0}

  trivially : {A : Type 0} (r : Outcome E (Request R) A) → Ensures Anything (λ _. Unit {0}) r
  trivially (ok a t) = (tt, tt)
  trivially (threw e t) = tt

  -- A check: if it returns, the state is as it was before.
  abbrev Passes : {A : Type 0} → (A → Type 0) → Request R → Outcome E (Request R) A → Type 0
  Passes Q q (ok a t) = Q a × (t ≡ q)
  Passes Q q (threw e t) = Unit {0}

  Passes-bind :
      {A B : Type 0} (Q : A → Type 0) (P : B → Type 0) (q : Request R) (r : Outcome E (Request R) A)
      (f : A → Eff E (Request R) B)
      → Passes Q q r
      → ((a : A) → Q a → Ensures Anything P (f a q))
      → Ensures Anything P (elim r [ ok a t ↦ f a t | threw e t ↦ threw e t ])
  Passes-bind Q P q (ok a t) f (h, same) k =
      subst (λ s. Ensures Anything P (f a s)) (sym same) (k a h)
  Passes-bind Q P q (threw e t) f h k = tt

  reject_if-Passes :
      (test : Bool) (error : HttpError) (q : Request R)
      → Passes (λ _. test ≡ false) q (reject_if o json env services test error q)
  unfolding reject_if
  reject_if-Passes true error q = tt
  reject_if-Passes false error q = (refl, refl)

  -- A test that was passed.
  reject_if-Ensures :
      (test : Bool) (error : HttpError) (q : Request R)
      → Ensures Anything (λ _. test ≡ false) (reject_if o json env services test error q)
  unfolding reject_if
  reject_if-Ensures true error q = tt
  reject_if-Ensures false error q = (refl, tt)

  private_same : (user owner : String) → not (user == owner) ≡ false → user ≡ owner
  private_same user owner h = ground (arith, eq_iff user owner)

  authorize_private-Ensures :
      (link : RedirectSnapshot) (user : Option String) (q : Request R)
      → Ensures Anything
          (λ _. user ≡ some link.created_by_id)
          (authorize_private o json env services link user q)
  unfolding authorize_private
  authorize_private-Ensures link none q = tt
  authorize_private-Ensures link (some user) q =
      Ensures-bind Anything (λ _. (user == "") ≡ false) (λ _. some user ≡ some link.created_by_id)
        (reject_if o json env services (user == "") (unauthorized "Authentication required") q)
        (λ _.
          reject_if o json env services (not (user == link.created_by_id))
            (not_found "Short link not found"))
        (reject_if-Ensures (user == "") _ q)
        (λ _ t _ _.
          Ensures-weaken Anything _ _
            (reject_if o json env services (not (user == link.created_by_id))
              (not_found "Short link not found") t)
            (λ _ h. ap some (private_same user link.created_by_id h)) (reject_if-Ensures _ _ t))

  module _ (Member : String → String → Type 0)
      (members : (u w : String) (q : Request R)
        → Ensures Anything
            (λ access. access ≡ true → Member u w)
            (services.workspace_access u w q)) where
    authorize_workspace-Ensures :
        (link : RedirectSnapshot) (user : Option String) (q : Request R)
        → Ensures Anything
            (λ _. (u : String) × (user ≡ some u) × Member u link.workspace_id)
            (authorize_workspace o json env services link user q)
    unfolding authorize_workspace reject_if
    authorize_workspace-Ensures link none q = tt
    authorize_workspace-Ensures link (some user) q =
        Ensures-bind Anything (λ _. (user == "") ≡ false)
          (λ _. (u : String) × (some user ≡ some u) × Member u link.workspace_id)
          (reject_if o json env services (user == "") (unauthorized "Authentication required") q)
          (λ _. services.workspace_access user link.workspace_id >>= (λ access.
            reject_if o json env services (not access) (not_found "Short link not found")))
          (reject_if-Ensures (user == "") _ q)
          (λ _ t _ _.
            Ensures-bind Anything (λ access. access ≡ true → Member user link.workspace_id)
              (λ _. (u : String) × (some user ≡ some u) × Member u link.workspace_id)
              (services.workspace_access user link.workspace_id t)
              (λ access.
                reject_if o json env services (not access) (not_found "Short link not found"))
              (members user link.workspace_id t) given)
      where
        given :
            (access : Bool) (t : Request R)
            → (access ≡ true → Member user link.workspace_id)
            → Anything t
            → Ensures Anything
                (λ _. (u : String) × (some user ≡ some u) × Member u link.workspace_id)
                (reject_if o json env services (not access) (not_found "Short link not found") t)
        given true t h k = ((user, refl, h refl), tt)
        given false t h k = tt

    matches :
        (p : ShareAccessPayload) (link : RedirectSnapshot)
        → not (payload_matches p link) ≡ false
        → (p.link_id ≡ link.id) × (p.code ≡ link.code) × (p.ver ≡ link.access_version)
    unfolding payload_matches
    matches p link h = ground (arith, eq_iff p.link_id link.id, eq_iff p.code link.code)

    verified :
        (token : String) (time : ℕ) (payload : ShareAccessPayload)
        → verify o json env services token time ≡ some payload
        → (services.jwt_verify token time ≡ some payload) × (payload.kind ≡ "share_access")
    unfolding verify
    verified token time payload h = checked (services.jwt_verify token time) h
      where
        checked :
            (found : Option ShareAccessPayload)
            → elim found [
              | none ↦ none
              | some p ↦ if p.kind == "share_access" then some p else none
            ]
              ≡ some payload
            → (found ≡ some payload) × (payload.kind ≡ "share_access")
        checked none e = cc
        checked (some p) e = ground (arith, eq_iff p.kind "share_access")

    check_payload-Ensures :
        (link : RedirectSnapshot) (token : String) (time : ℕ) (found : Option ShareAccessPayload)
        (q : Request R)
        → verify o json env services token time ≡ found
        → Ensures Anything
            (λ _. HoldsToken time link (some token))
            (check_payload o json env services link found q)
    unfolding check_payload
    check_payload-Ensures link token time none q h = tt
    check_payload-Ensures link token time (some payload) q h =
        let (signed, kind) = verified token time payload h in
        Ensures-weaken Anything _ _
          (reject_if o json env services (not (payload_matches payload link))
            (forbidden "Share access invalid") q)
          (λ _ k.
            let (same_link, same_code, same_ver) = matches payload link k in
            (token, payload, refl, signed, kind, same_link, same_code, same_ver))
          (reject_if-Ensures _ _ q)

    authorize_password-Ensures :
        (link : RedirectSnapshot) (token : Option String) (q : Request R)
        → Ensures Anything
            (λ _. HoldsToken (o.now q.shared) link token)
            (authorize_password o json env services link token q)
    unfolding authorize_password
    authorize_password-Ensures link none q = tt
    authorize_password-Ensures link (some token) q =
        Passes-bind (λ _. (token == "") ≡ false)
          (λ _. HoldsToken (o.now q.shared) link (some token)) q
          (reject_if o json env services (token == "") (forbidden "Share password required") q)
          (λ _ t.
            check_payload o json env services link
              (verify o json env services token (o.now t.shared)) t)
          (reject_if-Passes (token == "") _ q)
          (λ _ _. check_payload-Ensures link token (o.now q.shared) _ q refl)

    authorize_as-Ensures :
        (v : Visibility) (link : RedirectSnapshot) (user token : Option String) (q : Request R)
        → Ensures Anything
            (λ _. Admits Member (o.now q.shared) v link user token)
            (authorize_as o json env services v link user token q)
    unfolding authorize_as
    authorize_as-Ensures public link user token q = (tt, tt)
    authorize_as-Ensures workspace link user token q = authorize_workspace-Ensures link user q
    authorize_as-Ensures private link user token q = authorize_private-Ensures link user q
    authorize_as-Ensures password link user token q = authorize_password-Ensures link token q

    abbrev pub LiveAt : ℕ → Option ℕ → Type 0
    LiveAt time none = Unit {0}
    LiveAt time (some at) = time < at

    -- The link is active, and not expired at a time.
    abbrev pub Available : ℕ → RedirectSnapshot → Type 0
    Available time link = (link.status ≡ active) × LiveAt time link.expires_at

    active_test : (status : LinkStatus) → is_active status ≡ true → status ≡ active
    unfolding is_active
    active_test active h = refl
    active_test disabled h = cc

    live_test :
        (time : ℕ) (expires_at : Option ℕ)
        → expired expires_at time ≡ false
        → LiveAt time expires_at
    unfolding expired
    live_test time none h = tt
    live_test time (some at) h = ground (arith, h)

    assert_available-Passes :
        (link : RedirectSnapshot) (q : Request R)
        → Passes
            (λ _. Available (o.now q.shared) link)
            q
            (assert_available o json env services link q)
    unfolding assert_available
    assert_available-Passes link q = elim (Bool-cases (is_active link.status)) [
      | inr off ↦ rw off tt
      | inl live ↦ elim (Bool-cases (expired link.expires_at (o.now q.shared))) [
        | inl late ↦ rw (live, late) tt
        | inr early ↦
            rw (live, early)
              (
                (active_test link.status live, live_test (o.now q.shared) link.expires_at early),
                refl,
              )
      ]
    ]

    -- Whether the database counts the visit: it does for a link with a limit.
    abbrev pub CountedBy : Option ℕ → Bool → Type 0
    CountedBy (some limit) incremented = incremented ≡ true
    CountedBy none incremented = incremented ≡ false

    -- The target is that of the link.
    abbrev pub LeadsTo : RedirectSnapshot → RedirectTarget → Type 0
    LeadsTo link t =
        (t.original_url ≡ link.original_url)
        × (t.code ≡ link.code)
        × (t.short_link_id ≡ link.id)
        × (t.workspace_id ≡ link.workspace_id)
        × CountedBy link.max_visits t.database_visit_count_incremented

    count_visit-Ensures :
        (limit : Option ℕ) (link : RedirectSnapshot) (q : Request R)
        → link.max_visits ≡ limit
        → Ensures Anything (LeadsTo link) (count_visit o json env services limit link q)
    unfolding count_visit
    count_visit-Ensures (some limit) link q same =
        Ensures-bind Anything (λ _. Unit {0}) _ (resolve_limited o json env services link q)
          (λ _. pure (target link true)) (trivially _)
          (λ _ t _ _. ((refl, refl, refl, refl, subst (λ l. CountedBy l true) (sym same) refl), tt))
    count_visit-Ensures none link q same =
        Ensures-bind Anything (λ _. Unit {0}) _
          (Cache.increment_visit o json env link.id link.visit_count q)
          (λ _. pure (target link false)) (trivially _)
          (λ _ t _ _.
            ((refl, refl, refl, refl, subst (λ l. CountedBy l false) (sym same) refl), tt))

    -- What a request may be given of a link at a time.
    abbrev pub Allowed :
        ℕ → RedirectSnapshot → Option String → Option String → RedirectTarget → Type 0
    Allowed time link user token t =
        LeadsTo link t × Available time link × Admits Member time link.visibility link user token

    redirect_to-Ensures :
        (link : RedirectSnapshot) (user token : Option String) (q : Request R)
        → Ensures Anything
            (Allowed (o.now q.shared) link user token)
            (redirect_to o json env services user token (some link) q)
    unfolding redirect_to authorize
    redirect_to-Ensures link user token q =
        Passes-bind (λ _. Available (o.now q.shared) link) Q q
          (assert_available o json env services link q) (λ _. admitted)
          (assert_available-Passes link q)
          (λ _ free.
            Ensures-bind Anything
              (λ _. Admits Member (o.now q.shared) link.visibility link user token) Q
              (authorize_as o json env services link.visibility link user token q)
              (λ _. count_visit o json env services link.max_visits link)
              (authorize_as-Ensures link.visibility link user token q)
              (λ _ u allowed _.
                Ensures-weaken Anything _ Q (count_visit o json env services link.max_visits link u)
                  (λ _ led. (led, free, allowed))
                  (count_visit-Ensures link.max_visits link u refl)))
      where
        Q : RedirectTarget → Type 0
        Q = Allowed (o.now q.shared) link user token

        admitted : Eff E (Request R) RedirectTarget
        admitted =
            authorize_as o json env services link.visibility link user token
            >> count_visit o json env services link.max_visits link

    -- What the database holds for the code, and what of it a request may be given at a time.
    abbrev pub Granted :
        Option RedirectSnapshot → ℕ → Option String → Option String → RedirectTarget → Type 0
    Granted held time user token t =
        (link : RedirectSnapshot) × (held ≡ some link) × Allowed time link user token t

    Admits-with_type :
        (time : ℕ) (v : Visibility) (kind : CacheType) (link : RedirectSnapshot)
        (user token : Option String)
        → Admits Member time v (with_type kind link) user token
        → Admits Member time v link user token
    Admits-with_type time public kind link user token h = h
    Admits-with_type time workspace kind link user token h = h
    Admits-with_type time private kind link user token h = h
    Admits-with_type time password kind link user token h = h

    after_cache :
        (held seen : Option RedirectSnapshot) (user token : Option String) (q : Request R)
        → Presents held seen
        → Ensures Anything
            (Granted held (o.now q.shared) user token)
            (redirect_to o json env services user token seen q)
    unfolding redirect_to
    after_cache held none user token q h = tt
    after_cache none (some link) user token q h = cc
    after_cache (some link) (some shown) user token q (kind, same) =
        subst
          (λ s.
            Ensures Anything (Granted (some link) (o.now q.shared) user token)
              (redirect_to o json env services user token s q))
          (sym same)
          (Ensures-weaken Anything _ _
            (redirect_to o json env services user token (some (with_type kind link)) q)
            (λ t (led, free, allowed). (
              link,
              refl,
              (
                led,
                free,
                Admits-with_type (o.now q.shared) link.visibility kind link user token allowed,
              ),
            ))
            (redirect_to-Ensures (with_type kind link) user token q))

    -- The cache of a request answered, and left the request in this state.
    abbrev pub Looked : String → Request R → Request R → Type 0
    Looked code q s =
        (seen : Option RedirectSnapshot) × (Cache.get_or_load o json env code
            (load_from_database o json env services code) q
          ≡ ok seen s)

    -- If the caches are coherent for the code, the services keep their promises (`Honest`), the
    -- database answers each load with what it holds, its snapshot survives JSON, and `Member`
    -- holds of each user and workspace for which an access is found: a request gets a target only
    -- of a link that the database holds, that is active, whose expiry, if any, is later than the
    -- time at which the cache answered, and whose visibility admits the request, where a token is
    -- verified at that same time. The target has that link's URL, code, id and workspace, and says
    -- that the database has counted the visit exactly if the link has a limit. Whether Redis
    -- throws, and which layer answers, makes no difference.
    pub resolve_internal-Ensures :
        (code : String) (held : Option RedirectSnapshot) (Agrees : R → Type 0)
        (rt : RoundTrips json held)
        (honest : Honest o code
          (text_of o json env code held Agrees (load_from_database o json env services code))
          Agrees)
        (loads : Loads o json env code held Agrees (load_from_database o json env services code))
        (user token : Option String) (q : Request R)
        → CoherentFor o json env code held Agrees
            (load_from_database o json env services code)
            q.shared
        → Ensures Anything
            (λ t. (s : Request R) × Looked code q s × Granted held (o.now s.shared) user token t)
            (resolve_internal o json env services code user token q)
    unfolding resolve_internal
    resolve_internal-Ensures code held Agrees rt honest loads user token q h =
        go _ (Cache.get_or_load o json env code loader q) refl
          (get_or_load-Presents o json env code held Agrees loader rt honest loads q h)
      where
        loader : Eff E (Request R) (Option RedirectSnapshot)
        loader = load_from_database o json env services code

        go :
            (Good : Request R → Type 0) (r : Outcome E (Request R) (Option RedirectSnapshot))
            → Cache.get_or_load o json env code loader q ≡ r
            → Returns Good (Presents held) r
            → Ensures Anything
                (λ t.
                  (s : Request R) × Looked code q s × Granted held (o.now s.shared) user token t)
                (elim r [
                  | ok seen s ↦ redirect_to o json env services user token seen s
                  | threw e s ↦ threw e s
                ])
        go Good (ok seen s) e k =
            Ensures-weaken Anything _ _ (redirect_to o json env services user token seen s)
              (λ t granted. (s, (seen, e), granted)) (after_cache held seen user token s k.0)
        go Good (threw e s) same k = absurd k
