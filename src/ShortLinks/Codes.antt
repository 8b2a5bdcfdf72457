-- ===== src/ShortLinks/Codes.antt =====
-- The codes of new links: the first free one of five, and no code twice.
use nest_shortlink_platform.Common.{
  ℕ, ◌≤◌, ◌≡◌, ◌⊎◌, All, refl, sym, String, List, [], ◌∷◌, ◌++◌, Option, none, some, Bool, true,
  false, string_eq, if◌then◌else◌, if_elim, Bool-cases, inl, inr, arith,
}
use mathlib.Core.Path.{subst}
use nest_shortlink_platform.Common.Effects.{Outcome, ok, threw}
use nest_shortlink_platform.Common.Ensures.{Ensures}
use nest_shortlink_platform.Http.{HttpError, bad_request, service_unavailable}
use nest_shortlink_platform.Links.{ShortLink}
use nest_shortlink_platform.Cache.Redirect.{active}
use nest_shortlink_platform.Redirects.{expired}
use nest_shortlink_platform.ShortLinks.{
  Workspace, CreateShortLinkDto, code_taken, new_link, insert_link, allocate, create,
}

-- The first of some codes that no link has.
pub first_free : List String → List ShortLink → Option String
first_free [] links = none
first_free (code ∷ codes) links =
    if code_taken code links then first_free codes links else some code

abbrev pub Created : Type 0
Created = Outcome HttpError Workspace ShortLink

-- What becomes of a creation if that code is found.
abbrev pub created_with :
    Bool → String → String → String → CreateShortLinkDto → Workspace → Option String → Created
created_with bloom_fails id workspace user dto w none =
    threw (service_unavailable "Unable to allocate a short code") w
created_with bloom_fails id workspace user dto w (some code) =
    ok (new_link id workspace user code dto)
      (insert_link bloom_fails (new_link id workspace user code dto) w)

allocate-first_free :
    (bloom_fails : Bool) (id workspace user : String) (dto : CreateShortLinkDto)
    (codes : List String) (w : Workspace)
    → allocate bloom_fails id workspace user dto codes w
      ≡ created_with bloom_fails id workspace user dto w (first_free codes w.links)
unfolding allocate first_free
allocate-first_free bloom_fails id workspace user dto [] w = refl
allocate-first_free bloom_fails id workspace user dto (code ∷ codes) w =
    elim (Bool-cases (code_taken code w.links)) [
      | inl taken ↦ rw taken (allocate-first_free bloom_fails id workspace user dto codes w)
      | inr free ↦ rw free refl
    ]

abbrev pub five : (String × String × String × String × String) → List String
five (a, b, c, d, e) = a ∷ b ∷ c ∷ d ∷ e ∷ []

create-first_free :
    (bloom_fails : Bool) (id : String) (now : ℕ)
    (codes : String × String × String × String × String) (workspace user : String)
    (dto : CreateShortLinkDto) (w : Workspace)
    → create bloom_fails id now codes workspace user dto w ≡ (
        if expired dto.expires_at now
        then threw (bad_request "expiresAt must be in the future") w
        else created_with bloom_fails id workspace user dto w (first_free (five codes) w.links))
unfolding create
create-first_free bloom_fails id now (a, b, c, d, e) workspace user dto w =
    rw (allocate-first_free bloom_fails id workspace user dto (a ∷ b ∷ c ∷ d ∷ e ∷ []) w) refl

-- No two links have the same code.
abbrev pub HasUniqueCodes : List ShortLink → Type 0
HasUniqueCodes [] = Unit {0}
HasUniqueCodes (row ∷ rows) = (code_taken row.code rows ≡ false) × HasUniqueCodes rows

first_free-code_taken :
    (codes : List String) (links : List ShortLink) (code : String)
    → first_free codes links ≡ some code
    → code_taken code links ≡ false
unfolding first_free
first_free-code_taken [] links code h = cc
first_free-code_taken (c ∷ codes) links code h = elim (Bool-cases (code_taken c links)) [
  | inl taken ↦ first_free-code_taken codes links code (rw taken at h)
  | inr free ↦ let same : some c ≡ some code = rw free at h in ground (arith, same, free)
]

created_with-HasUniqueCodes :
    (bloom_fails : Bool) (id workspace user : String) (dto : CreateShortLinkDto) (w : Workspace)
    (found : Option String)
    → ((code : String) → found ≡ some code → code_taken code w.links ≡ false)
    → HasUniqueCodes w.links
    → Ensures
        (λ t. HasUniqueCodes t.links)
        (λ link. code_taken link.code w.links ≡ false)
        (created_with bloom_fails id workspace user dto w found)
created_with-HasUniqueCodes bloom_fails id workspace user dto w none free h = h
created_with-HasUniqueCodes bloom_fails id workspace user dto w (some code) free h =
    (free code refl, (free code refl, h))

-- Codes stay unique: whatever codes are drawn, the link that a creation returns has a code that no
-- link had, and no two links have the same code afterwards, if none had before.
pub create-HasUniqueCodes :
    (bloom_fails : Bool) (id : String) (now : ℕ)
    (codes : String × String × String × String × String) (workspace user : String)
    (dto : CreateShortLinkDto) (w : Workspace)
    → HasUniqueCodes w.links
    → Ensures
        (λ t. HasUniqueCodes t.links)
        (λ link. code_taken link.code w.links ≡ false)
        (create bloom_fails id now codes workspace user dto w)
create-HasUniqueCodes bloom_fails id now codes workspace user dto w h =
    subst (Ensures (λ t. HasUniqueCodes t.links) (λ link. code_taken link.code w.links ≡ false))
      (sym (create-first_free bloom_fails id now codes workspace user dto w))
      (if_elim {A = Created}
        (Ensures (λ t. HasUniqueCodes t.links) (λ link. code_taken link.code w.links ≡ false))
        (expired dto.expires_at now) _ _ (λ _. h)
        (λ _.
          created_with-HasUniqueCodes bloom_fails id workspace user dto w
            (first_free (five codes) w.links) (first_free-code_taken (five codes) w.links) h))

abbrev pub Taken : String → List ShortLink → Type 0
Taken code [] = ⊥
Taken code (row ∷ rows) = (row.code ≡ code) ⊎ Taken code rows

-- A code that no link has, and before which every code is taken.
abbrev pub FirstFree : String → List String → List ShortLink → Type 0
FirstFree code codes links =
    (earlier : List String) × (later : List String) × (codes ≡ earlier ++ (code ∷ later))
    × All (λ c. Taken c links) earlier
    × (¬ Taken code links)

abbrev Chosen : List String → List ShortLink → Option String → Type 0
Chosen codes links none = All (λ c. Taken c links) codes
Chosen codes links (some code) = FirstFree code codes links

abbrev pub Past : Option ℕ → ℕ → Type 0
Past none now = ⊥
Past (some at) now = at ≤ now

-- The filter is told of a code, unless it throws.
abbrev pub Told : Bool → String → List String → List String → Type 0
Told true code before after = after ≡ before
Told false code before after = after ≡ code ∷ before

module _ (bloom_fails : Bool) (id : String) (now : ℕ)
    (codes : String × String × String × String × String) (workspace user : String)
    (dto : CreateShortLinkDto) where
  -- The link that is asked for: active, with no visits and no password.
  abbrev pub IsAskedFor : ShortLink → Type 0
  IsAskedFor link = link ≡ record {
    id = id;
    workspace_id = workspace;
    created_by_id = user;
    code = link.code;
    original_url = dto.original_url;
    title = dto.title;
    visibility = dto.visibility;
    status = active;
    expires_at = dto.expires_at;
    max_visits = dto.max_visits;
    visit_count = 0;
    password_hash = none;
    access_version = 0;
  }

  -- The end of a creation.
  abbrev pub Made : Workspace → Created → Type 0
  Made w (ok link t) =
      IsAskedFor link
      × FirstFree link.code (five codes) w.links
      × (¬ Past dto.expires_at now)
      × (t.links ≡ link ∷ w.links)
      × Told bloom_fails link.code w.bloom t.bloom
      × (t.invalidated ≡ link.code ∷ w.invalidated)
      × (t.audits ≡ w.audits)
      × (t.stats_deleted ≡ w.stats_deleted)
  Made w (threw e t) =
      (t ≡ w)
      × (((e ≡ bad_request "expiresAt must be in the future") × Past dto.expires_at now)
          ⊎ ((e ≡ service_unavailable "Unable to allocate a short code")
              × All (λ c. Taken c w.links) (five codes)))
