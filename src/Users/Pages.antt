-- ===== src/Users/Pages.antt =====
-- The pages that findAll gives, one after another.
use nest_shortlink_platform.Common.{
  ℕ, zero, suc, ◌+◌, ◌-◌, ◌*◌, ◌/◌, ◌%◌, ◌≤◌, ◌<◌, ◌≡◌, refl, sym, ap, ◌∙◌, List, [], ◌∷◌, ◌++◌,
  length, All, All-Memᴰ, arith,
}
use mathlib.Core.List.{Memᴰ}
use mathlib.Core.List.Memᴰ.{head, tail}
use native.Mathlib.Nat.{div-add-mod, mod-lt, mul_comm}
use nest_shortlink_platform.Workspaces.{User, Database}
use nest_shortlink_platform.Users.{drop, take, find_all}

-- Latest first, no two of the same time.
abbrev pub Descending : List User → Type 0
Descending [] = Unit {0}
Descending (row ∷ rows) =
    All (λ (later : User). later.created_at < row.created_at) rows × Descending rows

abbrev pub SameUsers : List User → List User → Type 0
SameUsers xs ys = ((u : User) → Memᴰ u xs → Memᴰ u ys) × ((u : User) → Memᴰ u ys → Memᴰ u xs)

-- The rows of a table, each once, latest first: what PostgreSQL's ORDER BY gives of a table in which
-- no two users were created at the same time.
abbrev pub Listing : List User → List User → Type 0
Listing rows listed = Descending listed × SameUsers listed rows × (length listed ≡ length rows)

older :
    (x u : User) (xs : List User)
    → All (λ (v : User). v.created_at < x.created_at) xs
    → Memᴰ u xs
    → u.created_at < x.created_at
older x u xs h m = All-Memᴰ (λ (v : User). v.created_at < x.created_at) u xs h m

-- Of two members of each other's lists, one at the head of each, neither is the later one.
same_head :
    (x y : User) (xs ys : List User)
    → All (λ (v : User). v.created_at < x.created_at) xs
    → All (λ (v : User). v.created_at < y.created_at) ys
    → Memᴰ x (y ∷ ys)
    → Memᴰ y (x ∷ xs)
    → x ≡ y
same_head x y xs ys hx hy (head e) n = e
same_head x y xs ys hx hy (tail m) (head e) = sym e
same_head x y xs ys hx hy (tail m) (tail n) =
    let below = older y x ys hy m in
    let above = older x y xs hx n in absurd (omega (arith, below, above))

in_tail :
    (x y u : User) (xs ys : List User)
    → x ≡ y
    → All (λ (v : User). v.created_at < x.created_at) xs
    → Memᴰ u xs
    → Memᴰ u (y ∷ ys)
    → Memᴰ u ys
in_tail x y u xs ys same h m (tail n) = n
in_tail x y u xs ys same h m (head e) =
    let below = older x u xs h m in
    let alike : u.created_at ≡ x.created_at = ap (λ (v : User). v.created_at) (e ∙ sym same) in
    absurd (omega (arith, below, alike))

Descending-unique : (xs ys : List User) → Descending xs → Descending ys → SameUsers xs ys → xs ≡ ys
Descending-unique [] [] h k s = refl
Descending-unique [] (y ∷ ys) h k (f, g) = elim (g y (head refl)) [ ]
Descending-unique (x ∷ xs) [] h k (f, g) = elim (f x (head refl)) [ ]
Descending-unique (x ∷ xs) (y ∷ ys) (hx, h) (hy, k) (f, g) =
    let same : x ≡ y = same_head x y xs ys hx hy (f x (head refl)) (g y (head refl)) in
    let rest = Descending-unique xs ys h k (
      (λ u m. in_tail x y u xs ys same hx m (f u (tail m))),
      (λ u m. in_tail y x u ys xs (sym same) hy m (g u (tail m))),
    ) in
    λ i. same i ∷ rest i

Listing-unique : (rows xs ys : List User) → Listing rows xs → Listing rows ys → xs ≡ ys
Listing-unique rows xs ys (d, (f, g), n) (e, (h, k), m) =
    Descending-unique xs ys d e ((λ u i. k u (f u i)), (λ u i. g u (h u i)))

-- The pages from the first to one, each by a query of its own.
unfoldable pub pages : (ℕ → List User → List User) → ℕ → ℕ → Database → List User
pages orders zero page_size db = []
pages orders (suc page) page_size db =
    pages orders page page_size db ++ (find_all (orders (suc page)) (suc page) page_size db).rows

counted : (m n : ℕ) → suc (m + n) ≡ suc m + n
counted m n = omega arith

take-zero : (rows : List User) → take 0 rows ≡ []
take-zero [] = refl
take-zero (row ∷ rows) = refl

take-drop : (m n : ℕ) (rows : List User) → take m rows ++ take n (drop m rows) ≡ take (m + n) rows
take-drop m n [] = refl
take-drop zero n (row ∷ rows) = ap (λ k. take k (row ∷ rows)) (omega arith)
take-drop (suc m) n (row ∷ rows) =
    ap (λ x. row ∷ x) (take-drop m n rows) ∙ ap (λ k. take k (row ∷ rows)) (counted m n)

take-all : (n : ℕ) (rows : List User) → length rows ≤ n → take n rows ≡ rows
take-all n [] h = refl
take-all zero (row ∷ rows) h = absurd (ground (arith, h))
take-all (suc n) (row ∷ rows) h = ap (λ x. row ∷ x) (take-all n rows (omega (arith, h)))

length-take : (n : ℕ) (rows : List User) → length (take n rows) ≤ n
length-take n [] = omega arith
length-take zero (row ∷ rows) = omega arith
length-take (suc n) (row ∷ rows) = let rest = length-take n rows in omega (arith, rest)

previous : (page : ℕ) → suc page - 1 ≡ page
previous page = omega arith

grown : (page size : ℕ) → page * size + size ≡ suc page * size
grown page size = grind arith

pages-take :
    (orders : ℕ → List User → List User) (page page_size : ℕ) (db : Database) (all : List User)
    → ((k : ℕ) → orders k db.users ≡ all)
    → pages orders page page_size db ≡ take (page * page_size) all
unfolding pages find_all
pages-take orders zero page_size db all h = sym (ap (λ k. take k all) (grind arith) ∙ take-zero all)
pages-take orders (suc page) page_size db all h =
    let rows : ℕ → List User = λ k. take page_size (drop (k * page_size) all) in
    let before = pages orders page page_size db in
    ap (λ l. before ++ take page_size (drop ((suc page - 1) * page_size) l)) (h (suc page))
    ∙ ap (λ x. x ++ rows (suc page - 1)) (pages-take orders page page_size db all h)
    ∙ ap (λ k. take (page * page_size) all ++ rows k) (previous page)
    ∙ take-drop (page * page_size) page_size all
    ∙ ap (λ k. take k all) (grown page page_size)

ceil_enough : (total size : ℕ) → 0 < size → total ≤ (total + (size - 1)) / size * size
ceil_enough total size h =
    let q = (total + (size - 1)) / size in
    let whole : size * q + (total + (size - 1)) % size ≡ total + (size - 1) =
      div-add-mod (total + (size - 1)) size in
    let rest : (total + (size - 1)) % size < size = mod-lt (total + (size - 1)) h in
    let turned : q * size ≡ size * q = mul_comm q size in omega (arith, whole, rest, turned)

-- If each query gives the table's users latest first, as one of a table in which no two were created
-- at the same time does: the pages from the first to the last that the answer names are together the
-- one list of all users, latest first, each user in it once, and none of the pages holds more users
-- than were asked for. A page has room for at least one.
pub pages-users :
    (orders : ℕ → List User → List User) (page page_size : ℕ) (db : Database) (all : List User)
    → 0 < page_size
    → ((k : ℕ) → Listing db.users (orders k db.users))
    → Listing db.users all
    → (pages orders (find_all (orders page) page page_size db).total_pages page_size db ≡ all)
      × (length (find_all (orders page) page page_size db).rows ≤ page_size)
unfolding find_all
pages-users orders page page_size db all h sorted whole =
    let same : (k : ℕ) → orders k db.users ≡ all =
      λ k. Listing-unique db.users (orders k db.users) all (sorted k) whole in
    let size : length all ≡ length db.users = whole.2 in
    let enough : length all ≤ (length db.users + (page_size - 1)) / page_size * page_size =
      omega (arith, size, ceil_enough (length db.users) page_size h) in
    (
      pages-take orders ((length db.users + (page_size - 1)) / page_size) page_size db all same
          ∙ take-all _ all enough,
      length-take page_size (drop ((page - 1) * page_size) (orders page db.users)),
    )
