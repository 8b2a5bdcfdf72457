-- ===== src/Cache/Bootstrap/Pages.antt =====
-- The pages that the cursor goes through are the table, one after another.
use nest_shortlink_platform.Common.{
  ℕ, zero, suc, ◌+◌, ◌<◌, ◌≡◌, refl, ap, List, [], ◌∷◌, ◌++◌, length, All, All-Memᴰ, Unique, Bool,
  false, ◌==◌, string_eq, eq_iff, arith,
}
use mathlib.Core.List.{Memᴰ}
use mathlib.Core.List.Memᴰ.{head, tail, append_left, append_right}
use nest_shortlink_platform.Cache.Bootstrap.{Row, take, after, last_of}

abbrev pub drop : ℕ → List Row → List Row
drop n [] = []
drop zero (row ∷ rows) = row ∷ rows
drop (suc n) (row ∷ rows) = drop n rows

abbrev pub same_id : Row → Row → Bool
same_id a b = a.id == b.id

pub take-drop : (n : ℕ) (rows : List Row) → take n rows ++ drop n rows ≡ rows
take-drop n [] = refl
take-drop zero (row ∷ rows) = refl
take-drop (suc n) (row ∷ rows) = ap (λ x. row ∷ x) (take-drop n rows)

pub drop-short : (n : ℕ) (rows : List Row) → length (take n rows) < n → drop n rows ≡ []
drop-short n [] h = refl
drop-short zero (row ∷ rows) h = absurd (ground (arith, h))
drop-short (suc n) (row ∷ rows) h = drop-short n rows (omega (arith, h))

pub length-drop :
    (n : ℕ) (rows : List Row) → length (take n rows) + length (drop n rows) ≡ length rows
length-drop n [] = refl
length-drop zero (row ∷ rows) = ground arith
length-drop (suc n) (row ∷ rows) = let rest = length-drop n rows in omega (arith, rest)

-- The rows before the last, and it.
pub last_of-Memᴰ : (row : Row) (rows : List Row) → Memᴰ (last_of row rows) (row ∷ rows)
last_of-Memᴰ row [] = head refl
last_of-Memᴰ row (next ∷ rows) = tail (last_of-Memᴰ next rows)

Unique-apart :
    (done page rest : List Row) (row other : Row)
    → All (λ y. same_id row y ≡ false) (done ++ (page ++ rest))
    → Memᴰ other page
    → (row.id == other.id) ≡ false
Unique-apart done page rest row other h m =
    All-Memᴰ (λ y. same_id row y ≡ false) other _ h (append_right done (append_left rest m))

-- The rows after the last of a page, in a table whose ids are unique.
after-page :
    (row : Row) (page rest : List Row)
    → Unique same_id ((row ∷ page) ++ rest)
    → after (last_of row page).id ((row ∷ page) ++ rest) ≡ rest
unfolding after
after-page row [] rest u = let same = (eq_iff row.id row.id).1 refl in rw same refl
after-page row (next ∷ page) rest (h, u) =
    let apart =
      Unique-apart [] (next ∷ page) rest row (last_of next page) h (last_of-Memᴰ next page) in
    rw apart (after-page next page rest u)

pub after-last_of :
    (done : List Row) (row : Row) (page rest : List Row)
    → Unique same_id (done ++ ((row ∷ page) ++ rest))
    → after (last_of row page).id (done ++ ((row ∷ page) ++ rest)) ≡ rest
unfolding after
after-last_of [] row page rest u = after-page row page rest u
after-last_of (old ∷ done) row page rest (h, u) =
    let apart =
      Unique-apart done (row ∷ page) rest old (last_of row page) h (last_of-Memᴰ row page) in
    rw apart (after-last_of done row page rest u)
