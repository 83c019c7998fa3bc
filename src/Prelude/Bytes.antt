-- ===== src/Prelude/Bytes.antt =====
-- Go's `bytes` functions on lists of byte values: `Equal`, `HasPrefix`, `Cut` at one byte.
use cmdman.Prelude.{
  length, zero, suc, ◌+◌, drop, ℕ, ◌≡◌, refl, Bool, true, false, ◌&&◌, List, [], ◌∷◌, ◌++◌, arith,
  ◌==◌, if◌then◌else◌, ◌↔◌,
}

abbrev pub equal : List ℕ → List ℕ → Bool
equal [] [] = true
equal [] (y ∷ ys) = false
equal (x ∷ xs) [] = false
equal (x ∷ xs) (y ∷ ys) = x == y && equal xs ys

-- `bytes.HasPrefix(xs, prefix)`
abbrev pub has_prefix : List ℕ → List ℕ → Bool
has_prefix xs [] = true
has_prefix [] (y ∷ ys) = false
has_prefix (x ∷ xs) (y ∷ ys) = x == y && has_prefix xs ys

-- `bytes.Cut` at a single byte: what stands before and behind its first occurrence, and whether
-- there is one. Without one, all of the text stands before.
pub record Cut : Type 0 where
  pub before : List ℕ
  pub after : List ℕ
  pub found : Bool

abbrev pub cut : ℕ → List ℕ → Cut
cut sep [] = record { before = []; after = []; found = false }
cut sep (x ∷ xs) =
    let rest = cut sep xs in
    if x == sep
    then record { before = []; after = xs; found = true }
    else record rest { before = x ∷ rest.before }

pub equal_iff : (xs ys : List ℕ) → (equal xs ys ≡ true) ↔ (xs ≡ ys)
equal_iff [] [] = ((λ _. refl), (λ _. refl))
equal_iff [] (y ∷ ys) = ((λ e. cc), (λ e. cc))
equal_iff (x ∷ xs) [] = ((λ e. cc), (λ e. cc))
equal_iff (x ∷ xs) (y ∷ ys) =
    ((λ e. ground (arith, (equal_iff xs ys).0)), (λ e. ground (arith, (equal_iff xs ys).1)))

pub cut-append_found :
    (sep : ℕ) (xs ys : List ℕ)
    → (cut sep xs).found ≡ true
    → cut sep (xs ++ ys)
      ≡ record { before = (cut sep xs).before; after = (cut sep xs).after ++ ys; found = true }
cut-append_found sep [] ys h = cc
cut-append_found sep (x ∷ xs) ys h = ground (arith, cut-append_found sep xs ys)

pub cut-append_missing :
    (sep : ℕ) (xs ys : List ℕ)
    → (cut sep xs).found ≡ false
    → (cut sep (xs ++ ys) ≡ record {
      before = xs ++ (cut sep ys).before;
      after = (cut sep ys).after;
      found = (cut sep ys).found;
    })
      × ((cut sep xs).before ≡ xs)
cut-append_missing sep [] ys h = (refl, refl)
cut-append_missing sep (x ∷ xs) ys h = ground (arith, cut-append_missing sep xs ys)

pub length-cut :
    (sep : ℕ) (xs : List ℕ)
    → (cut sep xs).found ≡ true
    → length xs ≡ length (cut sep xs).before + suc (length (cut sep xs).after)
length-cut sep [] h = cc
length-cut sep (x ∷ xs) h = ground (arith, length-cut sep xs)

pub equal-length : (xs ys : List ℕ) → equal xs ys ≡ true → length xs ≡ length ys
equal-length [] [] h = refl
equal-length [] (y ∷ ys) h = cc
equal-length (x ∷ xs) [] h = cc
equal-length (x ∷ xs) (y ∷ ys) h = ground (arith, equal-length xs ys)

-- `bytes.SplitN` at a single byte: at most `n` parts, the last one unsplit.
abbrev pub split_n : ℕ → ℕ → List ℕ → List (List ℕ)
split_n sep zero xs = []
split_n sep (suc zero) xs = xs ∷ []
split_n sep (suc (suc n)) xs =
    let parts = cut sep xs in
    if parts.found then parts.before ∷ split_n sep (suc n) parts.after else xs ∷ []

-- No byte of the list is `sep`.
abbrev pub Lacks : ℕ → List ℕ → Type 0
Lacks sep [] = Unit {0}
Lacks sep (x ∷ xs) = ((x == sep) ≡ false) × Lacks sep xs

-- A prefix that ends with the separator is the part before the first separator.
pub has_prefix-cut :
    (sep : ℕ) (p xs : List ℕ)
    → Lacks sep p
    → has_prefix xs (p ++ (sep ∷ [])) ≡ ((cut sep xs).found && equal (cut sep xs).before p)
has_prefix-cut sep [] [] l = refl
has_prefix-cut sep (y ∷ p) [] l = refl
has_prefix-cut sep [] (x ∷ xs) l = ground arith
has_prefix-cut sep (y ∷ p) (x ∷ xs) l = ground (arith, has_prefix-cut sep p xs l.1)

pub drop-cut :
    (sep : ℕ) (xs : List ℕ)
    → (cut sep xs).found ≡ true
    → drop (suc (length (cut sep xs).before)) xs ≡ (cut sep xs).after
drop-cut sep [] h = cc
drop-cut sep (x ∷ xs) h = ground (arith, drop-cut sep xs)

-- The parts of a cut, put together again.
pub cut_join :
    (sep : ℕ) (xs : List ℕ)
    → (cut sep xs).found ≡ true
    → xs ≡ (cut sep xs).before ++ (sep ∷ (cut sep xs).after)
cut_join sep [] h = cc
cut_join sep (x ∷ xs) h = ground (arith, h, cut_join sep xs)

pub cut_whole : (sep : ℕ) (xs : List ℕ) → (cut sep xs).found ≡ false → (cut sep xs).before ≡ xs
cut_whole sep [] h = refl
cut_whole sep (x ∷ xs) h = ground (arith, h, cut_whole sep xs)
