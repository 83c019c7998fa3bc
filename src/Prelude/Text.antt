-- ===== src/Prelude/Text.antt =====
-- Texts as keys: tests, membership, Go's maps from text as functions, and `slices.Sort` on texts.
use Prim.Native.Nat.{Ordering}
use Prim.Native.String.{String, compare}
use text.Mathlib.Text.{◌==◌ as str_eq}
use text.Mathlib.TextEquality.{eq_iff as str_eq_iff}
use cmdman.Prelude.{
  suc, ◌≡◌, refl, ap, ◌∙◌, Bool, true, false, ◌||◌, List, [], ◌∷◌, ◌++◌, arith, if◌then◌else◌,
  length,
}
pub use text.Mathlib.Text.{◌==◌ as str_eq}
pub use text.Mathlib.TextEquality.{eq_iff as str_eq_iff}
pub use Prim.Native.String.{String}

pub str_eq_self : (s : String) → str_eq s s ≡ true
str_eq_self s = (str_eq_iff s s).1 refl

abbrev pub contains : List String → String → Bool
contains [] s = false
contains (x ∷ xs) s = str_eq x s || contains xs s

-- No text stands twice.
abbrev pub Distinct : List String → Type 0
Distinct [] = Unit {0}
Distinct (x ∷ xs) = (contains xs x ≡ false) × Distinct xs

-- `m[k] = v` on a map that answers every key, with Go's zero value for the missing ones.
abbrev pub update {ℓ} : {V : Type ℓ} → (String → V) → String → V → String → V
update m k v j = if str_eq k j then v else m j

abbrev str_leb : String → String → Bool
str_leb s t = elim (compare s t) [ Ordering.gt ↦ false | _ ↦ true ]

insert : String → List String → List String
insert s [] = s ∷ []
insert s (x ∷ xs) = if str_leb s x then s ∷ x ∷ xs else x ∷ insert s xs

-- `slices.Sort`: texts are ordered by code point, which for UTF-8 is the order of their bytes.
unfoldable pub sort : List String → List String
unfolding insert
sort [] = []
sort (x ∷ xs) = insert x (sort xs)

pub contains-append :
    (xs ys : List String) (s : String) → contains (xs ++ ys) s ≡ (contains xs s || contains ys s)
contains-append [] ys s = refl
contains-append (x ∷ xs) ys s = ground (arith, contains-append xs ys s)

contains-insert :
    (x : String) (xs : List String) (s : String)
    → contains (insert x xs) s ≡ (str_eq x s || contains xs s)
unfolding insert
contains-insert x [] s = refl
contains-insert x (y ∷ xs) s = ground (arith, contains-insert x xs s)

pub contains-sort : (xs : List String) (s : String) → contains (sort xs) s ≡ contains xs s
unfolding sort
contains-sort [] s = refl
contains-sort (x ∷ xs) s =
    contains-insert x (sort xs) s ∙ ap (λ b. str_eq x s || b) (contains-sort xs s)

str_eq_sym : (s t : String) → str_eq s t ≡ str_eq t s
str_eq_sym s t = ground (arith, str_eq_iff s t, str_eq_iff t s)

Distinct-insert :
    (x : String) (xs : List String) → contains xs x ≡ false → Distinct xs → Distinct (insert x xs)
unfolding insert
Distinct-insert x [] h d = (refl, tt)
Distinct-insert x (y ∷ xs) h d =
    ground (arith, Distinct-insert x xs, contains-insert x xs y, str_eq_sym x y)

pub Distinct-sort : (xs : List String) → Distinct xs → Distinct (sort xs)
unfolding sort
Distinct-sort [] d = tt
Distinct-sort (x ∷ xs) d =
    Distinct-insert x (sort xs) (contains-sort xs x ∙ d.0) (Distinct-sort xs d.1)

length-insert : (x : String) (xs : List String) → length (insert x xs) ≡ suc (length xs)
unfolding insert
length-insert x [] = refl
length-insert x (y ∷ xs) = ground (arith, length-insert x xs)

pub length-sort : (xs : List String) → length (sort xs) ≡ length xs
unfolding sort
length-sort [] = refl
length-sort (x ∷ xs) = length-insert x (sort xs) ∙ ap suc (length-sort xs)
