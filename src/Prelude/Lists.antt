-- ===== src/Prelude/Lists.antt =====
-- Lists measured and cut by native numbers, under the library's names, and Go's `copy` into a slice.
use Prim.Native.Nat.{ℕ, zero, suc, ◌+◌, ◌-◌, ◌≤◌, min}
use mathlib.Core.Path.{◌≡◌, refl, ap}
use mathlib.Core.List.{List, [], ◌∷◌, ◌++◌}
use mathlib.Core.Option.{Option, none, some}
use native.Mathlib.Omega.{arith}

module _ {ℓ} {A : Type ℓ} where
  abbrev pub length : List A → ℕ
  length [] = 0
  length (x ∷ xs) = suc (length xs)

  abbrev pub get_elem? : List A → ℕ → Option A
  get_elem? [] i = none
  get_elem? (x ∷ xs) zero = some x
  get_elem? (x ∷ xs) (suc i) = get_elem? xs i

  abbrev pub take : ℕ → List A → List A
  take zero xs = []
  take (suc n) [] = []
  take (suc n) (x ∷ xs) = x ∷ take n xs

  abbrev pub drop : ℕ → List A → List A
  drop zero xs = xs
  drop (suc n) [] = []
  drop (suc n) (x ∷ xs) = drop n xs

  abbrev pub replicate : ℕ → A → List A
  replicate zero a = []
  replicate (suc n) a = a ∷ replicate n a

  -- `copy(dst[off:], src)`: writes as much of `src` as fits behind `off`.
  abbrev pub copy_at : List A → ℕ → List A → List A
  copy_at [] off src = []
  copy_at (x ∷ xs) (suc off) src = x ∷ copy_at xs off src
  copy_at (x ∷ xs) zero [] = x ∷ xs
  copy_at (x ∷ xs) zero (y ∷ src) = y ∷ copy_at xs zero src

module _ {ℓ} {A : Type ℓ} where
  pub length-append : (xs ys : List A) → length (xs ++ ys) ≡ length xs + length ys
  length-append [] ys = omega arith
  length-append (x ∷ xs) ys = omega (arith, length-append xs ys)

  pub length-take : (n : ℕ) (xs : List A) → length (take n xs) ≡ min n (length xs)
  length-take zero xs = omega arith
  length-take (suc n) [] = omega arith
  length-take (suc n) (x ∷ xs) = omega (arith, length-take n xs)

  pub length-drop : (n : ℕ) (xs : List A) → length (drop n xs) ≡ length xs - n
  length-drop zero xs = omega arith
  length-drop (suc n) [] = omega arith
  length-drop (suc n) (x ∷ xs) = omega (arith, length-drop n xs)

  pub length-replicate : (n : ℕ) (a : A) → length (replicate n a) ≡ n
  length-replicate zero a = refl
  length-replicate (suc n) a = ap suc (length-replicate n a)

  pub take-append-drop : (n : ℕ) (xs : List A) → take n xs ++ drop n xs ≡ xs
  take-append-drop zero xs = refl
  take-append-drop (suc n) [] = refl
  take-append-drop (suc n) (x ∷ xs) = ap (◌∷◌ x) (take-append-drop n xs)

  -- `drop` and `take` at a sum, in a list whose first part is known to have the first summand's length.
  pub drop-append : (k n : ℕ) (xs ys : List A) → n ≡ length xs + k → drop n (xs ++ ys) ≡ drop k ys
  drop-append k zero [] ys e = let e' : zero ≡ k = omega arith in rw (← e')
  drop-append k (suc n) [] ys e = let e' : suc n ≡ k = omega arith in rw (← e')
  drop-append k zero (x ∷ xs) ys e = absurd (omega arith)
  drop-append k (suc n) (x ∷ xs) ys e = drop-append k n xs ys (omega arith)

  pub take-append :
      (k n : ℕ) (xs ys : List A) → n ≡ length xs + k → take n (xs ++ ys) ≡ xs ++ take k ys
  take-append k zero [] ys e = let e' : zero ≡ k = omega arith in rw (← e')
  take-append k (suc n) [] ys e = let e' : suc n ≡ k = omega arith in rw (← e')
  take-append k zero (x ∷ xs) ys e = absurd (omega arith)
  take-append k (suc n) (x ∷ xs) ys e = ap (◌∷◌ x) (take-append k n xs ys (omega arith))

  pub drop-append_le :
      (n : ℕ) (xs ys : List A) → n ≤ length xs → drop n (xs ++ ys) ≡ drop n xs ++ ys
  drop-append_le zero xs ys h = refl
  drop-append_le (suc n) [] ys h = absurd (omega arith)
  drop-append_le (suc n) (x ∷ xs) ys h = drop-append_le n xs ys (omega arith)

  pub copy_at-append :
      (xs ys src : List A) (n : ℕ)
      → n ≡ length xs
      → copy_at (xs ++ ys) n src ≡ xs ++ copy_at ys 0 src
  copy_at-append [] ys src zero e = refl
  copy_at-append [] ys src (suc n) e = absurd (omega arith)
  copy_at-append (x ∷ xs) ys src zero e = absurd (omega arith)
  copy_at-append (x ∷ xs) ys src (suc n) e = ap (◌∷◌ x) (copy_at-append xs ys src n (omega arith))

  -- A copy to the front of a slice that is long enough.
  pub copy_at-zero :
      (ys src : List A) → length src ≤ length ys → copy_at ys 0 src ≡ src ++ drop (length src) ys
  copy_at-zero [] [] h = refl
  copy_at-zero [] (y ∷ src) h = absurd (omega arith)
  copy_at-zero (x ∷ ys) [] h = refl
  copy_at-zero (x ∷ ys) (y ∷ src) h = ap (◌∷◌ y) (copy_at-zero ys src (omega arith))

  pub length-copy_at : (xs src : List A) (n : ℕ) → length (copy_at xs n src) ≡ length xs
  length-copy_at [] src n = refl
  length-copy_at (x ∷ xs) src (suc n) = ap suc (length-copy_at xs src n)
  length-copy_at (x ∷ xs) [] zero = refl
  length-copy_at (x ∷ xs) (y ∷ src) zero = ap suc (length-copy_at xs src zero)

  pub drop-all : (n : ℕ) (xs : List A) → length xs ≤ n → drop n xs ≡ []
  drop-all zero [] h = refl
  drop-all zero (x ∷ xs) h = absurd (omega arith)
  drop-all (suc n) [] h = refl
  drop-all (suc n) (x ∷ xs) h = drop-all n xs (omega arith)

  pub drop-nil : (n : ℕ) → drop {A = A} n [] ≡ []
  drop-nil zero = refl
  drop-nil (suc n) = refl

  pub take-all : (n : ℕ) (xs : List A) → length xs ≤ n → take n xs ≡ xs
  take-all zero [] h = refl
  take-all zero (x ∷ xs) h = absurd (omega arith)
  take-all (suc n) [] h = refl
  take-all (suc n) (x ∷ xs) h = ap (◌∷◌ x) (take-all n xs (omega arith))

  pub drop-drop : (m n : ℕ) (xs : List A) → drop m (drop n xs) ≡ drop (n + m) xs
  drop-drop m zero xs = let e : m ≡ zero + m = omega arith in rw (← e)
  drop-drop m (suc n) [] = let e : suc n + m ≡ suc (n + m) = omega arith in rw e (drop-nil m)
  drop-drop m (suc n) (x ∷ xs) =
      let e : suc n + m ≡ suc (n + m) = omega arith in rw e (drop-drop m n xs)

  pub replicate-add_one : (n : ℕ) (a : A) → replicate (n + 1) a ≡ replicate n a ++ (a ∷ [])
  replicate-add_one n a = let e : n + 1 ≡ suc n = omega arith in rw e (snoc n)
    where
      snoc : (m : ℕ) → replicate (suc m) a ≡ replicate m a ++ (a ∷ [])
      snoc zero = refl
      snoc (suc m) = ap (◌∷◌ a) (snoc m)
