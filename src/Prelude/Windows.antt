-- ===== src/Prelude/Windows.antt =====
-- The last elements of a list: what a bounded history shows of it.
use cmdman.Prelude.{
  ℕ, ◌+◌, ◌-◌, ◌≤◌, ◌≡◌, ap, List, ◌++◌, arith, length, drop, inl, inr, Bool-cases, leb, leb→le,
  length-append, length-drop, drop-append, drop-append_le, drop-drop, sym, ◌≡⟨◌⟩◌, ◌∎,
}

module _ {ℓ} {A : Type ℓ} where
  -- The last `n` elements, or all of them.
  abbrev pub last : ℕ → List A → List A
  last n xs = drop (length xs - n) xs

  pub last-short : (n : ℕ) (xs : List A) → length xs ≤ n → last n xs ≡ xs
  last-short n xs h = let e : length xs - n ≡ 0 = omega arith in rw e

  pub last-append :
      (n k : ℕ) (xs ys : List A)
      → length xs + length ys ≡ n + k
      → last n (xs ++ ys) ≡ drop k (xs ++ ys)
  last-append n k xs ys e =
      let e' : length (xs ++ ys) - n ≡ k = omega (arith, length-append xs ys) in rw e'

  -- A window that holds all of `ys` shows nothing of what stands before.
  pub last-suffix :
      (n : ℕ) (xs ys : List A) → n ≤ length ys → last n (xs ++ ys) ≡ drop (length ys - n) ys
  last-suffix n xs ys h = drop-append (length ys - n) _ xs ys (omega (arith, length-append xs ys))

  shorten :
      (n k : ℕ) (xs ys : List A) → length xs ≡ n + k → last n (drop k xs ++ ys) ≡ last n (xs ++ ys)
  shorten n k xs ys h =
      last n (drop k xs ++ ys)
      ≡⟨ last-append n (length ys) (drop k xs) ys (omega (arith, length-drop k xs)) ⟩
        drop (length ys) (drop k xs ++ ys)
      ≡⟨ ap (drop (length ys)) (sym (drop-append_le k xs ys (omega arith))) ⟩
        drop (length ys) (drop k (xs ++ ys))
      ≡⟨ drop-drop (length ys) k (xs ++ ys) ⟩ drop (k + length ys) (xs ++ ys)
      ≡⟨ sym (last-append n (k + length ys) xs ys (omega arith)) ⟩ last n (xs ++ ys) ∎

  -- The last `n` elements of a longer history are those of its last `n` and what follows.
  pub last-last : (n : ℕ) (xs ys : List A) → last n (last n xs ++ ys) ≡ last n (xs ++ ys)
  last-last n xs ys = elim (Bool-cases (leb (length xs) n)) [
    | inl e ↦ ap (λ l. last n (l ++ ys)) (last-short n xs (leb→le _ _ e))
    | inr e ↦ shorten n (length xs - n) xs ys (ground arith)
  ]
