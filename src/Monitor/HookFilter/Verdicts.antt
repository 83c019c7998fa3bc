-- ===== src/Monitor/HookFilter/Verdicts.antt =====
-- cmdman/monitor/hook_filter.go: the decision on an OSC body, early and late.
use cmdman.Prelude.{
  ℕ, ◌≤◌, ◌<◌, ◌≡◌, refl, ◌≢◌, inl, inr, true, false, List, [], ◌∷◌, ◌++◌, arith, length,
  length-append, Bool-cases,
}
use cmdman.Prelude.Bytes.{
  equal, has_prefix, cut, equal-length, length-cut, cut-append_found, cut-append_missing,
}
use cmdman.Monitor.HookFilter.{HookBlocks, is_digits, decide_osc9, decide_osc777, decide_osc}
use cmdman.Monitor.Notification.{notify}

is_digits-append : (xs ys : List ℕ) → is_digits xs ≡ false → is_digits (xs ++ ys) ≡ false
unfolding is_digits
is_digits-append [] ys h = cc
is_digits-append (x ∷ xs) ys h = ground (arith, is_digits-append xs ys)

has_prefix-append : (p xs ys : List ℕ) → has_prefix p xs ≡ false → has_prefix p (xs ++ ys) ≡ false
has_prefix-append p [] ys h = cc
has_prefix-append [] (x ∷ xs) ys h = refl
has_prefix-append (y ∷ p) (x ∷ xs) ys h = ground (arith, has_prefix-append p xs ys)

has_prefix_self : (p : List ℕ) → has_prefix p p ≡ true
has_prefix_self [] = refl
has_prefix_self (x ∷ p) = ground (arith, has_prefix_self p)

osc9-terminated : (bl : HookBlocks) (rest : List ℕ) → (decide_osc9 bl rest true).decided ≡ true
unfolding decide_osc9
osc9-terminated bl [] = refl
osc9-terminated bl (c ∷ []) = ground arith
osc9-terminated bl (c ∷ d ∷ rest) = ground arith

osc777-terminated : (bl : HookBlocks) (rest : List ℕ) → (decide_osc777 bl rest true).decided ≡ true
unfolding decide_osc777
osc777-terminated bl rest = ground arith

-- A terminated body is always decided.
pub decide_osc-terminated :
    (bl : HookBlocks) (body : List ℕ) → (decide_osc bl body true).decided ≡ true
unfolding decide_osc
decide_osc-terminated bl body =
    let rest = (cut b';' body).after in
    ground (arith, osc9-terminated bl rest, osc777-terminated bl rest)

osc9-early :
    (bl : HookBlocks) (rest more : List ℕ)
    → (decide_osc9 bl rest false).decided ≡ true
    → (decide_osc9 bl (rest ++ more) true).block ≡ (decide_osc9 bl rest false).block
unfolding decide_osc9
osc9-early bl [] more h = cc
osc9-early bl (c ∷ []) [] h = ground arith
osc9-early bl (c ∷ []) (m ∷ more) h = ground arith
osc9-early bl (c ∷ d ∷ rest) more h = ground arith

not-equal_of_not-prefix : (p xs : List ℕ) → has_prefix p xs ≡ false → equal xs p ≡ false
not-equal_of_not-prefix p [] h = cc
not-equal_of_not-prefix [] (x ∷ xs) h = refl
not-equal_of_not-prefix (y ∷ p) (x ∷ xs) h = ground (arith, not-equal_of_not-prefix p xs)

not-equal_of_longer : (p xs : List ℕ) → length p < length xs → equal xs p ≡ false
not-equal_of_longer [] [] h = absurd (omega arith)
not-equal_of_longer (y ∷ p) [] h = refl
not-equal_of_longer [] (x ∷ xs) h = refl
not-equal_of_longer (y ∷ p) (x ∷ xs) h = ground (arith, not-equal_of_longer p xs)

osc777-early :
    (bl : HookBlocks) (rest more : List ℕ)
    → (decide_osc777 bl rest false).decided ≡ true
    → (decide_osc777 bl (rest ++ more) true).block ≡ (decide_osc777 bl rest false).block
unfolding decide_osc777
osc777-early bl rest more h = elim (Bool-cases (cut b';' rest).found) [
  | inl e ↦ rw (cut-append_found b';' rest more e) (ground arith)
  | inr e ↦
      let (joined, whole) = cut-append_missing b';' rest more e in
      let tail = (cut b';' more).before in
      rw joined (
        ground (
          arith,
          whole,
          length-append rest tail,
          not-equal_of_longer notify (rest ++ tail),
          has_prefix-append notify rest tail,
          not-equal_of_not-prefix notify (rest ++ tail),
        ))
]

-- A verdict given before the end of a sequence is the verdict on the whole sequence, however it goes on.
pub decide_osc-early :
    (bl : HookBlocks) (body more : List ℕ)
    → body ≢ []
    → (decide_osc bl body false).decided ≡ true
    → (decide_osc bl (body ++ more) true).block ≡ (decide_osc bl body false).block
unfolding decide_osc
decide_osc-early bl body more some_read h = elim (Bool-cases (cut b';' body).found) [
  | inl e ↦ rw (cut-append_found b';' body more e) (
      ground (
        arith,
        osc9-early bl (cut b';' body).after more,
        osc777-early bl (cut b';' body).after more,
      ))
  | inr e ↦
      let (joined, whole) = cut-append_missing b';' body more e in
      let tail = (cut b';' more).before in
      rw joined (
        ground (
          arith,
          whole,
          length-append body tail,
          is_digits-append body tail,
          not-equal_of_longer (b'0' ∷ []) (body ++ tail),
          not-equal_of_longer (b'2' ∷ []) (body ++ tail),
          not-equal_of_longer (b'9' ∷ []) (body ++ tail),
          not-equal_of_longer (b'7' ∷ b'7' ∷ b'7' ∷ []) (body ++ tail),
        ))
]

osc9-open_short :
    (bl : HookBlocks) (rest : List ℕ)
    → (decide_osc9 bl rest false).decided ≡ false
    → length rest ≤ 1
unfolding decide_osc9
osc9-open_short bl [] h = omega arith
osc9-open_short bl (c ∷ []) h = omega arith
osc9-open_short bl (c ∷ d ∷ rest) h = ground arith

osc777-open_short :
    (bl : HookBlocks) (rest : List ℕ)
    → (decide_osc777 bl rest false).decided ≡ false
    → length rest ≤ 6
unfolding decide_osc777
osc777-open_short bl rest h = elim (Bool-cases (cut b';' rest).found) [
  | inl e ↦ ground arith
  | inr e ↦ let (_, whole) = cut-append_missing b';' rest [] e in ground (arith, whole)
]

-- Every hooked form declares itself within ten bytes, so the limit of 32 is never what decides.
pub decide_osc-open_short :
    (bl : HookBlocks) (body : List ℕ)
    → (decide_osc bl body false).decided ≡ false
    → length body ≤ 10
unfolding decide_osc
decide_osc-open_short bl body h = elim (Bool-cases (cut b';' body).found) [
  | inl e ↦ ground (
    arith,
    length-cut b';' body e,
    osc9-open_short bl (cut b';' body).after,
    osc777-open_short bl (cut b';' body).after,
    equal-length (cut b';' body).before (b'9' ∷ []),
    equal-length (cut b';' body).before (b'7' ∷ b'7' ∷ b'7' ∷ []),
  )
  | inr e ↦ let (_, whole) = cut-append_missing b';' body [] e in ground (arith, whole)
]
