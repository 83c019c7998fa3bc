-- ===== src/Mux/ScaleCodec/Words.antt =====
-- cmdman/mux/scale_codec.go: the words of an encoded text.
use cmdman.Prelude.{
  ℕ, ◌^◌, ◌<◌, ◌≡◌, inl, inr, refl, sym, ap, ◌∙◌, true, false, List, [], ◌∷◌, ◌++◌, append_assoc,
  append-nil, if◌then◌else◌, ◌==◌, Bool-cases, arith,
}
use cmdman.Prelude.Bytes.{cut}
use cmdman.Prelude.Digits.{decimal, AllDigits, decimal-AllDigits}
use cmdman.Mux.ScaleCodec.{
  Positions, is_space, is_empty, trim_left, trim_right, fields_from, entry_text, write_entries,
}

-- No space stands in the text.
abbrev pub NoSpace : List ℕ → Type 0
NoSpace [] = Unit {0}
NoSpace (c ∷ cs) = (is_space c ≡ false) × NoSpace cs

pub fields-trim_left : (cs : List ℕ) → fields_from [] (trim_left cs) ≡ fields_from [] cs
fields-trim_left [] = refl
fields-trim_left (c ∷ cs) = ground (arith, fields-trim_left cs)

pub fields-trim_right : (word cs : List ℕ) → fields_from word (trim_right cs) ≡ fields_from word cs
fields-trim_right word [] = refl
fields-trim_right word (c ∷ cs) = elim (Bool-cases (is_space c)) [
  | inr q ↦ rw (q, q) (fields-trim_right (word ++ (c ∷ [])) cs)
  | inl q ↦ elim (Bool-cases (is_empty (trim_right cs))) [
    | inr r ↦ rw (q, r, q, fields-trim_right [] cs) refl
    | inl r ↦
        rw (q, r)
          (ending (fields_from [] cs) (sym (fields-trim_right [] cs) ∙ no_words (trim_right cs) r))
  ]
]
  where
    no_words : (xs : List ℕ) → is_empty xs ≡ true → fields_from [] xs ≡ []
    no_words [] h = refl
    no_words (x ∷ xs) h = cc

    ending :
        (next : List (List ℕ))
        → next ≡ []
        → (if is_empty word then [] else word ∷ []) ≡ (if is_empty word then next else word ∷ next)
    ending next h = rw h refl

-- A part without spaces continues the word.
pub fields-append :
    (word part rest : List ℕ)
    → NoSpace part
    → fields_from word (part ++ rest) ≡ fields_from (word ++ part) rest
fields-append word [] rest n = ap (λ w. fields_from w rest) (sym (append-nil word))
fields-append word (c ∷ part) rest n = rw n.0 (
    fields-append (word ++ (c ∷ [])) part rest n.1
    ∙ ap (λ w. fields_from w rest) (append_assoc word (c ∷ []) part))

-- Keys that can be read back, and positions above 0.
abbrev pub Readable : Positions → Type 0
Readable [] = Unit {0}
Readable ((key, v) ∷ m) =
    (is_empty key ≡ false)
    × NoSpace key
    × ((cut b'=' key).found ≡ false)
    × (0 < v)
    × (v < 2 ^ 63)
    × Readable m

pub NoSpace-append : (xs ys : List ℕ) → NoSpace xs → NoSpace ys → NoSpace (xs ++ ys)
NoSpace-append [] ys n m = m
NoSpace-append (x ∷ xs) ys n m = (n.0, NoSpace-append xs ys n.1 m)

AllDigits-NoSpace : (ds : List ℕ) → AllDigits ds → NoSpace ds
unfolding is_space
AllDigits-NoSpace [] d = tt
AllDigits-NoSpace (c ∷ ds) (low, high, d) = (ground (arith, low, high), AllDigits-NoSpace ds d)

entry-NoSpace : (key : List ℕ) (v : ℕ) → NoSpace key → NoSpace (entry_text key v)
unfolding is_space
entry-NoSpace key v n =
    NoSpace-append key (b'=' ∷ decimal v) n
      (refl, AllDigits-NoSpace (decimal v) (decimal-AllDigits v))

is_empty-entry : (key : List ℕ) (v : ℕ) → is_empty (entry_text key v) ≡ false
is_empty-entry [] v = refl
is_empty-entry (c ∷ key) v = refl

-- The words that are written.
abbrev pub entry_texts : Positions → List (List ℕ)
entry_texts [] = []
entry_texts ((key, v) ∷ m) = entry_text key v ∷ entry_texts m

fields-write_more :
    (word : List ℕ) (m : Positions)
    → is_empty word ≡ false
    → Readable m
    → fields_from word (write_entries false m) ≡ word ∷ entry_texts m
unfolding write_entries is_space
fields-write_more word [] w r = rw w refl
fields-write_more word ((key, v) ∷ m) w (e, n, c, low, high, r) =
    let positive : (v == 0) ≡ false = ground (arith, low) in
    rw (positive, w)
      (ap (λ (ws : List (List ℕ)). word ∷ ws)
        (fields-append [] (entry_text key v) (write_entries false m) (entry-NoSpace key v n)
          ∙ fields-write_more (entry_text key v) m (is_empty-entry key v) r))

pub fields-write_entries :
    (m : Positions) → Readable m → fields_from [] (write_entries true m) ≡ entry_texts m
unfolding write_entries is_space
fields-write_entries [] r = refl
fields-write_entries ((key, v) ∷ m) (e, n, c, low, high, r) =
    let positive : (v == 0) ≡ false = ground (arith, low) in
    rw positive (
      fields-append [] (entry_text key v) (write_entries false m) (entry-NoSpace key v n)
      ∙ fields-write_more (entry_text key v) m (is_empty-entry key v) r)
