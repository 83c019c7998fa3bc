-- ===== src/Mux/ScaleCodec/RoundTrip.antt =====
-- cmdman/mux/scale_codec.go: decoding what was encoded.
use cmdman.Prelude.{
  ℕ, ◌^◌, ◌<◌, ◌≡◌, inl, inr, refl, ap, ◌∙◌, true, false, not, ◌||◌, List, [], ◌∷◌, append-nil,
  Option, some, none, if◌then◌else◌, Bool-cases, arith,
}
use cmdman.Prelude.Int.{pos}
use cmdman.Prelude.Bytes.{Cut, cut, equal, equal_iff, cut-append_missing}
use cmdman.Prelude.Numbers.{atoi_bytes}
use cmdman.Prelude.Digits.{decimal, atoi_bytes-decimal}
use cmdman.Mux.ScaleCodec.{
  Positions, is_empty, trim_left, trim_right, fields_from, put, look, put_pos, decode_pair,
  decode_pairs, decode_scale_positions, text_leb, insert_key, sort_keys, entry_text, write_entries,
  encode_scale_positions,
}
use cmdman.Mux.ScaleCodec.Words.{
  fields-trim_left, fields-trim_right, Readable, entry_texts, fields-write_entries,
}

-- No key stands twice.
abbrev pub DistinctKeys : Positions → Type 0
DistinctKeys [] = Unit {0}
DistinctKeys ((key, v) ∷ m) = (look key m ≡ none) × DistinctKeys m

-- Decoding is reading the words, whatever is trimmed.
pub decode_eq : (raw : List ℕ) → decode_scale_positions raw ≡ decode_pairs (fields_from [] raw) []
unfolding decode_scale_positions decode_pairs
decode_eq raw =
    by_end (trim_right (trim_left raw))
      (fields-trim_right [] (trim_left raw) ∙ fields-trim_left raw)
  where
    by_end :
        (trimmed : List ℕ)
        → fields_from [] trimmed ≡ fields_from [] raw
        → (if is_empty trimmed then [] else decode_pairs (fields_from [] trimmed) [])
          ≡ decode_pairs (fields_from [] raw) []
    by_end [] h = ap (λ (ws : List (List ℕ)). decode_pairs ws []) h
    by_end (c ∷ cs) h = ap (λ (ws : List (List ℕ)). decode_pairs ws []) h

is_empty-decimal : (n : ℕ) → n < 2 ^ 63 → is_empty (decimal n) ≡ false
is_empty-decimal n h = not_empty (decimal n) (atoi_bytes-decimal n h)
  where
    not_empty : (ds : List ℕ) → atoi_bytes ds ≡ some (pos n) → is_empty ds ≡ false
    not_empty [] q = cc
    not_empty (d ∷ ds) q = refl

decode_pair-entry :
    (key : List ℕ) (v : ℕ) (m : Positions)
    → is_empty key ≡ false
    → (cut b'=' key).found ≡ false
    → 0 < v
    → v < 2 ^ 63
    → decode_pair (entry_text key v) m ≡ put key v m
unfolding decode_pair
decode_pair-entry key v m e c low high =
    let (split, whole) = cut-append_missing b'=' key (b'=' ∷ decimal v) c in
    ap by_parts split
    ∙ rw (append-nil key, e, is_empty-decimal v high, atoi_bytes-decimal v high)
        (ground (arith, low))
  where
    by_parts : Cut → Positions
    by_parts parts =
        if not parts.found || is_empty parts.before || is_empty parts.after
        then m
        else put_pos parts.before (atoi_bytes parts.after) m

abbrev put_all : Positions → Positions → Positions
put_all [] m = m
put_all ((key, v) ∷ ps) m = put_all ps (put key v m)

decode_pairs-entry_texts :
    (ps m : Positions) → Readable ps → decode_pairs (entry_texts ps) m ≡ put_all ps m
unfolding decode_pairs
decode_pairs-entry_texts [] m r = refl
decode_pairs-entry_texts ((key, v) ∷ ps) m (e, n, c, low, high, r) =
    ap (decode_pairs (entry_texts ps)) (decode_pair-entry key v m e c low high)
    ∙ decode_pairs-entry_texts ps (put key v m) r

pub look-put :
    (name key : List ℕ) (v : ℕ) (m : Positions)
    → look name (put key v m) ≡ (if equal key name then some v else look name m)
look-put name key v [] = refl
look-put name key v ((other, w) ∷ m) = elim (Bool-cases (equal other key)) [
  | inl q ↦ rw ((equal_iff other key).0 q) (ground (arith, (equal_iff key key).1 refl))
  | inr q ↦ ground (
    arith,
    q,
    look-put name key v m,
    equal_iff other name,
    equal_iff key name,
    equal_iff other key,
  )
]

-- What is put does not change what the last keys find.
either : Option ℕ → Option ℕ → Option ℕ
either none o = o
either (some v) o = some v

look-put_all :
    (name : List ℕ) (ps m : Positions)
    → DistinctKeys ps
    → look name (put_all ps m) ≡ either (look name ps) (look name m)
unfolding either
look-put_all name [] m d = refl
look-put_all name ((key, v) ∷ ps) m d =
    look-put_all name ps (put key v m) d.1
    ∙ ap (either (look name ps)) (look-put name key v m)
    ∙ elim (Bool-cases (equal key name)) [
      | inl q ↦
          let missing : look name ps ≡ none = rw ((equal_iff key name).0 q) at d.0 in
          rw (q, missing) refl
      | inr q ↦ rw q refl
    ]

look-insert_key :
    (name key : List ℕ) (v : ℕ) (m : Positions)
    → look key m ≡ none
    → look name (insert_key key v m) ≡ (if equal key name then some v else look name m)
look-insert_key name key v [] h = refl
look-insert_key name key v ((other, w) ∷ m) h = ground (
  arith,
  h,
  look-insert_key name key v m,
  equal_iff other name,
  equal_iff key name,
  equal_iff other key,
)

look-sort_keys :
    (name : List ℕ) (m : Positions) → DistinctKeys m → look name (sort_keys m) ≡ look name m
look-sort_keys name [] d = refl
look-sort_keys name ((key, v) ∷ m) d =
    look-insert_key name key v (sort_keys m) (look-sort_keys key m d.1 ∙ d.0)
    ∙ ap (λ (o : Option ℕ). if equal key name then some v else o) (look-sort_keys name m d.1)

DistinctKeys-insert_key :
    (key : List ℕ) (v : ℕ) (m : Positions)
    → look key m ≡ none
    → DistinctKeys m
    → DistinctKeys (insert_key key v m)
DistinctKeys-insert_key key v [] h d = (refl, tt)
DistinctKeys-insert_key key v ((other, w) ∷ m) h d = elim (Bool-cases (text_leb key other)) [
  | inl q ↦ rw q (h, d)
  | inr q ↦ rw q (
    look-insert_key other key v m (ground (arith, h))
        ∙ ground (arith, h, d.0, equal_iff key other, equal_iff other key, equal_iff other other),
    DistinctKeys-insert_key key v m (ground (arith, h)) d.1,
  )
]

DistinctKeys-sort_keys : (m : Positions) → DistinctKeys m → DistinctKeys (sort_keys m)
DistinctKeys-sort_keys [] d = tt
DistinctKeys-sort_keys ((key, v) ∷ m) d =
    DistinctKeys-insert_key key v (sort_keys m) (look-sort_keys key m d.1 ∙ d.0)
      (DistinctKeys-sort_keys m d.1)

Readable-insert_key :
    (key : List ℕ) (v : ℕ) (m : Positions)
    → Readable ((key, v) ∷ [])
    → Readable m
    → Readable (insert_key key v m)
Readable-insert_key key v [] k r = k
Readable-insert_key key v ((other, w) ∷ m) (e, n, c, low, high, u) r =
    elim (Bool-cases (text_leb key other)) [
      | inl q ↦ rw q (e, n, c, low, high, r)
      | inr q ↦
          let (e', n', c', low', high', r') = r in
          rw q (e', n', c', low', high', Readable-insert_key key v m (e, n, c, low, high, u) r')
    ]

Readable-sort_keys : (m : Positions) → Readable m → Readable (sort_keys m)
Readable-sort_keys [] r = tt
Readable-sort_keys ((key, v) ∷ m) (e, n, c, low, high, r) =
    Readable-insert_key key v (sort_keys m) (e, n, c, low, high, tt) (Readable-sort_keys m r)

-- Positions above 0 and below 2 ^ 63 of different commands, whose names are not empty and have neither
-- a space nor "=" in them, are all read back from their encoding, and nothing else is.
pub look-decode_scale_positions :
    (m : Positions) (name : List ℕ)
    → Readable m
    → DistinctKeys m
    → look name (decode_scale_positions (encode_scale_positions m)) ≡ look name m
unfolding encode_scale_positions either
look-decode_scale_positions m name r d =
    ap (look name) (
      decode_eq (write_entries true (sort_keys m))
      ∙ ap (λ (ws : List (List ℕ)). decode_pairs ws [])
          (fields-write_entries (sort_keys m) (Readable-sort_keys m r))
      ∙ decode_pairs-entry_texts (sort_keys m) [] (Readable-sort_keys m r))
    ∙ look-put_all name (sort_keys m) [] (DistinctKeys-sort_keys m d)
    ∙ ap (λ (o : Option ℕ). either o none) (look-sort_keys name m d)
    ∙ either-none (look name m)
  where
    either-none : (o : Option ℕ) → either o none ≡ o
    either-none none = refl
    either-none (some v) = refl
