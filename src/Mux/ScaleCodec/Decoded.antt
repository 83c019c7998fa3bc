-- ===== src/Mux/ScaleCodec/Decoded.antt =====
-- cmdman/mux/scale_codec.go: what is decoded from any text can be encoded again.
use cmdman.Prelude.{
  ℕ, zero, suc, ◌^◌, ◌<◌, ◌≡◌, inl, inr, refl, sym, ap, ◌∙◌, false, not, ◌||◌, List, [], ◌∷◌, ◌++◌,
  Option, some, none, if◌then◌else◌, ◌==◌, ltb, leb, Bool-cases, arith,
}
use cmdman.Prelude.Int.{ℤ, pos, negsuc}
use cmdman.Prelude.Bytes.{cut, equal, equal_iff}
use cmdman.Prelude.Numbers.{atoi_bytes, in_range_pos, in_range_neg, unsigned}
use cmdman.Mux.ScaleCodec.{
  Positions, is_space, is_empty, fields_from, put, look, delete, put_pos, decode_pair, decode_pairs,
  decode_scale_positions,
}
use cmdman.Mux.ScaleCodec.Words.{NoSpace, NoSpace-append, Readable}
use cmdman.Mux.ScaleCodec.RoundTrip.{DistinctKeys, decode_eq, look-put}

-- A word has no spaces in it.
abbrev AllNoSpace : List (List ℕ) → Type 0
AllNoSpace [] = Unit {0}
AllNoSpace (w ∷ ws) = NoSpace w × AllNoSpace ws

fields-NoSpace : (word cs : List ℕ) → NoSpace word → AllNoSpace (fields_from word cs)
fields-NoSpace word [] n = elim (Bool-cases (is_empty word)) [
  | inl q ↦ rw q tt
  | inr q ↦ rw q (n, tt)
]
fields-NoSpace word (c ∷ cs) n = elim (Bool-cases (is_space c)) [
  | inr q ↦ rw q (fields-NoSpace (word ++ (c ∷ [])) cs (NoSpace-append word (c ∷ []) n (q, tt)))
  | inl q ↦ elim (Bool-cases (is_empty word)) [
    | inl e ↦ rw (q, e) (fields-NoSpace [] cs tt)
    | inr e ↦ rw (q, e) (n, fields-NoSpace [] cs tt)
  ]
]

NoSpace-before : (cs : List ℕ) → NoSpace cs → NoSpace (cut b'=' cs).before
NoSpace-before [] n = tt
NoSpace-before (c ∷ cs) n = elim (Bool-cases (c == b'=')) [
  | inl q ↦ rw q tt
  | inr q ↦ rw q (n.0, NoSpace-before cs n.1)
]

cut-before : (sep : ℕ) (cs : List ℕ) → (cut sep (cut sep cs).before).found ≡ false
cut-before sep [] = refl
cut-before sep (c ∷ cs) = elim (Bool-cases (c == sep)) [
  | inl q ↦ rw q refl
  | inr q ↦ rw (q, q) (cut-before sep cs)
]

-- A number that is read and above 0 is below 2 ^ 63.
in_range_pos-lt : (o : Option ℕ) (n : ℕ) → in_range_pos o ≡ some (pos n) → n < 2 ^ 63
in_range_pos-lt none n h = cc
in_range_pos-lt (some k) n h = elim (Bool-cases (ltb k (2 ^ 63))) [
  | inl q ↦ let same : k ≡ n = ground (arith, rw q at h) in rw (← same) (ground (arith, q))
  | inr q ↦ let no = rw q at h in cc
]

pub put-Readable :
    (name : List ℕ) (v : ℕ) (m : Positions)
    → Readable ((name, v) ∷ [])
    → Readable m
    → Readable (put name v m)
put-Readable name v [] k r = k
put-Readable name v ((key, w) ∷ m) (e, n, c, low, high, u) (e', n', c', low', high', r) =
    elim (Bool-cases (equal key name)) [
      | inl q ↦ rw q (e, n, c, low, high, r)
      | inr q ↦ rw q (e', n', c', low', high', put-Readable name v m (e, n, c, low, high, u) r)
    ]

pub put-DistinctKeys :
    (name : List ℕ) (v : ℕ) (m : Positions) → DistinctKeys m → DistinctKeys (put name v m)
put-DistinctKeys name v [] d = (refl, tt)
put-DistinctKeys name v ((key, w) ∷ m) d = elim (Bool-cases (equal key name)) [
  | inl q ↦
      let same : key ≡ name = (equal_iff key name).0 q in
      rw q (ap (λ k. look k m) (sym same) ∙ d.0, d.1)
  | inr q ↦ rw q (
    look-put key name v m ∙ ground (arith, q, d.0, equal_iff key name, equal_iff name key),
    put-DistinctKeys name v m d.1,
  )
]

pub look-delete :
    (name key : List ℕ) (m : Positions)
    → look name (delete key m) ≡ (if equal key name then none else look name m)
look-delete name key [] = ground arith
look-delete name key ((other, w) ∷ m) =
    ground
      (arith, look-delete name key m, equal_iff other name, equal_iff key name, equal_iff other key)

pub delete-Readable : (name : List ℕ) (m : Positions) → Readable m → Readable (delete name m)
delete-Readable name [] r = tt
delete-Readable name ((key, w) ∷ m) (e, n, c, low, high, r) = elim (Bool-cases (equal key name)) [
  | inl q ↦ rw q (delete-Readable name m r)
  | inr q ↦ rw q (e, n, c, low, high, delete-Readable name m r)
]

pub delete-DistinctKeys :
    (name : List ℕ) (m : Positions) → DistinctKeys m → DistinctKeys (delete name m)
delete-DistinctKeys name [] d = tt
delete-DistinctKeys name ((key, w) ∷ m) d = elim (Bool-cases (equal key name)) [
  | inl q ↦ rw q (delete-DistinctKeys name m d.1)
  | inr q ↦ rw q (look-delete key name m ∙ ground (arith, d.0), delete-DistinctKeys name m d.1)
]

in_range_neg-zero : (o : Option ℕ) (n : ℕ) → in_range_neg o ≡ some (pos n) → n ≡ 0
in_range_neg-zero none n h = cc
in_range_neg-zero (some zero) n h = ground (arith, h)
in_range_neg-zero (some (suc k)) n h = elim (Bool-cases (leb (suc k) (2 ^ 63))) [
  | inl q ↦ let no = rw q at h in cc
  | inr q ↦ let no = rw q at h in cc
]

atoi_bytes-lt : (cs : List ℕ) (n : ℕ) → atoi_bytes cs ≡ some (pos n) → n < 2 ^ 63
atoi_bytes-lt [] n h = cc
atoi_bytes-lt (c ∷ cs) n h = elim (Bool-cases (c == b'-')) [
  | inl q ↦ let z = in_range_neg-zero (unsigned cs) n (rw q at h) in omega (arith, z)
  | inr q ↦ elim (Bool-cases (c == b'+')) [
    | inl p ↦ in_range_pos-lt (unsigned cs) n (rw (q, p) at h)
    | inr p ↦ in_range_pos-lt (unsigned (c ∷ cs)) n (rw (q, p) at h)
  ]
]

-- What decoding keeps of its map.
pub record IsDecoded (m : Positions) : Type 0 where
  pub readable : Readable m
  pub distinct : DistinctKeys m

put_pos-IsDecoded :
    (name : List ℕ) (o : Option ℤ) (m : Positions)
    → is_empty name ≡ false
    → NoSpace name
    → (cut b'=' name).found ≡ false
    → ((n : ℕ) → o ≡ some (pos n) → n < 2 ^ 63)
    → IsDecoded m
    → IsDecoded (put_pos name o m)
put_pos-IsDecoded name none m e n c b d = d
put_pos-IsDecoded name (some (negsuc k)) m e n c b d = d
put_pos-IsDecoded name (some (pos k)) m e n c b d = elim (Bool-cases (k == 0)) [
  | inl q ↦ rw q d
  | inr q ↦ rw q (record {
    readable = put-Readable name k m (e, n, c, ground (arith, q), b k refl, tt) d.readable;
    distinct = put-DistinctKeys name k m d.distinct;
  })
]

decode_pair-IsDecoded :
    (pair : List ℕ) (m : Positions) → NoSpace pair → IsDecoded m → IsDecoded (decode_pair pair m)
unfolding decode_pair
decode_pair-IsDecoded pair m n d =
    elim (Bool-cases (
      not (cut b'=' pair).found
      || is_empty (cut b'=' pair).before
      || is_empty (cut b'=' pair).after)) [
        | inl q ↦ rw q d
        | inr q ↦ rw q (
            put_pos-IsDecoded (cut b'=' pair).before (atoi_bytes (cut b'=' pair).after) m
              (ground (arith, q)) (NoSpace-before pair n) (cut-before b'=' pair)
              (atoi_bytes-lt (cut b'=' pair).after) d)
      ]

decode_pairs-IsDecoded :
    (pairs : List (List ℕ)) (m : Positions)
    → AllNoSpace pairs
    → IsDecoded m
    → IsDecoded (decode_pairs pairs m)
unfolding decode_pairs
decode_pairs-IsDecoded [] m n d = d
decode_pairs-IsDecoded (pair ∷ pairs) m n d =
    decode_pairs-IsDecoded pairs (decode_pair pair m) n.1 (decode_pair-IsDecoded pair m n.0 d)

pub decode-IsDecoded : (raw : List ℕ) → IsDecoded (decode_scale_positions raw)
decode-IsDecoded raw = rw (decode_eq raw) (
    decode_pairs-IsDecoded (fields_from [] raw) [] (fields-NoSpace [] raw tt)
      (record { readable = tt; distinct = tt }))
