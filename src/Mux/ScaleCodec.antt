-- ===== src/Mux/ScaleCodec.antt =====
-- cmdman/mux/scale_codec.go and writeScalePosition of cycle_scale.go: the positions of cycled commands as a text of "name=pos" words. Texts are
-- lists of code points; a map is a list in which a key stands once; its nil is empty. A position is a
-- natural number: one below 1 is neither written nor read.
pub mod Words
pub mod RoundTrip
pub mod Decoded
pub mod Update
use cmdman.Prelude.{
  ℕ, zero, suc, Bool, true, false, not, ◌&&◌, ◌||◌, List, [], ◌∷◌, ◌++◌, Option, some, none,
  if◌then◌else◌, ◌==◌, ltb, leb,
}
use cmdman.Prelude.Int.{ℤ, pos, negsuc}
use cmdman.Prelude.Bytes.{equal, cut}
use cmdman.Prelude.Numbers.{atoi_bytes}
use cmdman.Prelude.Digits.{decimal}

abbrev pub Positions : Type 0
Positions = List (List ℕ × ℕ)

-- `unicode.IsSpace`
unfoldable pub is_space : ℕ → Bool
is_space c =
    (leb 9 c && leb c 13)
    || (c == 32)
    || (c == 133)
    || (c == 160)
    || (c == 5760)
    || (leb 8192 c && leb c 8202)
    || (c == 8232)
    || (c == 8233)
    || (c == 8239)
    || (c == 8287)
    || (c == 12288)

abbrev pub is_empty : List ℕ → Bool
is_empty [] = true
is_empty (c ∷ cs) = false

abbrev pub trim_left : List ℕ → List ℕ
trim_left [] = []
trim_left (c ∷ cs) = let rest = trim_left cs in if is_space c then rest else c ∷ cs

abbrev pub trim_right : List ℕ → List ℕ
trim_right [] = []
trim_right (c ∷ cs) =
    let rest = trim_right cs in if is_space c && is_empty rest then [] else c ∷ rest

-- `strings.FieldsSeq`, with the word that is being read.
abbrev pub fields_from : List ℕ → List ℕ → List (List ℕ)
fields_from word [] = if is_empty word then [] else word ∷ []
fields_from word (c ∷ cs) =
    let next = fields_from [] cs in
    let longer = fields_from (word ++ (c ∷ [])) cs in
    if is_space c then if is_empty word then next else word ∷ next else longer

-- `m[name] = pos`
abbrev pub put : List ℕ → ℕ → Positions → Positions
put name n [] = (name, n) ∷ []
put name n ((key, v) ∷ m) =
    let rest = put name n m in if equal key name then (name, n) ∷ m else (key, v) ∷ rest

-- `delete(m, cmd)`
abbrev pub delete : List ℕ → Positions → Positions
delete name [] = []
delete name ((key, v) ∷ m) =
    let rest = delete name m in if equal key name then rest else (key, v) ∷ rest

-- `m[name]`
abbrev pub look : List ℕ → Positions → Option ℕ
look name [] = none
look name ((key, v) ∷ m) = let later = look name m in if equal key name then some v else later

abbrev pub put_pos : List ℕ → Option ℤ → Positions → Positions
put_pos name none m = m
put_pos name (some (negsuc n)) m = m
put_pos name (some (pos n)) m = if n == 0 then m else put name n m

-- One turn of the loop over the words.
unfoldable pub decode_pair : List ℕ → Positions → Positions
decode_pair pair m =
    let parts = cut b'=' pair in
    if not parts.found || is_empty parts.before || is_empty parts.after
    then m
    else put_pos parts.before (atoi_bytes parts.after) m

unfoldable pub decode_pairs : List (List ℕ) → Positions → Positions
decode_pairs [] m = m
decode_pairs (pair ∷ pairs) m = decode_pairs pairs (decode_pair pair m)

unfoldable pub decode_scale_positions : List ℕ → Positions
decode_scale_positions raw =
    let trimmed = trim_right (trim_left raw) in
    if is_empty trimmed then [] else decode_pairs (fields_from [] trimmed) []

-- Texts in the order of their code points, as `slices.Sort` has them.
abbrev pub text_leb : List ℕ → List ℕ → Bool
text_leb [] ys = true
text_leb (x ∷ xs) [] = false
text_leb (x ∷ xs) (y ∷ ys) = let rest = text_leb xs ys in if x == y then rest else ltb x y

abbrev pub insert_key : List ℕ → ℕ → Positions → Positions
insert_key key v [] = (key, v) ∷ []
insert_key key v ((other, w) ∷ m) =
    let rest = insert_key key v m in
    if text_leb key other then (key, v) ∷ (other, w) ∷ m else (other, w) ∷ rest

-- The keys in order, each with its value.
abbrev pub sort_keys : Positions → Positions
sort_keys [] = []
sort_keys ((key, v) ∷ m) = insert_key key v (sort_keys m)

abbrev pub entry_text : List ℕ → ℕ → List ℕ
entry_text key v = key ++ (b'=' ∷ decimal v)

-- The loop over the sorted keys; `first` is the variable of that name.
unfoldable pub write_entries : Bool → Positions → List ℕ
write_entries first [] = []
write_entries first ((key, v) ∷ m) =
    let skipped = write_entries first m in
    let later = write_entries false m in
    if v == 0
    then skipped
    else if first
    then entry_text key v ++ later
    else b' ' ∷ (entry_text key v ++ later)

unfoldable pub encode_scale_positions : Positions → List ℕ
encode_scale_positions m = write_entries true (sort_keys m)

-- `writeScalePosition`, on the text that is read from the window; what it answers is written back. A
-- position below 1, which deletes, is 0 here.
unfoldable pub write_scale_position : List ℕ → ℕ → List ℕ → List ℕ
write_scale_position cmd position raw =
    let m = decode_scale_positions raw in
    encode_scale_positions (if position == 0 then delete cmd m else put cmd position m)
