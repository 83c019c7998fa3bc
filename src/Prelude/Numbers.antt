-- ===== src/Prelude/Numbers.antt =====
-- Go's `strconv.Atoi` on a 64-bit platform, on the bytes of the text and on the text.
use Prim.Native.Char.{code}
use Prim.Native.String.{String}
use cmdman.Prelude.{
  ℕ, zero, suc, ◌+◌, ◌-◌, ◌*◌, ◌^◌, ◌&&◌, List, [], ◌∷◌, Option, none, some, if◌then◌else◌, ltb,
  leb, ◌==◌,
}
use cmdman.Prelude.Int.{ℤ, pos, negsuc}

abbrev pub codes : String → List ℕ
codes String.[] = []
codes (String.◌∷◌ c s) = code c ∷ codes s

-- The number that decimal digits continue.
abbrev pub digits_from : ℕ → List ℕ → Option ℕ
digits_from n [] = some n
digits_from n (c ∷ cs) =
    let rest = digits_from (n * 10 + (c - b'0')) cs in
    if leb b'0' c && leb c b'9' then rest else none

abbrev pub unsigned : List ℕ → Option ℕ
unsigned [] = none
unsigned (c ∷ cs) = digits_from 0 (c ∷ cs)

abbrev pub negate : ℕ → ℤ
negate zero = pos 0
negate (suc n) = negsuc n

abbrev pub in_range_pos : Option ℕ → Option ℤ
in_range_pos none = none
in_range_pos (some n) = if ltb n (2 ^ 63) then some (pos n) else none

abbrev pub in_range_neg : Option ℕ → Option ℤ
in_range_neg none = none
in_range_neg (some n) = if leb n (2 ^ 63) then some (negate n) else none

abbrev pub atoi_bytes : List ℕ → Option ℤ
atoi_bytes [] = none
atoi_bytes (c ∷ cs) =
    if c == b'-'
    then in_range_neg (unsigned cs)
    else if c == b'+'
    then in_range_pos (unsigned cs)
    else in_range_pos (unsigned (c ∷ cs))

abbrev pub atoi : String → Option ℤ
atoi s = atoi_bytes (codes s)
