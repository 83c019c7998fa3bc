-- ===== src/Prelude/Digits.antt =====
-- Go's `strconv.Itoa` on a number that is not negative, as bytes and as a text, and its round trip
-- with `strconv.Atoi`.
use Prim.Native.String.{String}
use Prim.Native.Char.{Char, char, code}
use cmdman.Prelude.{
  ℕ, zero, suc, ◌+◌, ◌-◌, ◌*◌, ◌/◌, ◌%◌, ◌^◌, ◌≤◌, ◌<◌, ◌≡◌, ◌≢◌, refl, ap, ap₂, ◌∙◌, inl, inr,
  false, List, [], ◌∷◌, ◌++◌, Option, some, if◌then◌else◌, ltb, ◌==◌, Bool-cases, arith,
}
use cmdman.Prelude.Int.{pos}
use cmdman.Prelude.Numbers.{codes, digits_from, atoi_bytes, atoi, in_range_pos}

-- The decimal digits; the fuel bounds their number.
unfoldable pub decimal_from : ℕ → ℕ → List ℕ
decimal_from zero n = []
decimal_from (suc fuel) n =
    let rest = decimal_from fuel (n / 10) in
    if ltb n 10 then (b'0' + n) ∷ [] else rest ++ ((b'0' + n % 10) ∷ [])

-- A number has no more digits than its successor counts.
unfoldable pub decimal : ℕ → List ℕ
decimal n = decimal_from (suc n) n

digits_from-snoc :
    (a m d : ℕ) (xs : List ℕ)
    → d < 10
    → digits_from a xs ≡ some m
    → digits_from a (xs ++ ((b'0' + d) ∷ [])) ≡ some (m * 10 + d)
digits_from-snoc a m d [] h e = ground (arith, e)
digits_from-snoc a m d (x ∷ xs) h e =
    ground (arith, e, digits_from-snoc (a * 10 + (x - b'0')) m d xs h)

digits_from-decimal_from : (fuel n : ℕ) → n < fuel → digits_from 0 (decimal_from fuel n) ≡ some n
unfolding decimal_from
digits_from-decimal_from zero n h = absurd (omega arith)
digits_from-decimal_from (suc fuel) n h = elim (Bool-cases (ltb n 10)) [
  | inl q ↦ rw q (ground (arith, q))
  | inr q ↦ rw q (
      digits_from-snoc 0 (n / 10) (n % 10) (decimal_from fuel (n / 10)) (omega arith)
        (digits_from-decimal_from fuel (n / 10) (ground (arith, q)))
      ∙ ap some (omega arith))
]

pub digits_from-decimal : (n : ℕ) → digits_from 0 (decimal n) ≡ some n
unfolding decimal
digits_from-decimal n = digits_from-decimal_from (suc n) n (omega arith)

decimal_some : (n : ℕ) → decimal n ≢ []
unfolding decimal decimal_from
decimal_some n e = elim (Bool-cases (ltb n 10)) [
  | inl q ↦ let h = rw q at e in cc
  | inr q ↦ snoc_some (decimal_from n (n / 10)) (b'0' + n % 10) (rw q at e)
]
  where
    snoc_some : (xs : List ℕ) (x : ℕ) → (xs ++ (x ∷ [])) ≢ []
    snoc_some [] x h = cc
    snoc_some (y ∷ xs) x h = cc

abbrev pub AllDigits : List ℕ → Type 0
AllDigits [] = Unit {0}
AllDigits (c ∷ cs) = (b'0' ≤ c) × (c ≤ b'9') × AllDigits cs

digits_from-AllDigits : (a n : ℕ) (xs : List ℕ) → digits_from a xs ≡ some n → AllDigits xs
digits_from-AllDigits a n [] h = tt
digits_from-AllDigits a n (c ∷ cs) h = (
  ground (arith, h),
  ground (arith, h),
  digits_from-AllDigits (a * 10 + (c - b'0')) n cs (ground (arith, h)),
)

pub decimal-AllDigits : (n : ℕ) → AllDigits (decimal n)
decimal-AllDigits n = digits_from-AllDigits 0 n (decimal n) (digits_from-decimal n)

atoi_bytes_digits :
    (xs : List ℕ) (n : ℕ)
    → xs ≢ []
    → digits_from 0 xs ≡ some n
    → n < 2 ^ 63
    → atoi_bytes xs ≡ some (pos n)
atoi_bytes_digits [] n some_read h b = absurd (some_read refl)
atoi_bytes_digits (c ∷ cs) n some_read h b =
    let (low, high, rest) = digits_from-AllDigits 0 n (c ∷ cs) h in
    let not_minus : (c == b'-') ≡ false = ground (arith, low) in
    let not_plus : (c == b'+') ≡ false = ground (arith, low) in
    rw (not_minus, not_plus) (in_range (digits_from 0 (c ∷ cs)) h)
  where
    in_range : (o : Option ℕ) → o ≡ some n → in_range_pos o ≡ some (pos n)
    in_range o e = rw e (ground (arith, b))

-- A number that fits into 63 bits is read back from its decimal digits.
pub atoi_bytes-decimal : (n : ℕ) → n < 2 ^ 63 → atoi_bytes (decimal n) ≡ some (pos n)
atoi_bytes-decimal n h = atoi_bytes_digits (decimal n) n (decimal_some n) (digits_from-decimal n) h

-- The character of a digit's value, "9" above 9.
abbrev digit_after : Char → List Char → ℕ → Char
digit_after c cs zero = c
digit_after c [] (suc k) = c
digit_after c (d ∷ cs) (suc k) = digit_after d cs k

-- Characters that follow each other by their numbers.
abbrev digits_from_one : List Char
digits_from_one =
    char 49 tt
    ∷ char 50 tt
    ∷ char 51 tt
    ∷ char 52 tt
    ∷ char 53 tt
    ∷ char 54 tt
    ∷ char 55 tt
    ∷ char 56 tt
    ∷ char 57 tt
    ∷ []

abbrev digit : ℕ → Char
digit c = digit_after (char 48 tt) digits_from_one (c - b'0')

abbrev Ascend : ℕ → List Char → Type 0
Ascend n [] = Unit {0}
Ascend n (d ∷ ds) = (code d ≡ suc n) × Ascend (suc n) ds

abbrev count_chars : List Char → ℕ
count_chars [] = 0
count_chars (d ∷ ds) = suc (count_chars ds)

code-digit_after :
    (c : Char) (cs : List Char) (n k : ℕ)
    → code c ≡ n
    → Ascend n cs
    → k ≤ count_chars cs
    → code (digit_after c cs k) ≡ n + k
code-digit_after c cs n zero e a h = omega (arith, e)
code-digit_after c [] n (suc k) e a h = absurd (omega (arith, h))
code-digit_after c (d ∷ cs) n (suc k) e a h =
    omega (arith, code-digit_after d cs (suc n) k a.0 a.1 (omega (arith, h)))

abbrev digits_text : List ℕ → String
digits_text [] = ""
digits_text (c ∷ cs) = String.◌∷◌ (digit c) (digits_text cs)

-- `strconv.Itoa`
unfoldable pub itoa : ℕ → String
itoa n = digits_text (decimal n)

code-digit : (c : ℕ) → b'0' ≤ c → c ≤ b'9' → code (digit c) ≡ c
code-digit c low high = omega (
  arith,
  low,
  code-digit_after (char 48 tt) digits_from_one 48 (c - b'0') refl
      (refl, (refl, (refl, (refl, (refl, (refl, (refl, (refl, (refl, tt)))))))))
      (omega (arith, high)),
)

codes-digits_text : (cs : List ℕ) → AllDigits cs → codes (digits_text cs) ≡ cs
codes-digits_text [] d = refl
codes-digits_text (c ∷ cs) (low, high, d) =
    ap₂ (λ (x : ℕ) (xs : List ℕ). x ∷ xs) (code-digit c low high) (codes-digits_text cs d)

pub atoi-itoa : (n : ℕ) → n < 2 ^ 63 → atoi (itoa n) ≡ some (pos n)
unfolding itoa
atoi-itoa n h = rw (codes-digits_text (decimal n) (decimal-AllDigits n)) (atoi_bytes-decimal n h)
