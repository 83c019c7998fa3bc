-- ===== src/Prelude/Results.antt =====
-- A Go result with an error: one of the two is meaningful.
use cmdman.Prelude.{◌≡◌, refl, ◌⊎◌, inl, inr, arith}

pub data Result {ℓ} (E : Type 0) (A : Type ℓ) : Type ℓ where
  err : E → Result E A
  ok : A → Result E A

-- `if err != nil { return err }`, and then the rest.
infixl 5 ◌>>=◌
abbrev pub ◌>>=◌ {ℓ κ} :
    {E : Type 0} {A : Type ℓ} {B : Type κ} → Result E A → (A → Result E B) → Result E B
err e >>= rest = err e
ok a >>= rest = rest a

-- What came before an answer.
pub >>=-ok {ℓ κ} :
    {E : Type 0} {A : Type ℓ} {B : Type κ} (first : Result E A) (rest : A → Result E B) {b : B}
    → (first >>= rest) ≡ ok b
    → (a : A) × (first ≡ ok a) × (rest a ≡ ok b)
>>=-ok (err e) rest q = cc
>>=-ok (ok a) rest q = (a, refl, q)

-- Where an error came from.
pub >>=-err {ℓ κ} :
    {E : Type 0} {A : Type ℓ} {B : Type κ} (first : Result E A) (rest : A → Result E B) {e : E}
    → (first >>= rest) ≡ err e
    → (first ≡ err e) ⊎ ((a : A) × (first ≡ ok a) × (rest a ≡ err e))
>>=-err (err d) rest q = inl (ground arith)
>>=-err (ok a) rest q = inr (a, refl, q)
