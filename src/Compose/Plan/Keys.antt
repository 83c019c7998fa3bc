-- ===== src/Compose/Plan/Keys.antt =====
-- cmdman/compose/plan.go: the map of existing instances as a list, in which no key stands twice.
use mathlib.Core.List.{Memᴰ}
use cmdman.Prelude.{
  ◌≡◌, inl, inr, refl, sym, ap, subst, ◌∙◌, true, List, [], ◌∷◌, none, some, if◌then◌else◌, ==_iff,
  Bool-cases, arith,
}
use cmdman.Prelude.Text.{String, str_eq_iff, str_eq_self, contains}
use cmdman.Prelude.Int.{ℤ, pos, negsuc}
use cmdman.Compose.Entry.{Entry, command_name_of, scale_index_of}
use cmdman.Compose.Plan.{same_int, is_instance, same_key, find_instance, put_instance}

same_int_eq : (a b : ℤ) → same_int a b ≡ true → a ≡ b
same_int_eq (pos m) (pos n) h = ap pos (ground (arith, h))
same_int_eq (negsuc m) (negsuc n) h = ap negsuc (ground (arith, h))
same_int_eq (pos m) (negsuc n) h = cc
same_int_eq (negsuc m) (pos n) h = cc

-- Entries with one key are entries of the same instances.
same_key-is_instance :
    (a b : Entry) (name : String) (index : ℤ)
    → same_key a b ≡ true
    → is_instance name index a ≡ is_instance name index b
same_key-is_instance a b name index h =
    let names_eq : command_name_of a ≡ command_name_of b =
      (str_eq_iff (command_name_of a) (command_name_of b)).0 (ground (arith, h)) in
    let indices_eq : scale_index_of a ≡ scale_index_of b =
      same_int_eq (scale_index_of a) (scale_index_of b) (ground (arith, h)) in
    rw (names_eq, indices_eq) refl

pub same_int_self : (a : ℤ) → same_int a a ≡ true
same_int_self (pos m) = (==_iff m m).1 refl
same_int_self (negsuc m) = (==_iff m m).1 refl

is_instance-same_key :
    (a b : Entry) (name : String) (index : ℤ)
    → is_instance name index a ≡ true
    → is_instance name index b ≡ true
    → same_key a b ≡ true
is_instance-same_key a b name index h k =
    let name_a : command_name_of a ≡ name =
      (str_eq_iff (command_name_of a) name).0 (ground (arith, h)) in
    let name_b : command_name_of b ≡ name =
      (str_eq_iff (command_name_of b) name).0 (ground (arith, k)) in
    let index_a : scale_index_of a ≡ index =
      same_int_eq (scale_index_of a) index (ground (arith, h)) in
    let index_b : scale_index_of b ≡ index =
      same_int_eq (scale_index_of b) index (ground (arith, k)) in
    rw (name_a, name_b, index_a, index_b, str_eq_self name, same_int_self index) refl

pub find-put :
    (name : String) (index : ℤ) (e : Entry) (xs : List Entry)
    → find_instance name index (put_instance e xs)
      ≡ (if is_instance name index e then some e else find_instance name index xs)
unfolding find_instance put_instance
find-put name index e [] = refl
find-put name index e (x ∷ xs) = elim (Bool-cases (same_key x e)) [
  | inl q ↦ rw (q, same_key-is_instance x e name index q) (ground arith)
  | inr q ↦ rw q (ground (arith, q, is_instance-same_key x e name index, find-put name index e xs))
]

-- The entries have wanted names and different keys.
abbrev pub Tidy : List String → List Entry → Type 0
Tidy wanted [] = Unit {0}
Tidy wanted (x ∷ xs) =
    (contains wanted (command_name_of x) ≡ true)
    × (find_instance (command_name_of x) (scale_index_of x) xs ≡ none)
    × Tidy wanted xs

is_instance_self : (x : Entry) → is_instance (command_name_of x) (scale_index_of x) x ≡ true
is_instance_self x = rw (str_eq_self (command_name_of x), same_int_self (scale_index_of x)) refl

-- An entry of an instance has the key of the instance.
is_instance_eq :
    (name : String) (index : ℤ) (x : Entry)
    → is_instance name index x ≡ true
    → (command_name_of x ≡ name) × (scale_index_of x ≡ index)
is_instance_eq name index x h = (
  (str_eq_iff (command_name_of x) name).0 (ground (arith, h)),
  same_int_eq (scale_index_of x) index (ground (arith, h)),
)

find-same_key :
    (name : String) (index : ℤ) (x : Entry) (xs : List Entry)
    → is_instance name index x ≡ true
    → find_instance (command_name_of x) (scale_index_of x) xs ≡ find_instance name index xs
find-same_key name index x xs h = let (p, q) = is_instance_eq name index x h in rw (p, q) refl

pub Tidy-put :
    (wanted : List String) (e : Entry) (xs : List Entry)
    → contains wanted (command_name_of e) ≡ true
    → Tidy wanted xs
    → Tidy wanted (put_instance e xs)
unfolding find_instance put_instance
Tidy-put wanted e [] w t = (w, refl, tt)
Tidy-put wanted e (x ∷ xs) w t = elim (Bool-cases (same_key x e)) [
  | inl q ↦ rw q (w, sym (find-same_key _ _ x xs q) ∙ t.1, t.2)
  | inr q ↦ rw q (
    t.0,
    find-put (command_name_of x) (scale_index_of x) e xs
        ∙ ground
            (arith, q, t.1, is_instance-same_key e x (command_name_of x) (scale_index_of x), other),
    Tidy-put wanted e xs w t.2,
  )
]
  where
    other : is_instance (command_name_of x) (scale_index_of x) e ≡ true → same_key x e ≡ true
    other h =
        let (p, q) = is_instance_eq (command_name_of x) (scale_index_of x) e h in
        rw (p, q) (is_instance_self x)

-- An entry that is found is a member.
pub find_instance-Mem :
    (name : String) (index : ℤ) (xs : List Entry) (y : Entry)
    → find_instance name index xs ≡ some y
    → Memᴰ y xs × (command_name_of y ≡ name) × (scale_index_of y ≡ index)
unfolding find_instance
find_instance-Mem name index [] y h = cc
find_instance-Mem name index (x ∷ xs) y h = elim (Bool-cases (is_instance name index x)) [
  | inl q ↦
      let same : x ≡ y = ground (arith, rw (find_instance, q) at h) in
      let (p, k) = is_instance_eq name index x q in
      (Memᴰ.head (sym same), ap command_name_of (sym same) ∙ p, ap scale_index_of (sym same) ∙ k)
  | inr q ↦
      let (m, p, k) = find_instance-Mem name index xs y (rw (find_instance, q) at h) in
      (Memᴰ.tail m, p, k)
]

-- Each member is the one that its key finds.
pub Tidy-find_instance :
    (wanted : List String) (xs : List Entry) (y : Entry)
    → Tidy wanted xs
    → Memᴰ y xs
    → (contains wanted (command_name_of y) ≡ true)
      × (find_instance (command_name_of y) (scale_index_of y) xs ≡ some y)
unfolding find_instance
Tidy-find_instance wanted [] y t m = absurd (elim m [ ])
Tidy-find_instance wanted (x ∷ xs) y t (Memᴰ.head e) =
    subst
      (λ (z : Entry).
        (contains wanted (command_name_of z) ≡ true)
        × (find_instance (command_name_of z) (scale_index_of z) (x ∷ xs) ≡ some z))
      (sym e) (t.0, rw (is_instance_self x) refl)
Tidy-find_instance wanted (x ∷ xs) y t (Memᴰ.tail m) =
    let (w, h) = Tidy-find_instance wanted xs y t.2 m in
    (
      w,
      elim (Bool-cases (is_instance (command_name_of y) (scale_index_of y) x)) [
        | inl q ↦ let no = find-same_key _ _ x xs q in cc (t.1, h, no)
        | inr q ↦ rw q h
      ],
    )
