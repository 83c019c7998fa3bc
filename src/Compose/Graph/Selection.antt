-- ===== src/Compose/Graph/Selection.antt =====
-- cmdman/compose/graph.go: the names that a round selects, and the commands that are left.
use mathlib.Core.List.{Memᴰ}
use cmdman.Prelude.{
  ℕ, suc, ◌+◌, ◌≡◌, ◌≢◌, refl, ap, inl, inr, Bool, true, false, ◌&&◌, List, [], ◌∷◌, arith,
  if◌then◌else◌, length, Bool-cases,
}
use cmdman.Prelude.Text.{String, str_eq, str_eq_iff, str_eq_self, contains, Distinct}
use cmdman.Compose.Spec.{Command}
use cmdman.Prelude.Int.{ℤ, is_zero}
use cmdman.Compose.Graph.{names, select}
use cmdman.Compose.Graph.Order.{placed_with}

pub contains-select :
    (test : ℤ → Bool) (deg : String → ℤ) (cs : List Command) (s : String)
    → contains (select test deg cs) s ≡ (contains (names cs) s && test (deg s))
unfolding select
contains-select test deg [] s = refl
contains-select test deg (c ∷ cs) s = elim (Bool-cases (str_eq c.name s)) [
  | inl q ↦
      rw ((str_eq_iff c.name s).0 q, str_eq_self s)
        (ground (arith, str_eq_self s, contains-select test deg cs s))
  | inr q ↦ ground (arith, q, contains-select test deg cs s)
]

pub Distinct-select :
    (test : ℤ → Bool) (deg : String → ℤ) (cs : List Command)
    → Distinct (names cs)
    → Distinct (select test deg cs)
unfolding select
Distinct-select test deg [] d = tt
Distinct-select test deg (c ∷ cs) d =
    ground (arith, Distinct-select test deg cs d.1, contains-select test deg cs c.name)

-- How many commands are not placed.
abbrev pub unplaced : (String → Bool) → List Command → ℕ
unplaced placed [] = 0
unplaced placed (c ∷ cs) = let rest = unplaced placed cs in if placed c.name then rest else suc rest

pub unplaced-zero :
    (placed : String → Bool) (cs : List Command) (c : Command)
    → unplaced placed cs ≡ 0
    → Memᴰ c cs
    → placed c.name ≡ true
unplaced-zero placed [] c h m = elim m [ ]
unplaced-zero placed (x ∷ cs) c h (Memᴰ.head e) = rw e (ground arith)
unplaced-zero placed (x ∷ cs) c h (Memᴰ.tail m) = unplaced-zero placed cs c (ground arith) m

pub unplaced-some :
    (placed : String → Bool) (cs : List Command)
    → unplaced placed cs ≢ 0
    → (c : Command) × Memᴰ c cs × (placed c.name ≡ false)
unplaced-some placed [] h = absurd (h (omega arith))
unplaced-some placed (x ∷ cs) h = elim (Bool-cases (placed x.name)) [
  | inl e ↦ let (c, m, p) = unplaced-some placed cs (λ z. h (rw e z)) in (c, Memᴰ.tail m, p)
  | inr e ↦ (x, Memᴰ.head refl, e)
]

-- A layer takes away as many unplaced commands as it has members.
pub unplaced-layer :
    (placed : String → Bool) (deg : String → ℤ) (layer : List String) (cs : List Command)
    → ((c : Command) → Memᴰ c cs → contains layer c.name ≡ is_zero (deg c.name))
    → ((c : Command) → Memᴰ c cs → placed c.name ≡ true → is_zero (deg c.name) ≡ false)
    → unplaced placed cs ≡ length (select is_zero deg cs) + unplaced (placed_with placed layer) cs
unfolding select
unplaced-layer placed deg layer [] members done = omega arith
unplaced-layer placed deg layer (c ∷ cs) members done = ground (
  arith,
  members c (Memᴰ.head refl),
  done c (Memᴰ.head refl),
  unplaced-layer placed deg layer cs (λ x m. members x (Memᴰ.tail m)) (λ x m. done x (Memᴰ.tail m)),
)

pub unplaced-none : (cs : List Command) → unplaced (λ _. false) cs ≡ length cs
unplaced-none [] = refl
unplaced-none (c ∷ cs) = ap suc (unplaced-none cs)

pub command_named :
    (cs : List Command) (s : String)
    → contains (names cs) s ≡ true
    → (c : Command) × Memᴰ c cs × (c.name ≡ s)
command_named [] s h = cc
command_named (x ∷ cs) s h = elim (Bool-cases (str_eq x.name s)) [
  | inl q ↦ (x, Memᴰ.head refl, (str_eq_iff x.name s).0 q)
  | inr q ↦ let (c, m, e) = command_named cs s (ground arith) in (c, Memᴰ.tail m, e)
]
