-- ===== src/Compose/Graph/Order.antt =====
-- cmdman/compose/graph.go: what a layering promises, said of the commands alone.
use mathlib.Core.List.{Memᴰ}
use cmdman.Prelude.{
  ℕ, suc, ◌≡◌, ◌≢◌, refl, inl, inr, Bool-cases, Bool, true, false, ◌||◌, List, [], ◌∷◌, ◌++◌, arith,
  if◌then◌else◌,
}
use cmdman.Prelude.Text.{String, contains, Distinct}
use cmdman.Compose.Spec.{AfterSpec, Command}
use cmdman.Compose.Graph.{names}

-- Every dependency is among the names placed before.
abbrev pub AllPlaced : (String → Bool) → List AfterSpec → Type 0
AllPlaced placed [] = Unit {0}
AllPlaced placed (d ∷ deps) = (placed d.name ≡ true) × AllPlaced placed deps

-- A name that may be placed next: it names a command, was not placed, and all that the command
-- depends on was.
pub record IsReady (commands : List Command) (placed : String → Bool) (name : String) : Type 0 where
  pub known : contains (names commands) name ≡ true
  pub unplaced : placed name ≡ false
  pub deps_placed : (c : Command) → Memᴰ c commands → c.name ≡ name → AllPlaced placed c.after

abbrev pub placed_with : (String → Bool) → List String → String → Bool
placed_with placed layer s = placed s || contains layer s

-- Layers, none of them empty, whose members are ready when the layers before are placed.
abbrev pub IsLayering : List Command → (String → Bool) → List (List String) → Type 0
IsLayering commands placed [] = Unit {0}
IsLayering commands placed (layer ∷ layers) =
    (layer ≢ [])
    × (Distinct layer
        × (((s : String) → contains layer s ≡ true → IsReady commands placed s)
            × IsLayering commands (placed_with placed layer) layers))

abbrev pub flatten : List (List String) → List String
flatten [] = []
flatten (l ∷ ls) = l ++ flatten ls

-- How many of the dependencies are not placed.
abbrev pub open_deps : (String → Bool) → List AfterSpec → ℕ
open_deps placed [] = 0
open_deps placed (d ∷ deps) =
    let rest = open_deps placed deps in if placed d.name then rest else suc rest

pub open_deps-zero :
    (placed : String → Bool) (deps : List AfterSpec)
    → open_deps placed deps ≡ 0
    → AllPlaced placed deps
open_deps-zero placed [] h = tt
open_deps-zero placed (d ∷ deps) h = ground (arith, open_deps-zero placed deps)

pub AllPlaced-open_deps :
    (placed : String → Bool) (deps : List AfterSpec)
    → AllPlaced placed deps
    → open_deps placed deps ≡ 0
AllPlaced-open_deps placed [] h = omega arith
AllPlaced-open_deps placed (d ∷ deps) h = ground (arith, AllPlaced-open_deps placed deps h.1)

-- A dependency that is still open.
pub open_deps-some :
    (placed : String → Bool) (deps : List AfterSpec)
    → open_deps placed deps ≢ 0
    → (d : AfterSpec) × Memᴰ d deps × (placed d.name ≡ false)
open_deps-some placed [] h = absurd (h (omega arith))
open_deps-some placed (d ∷ deps) h = elim (Bool-cases (placed d.name)) [
  | inl e ↦
      let (found, m, p) = open_deps-some placed deps (λ z. h (rw e z)) in (found, Memᴰ.tail m, p)
  | inr e ↦ (d, Memᴰ.head refl, e)
]
