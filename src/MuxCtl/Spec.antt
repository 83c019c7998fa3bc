-- ===== src/MuxCtl/Spec.antt =====
-- pkg/muxctl/spec.go: the size of a pane.
use cmdman.Prelude.{ℕ, Bool, true, false, not, ◌&&◌, List, [], ◌∷◌}
use cmdman.Prelude.Text.{String, str_eq}

-- `n` is not negative: the parser wants it above 0.
pub record Size : Type 0 where
  pub n : ℕ
  pub absolute : Bool
  pub percent : Bool

-- A pane: the fields of `Container` and of `Leaf` that the layout code reads. A list of panes is a
-- type of its own.
mutual
  pub data PaneSpec : Type 0 where
    pane :
        (dir : String) (splits : List Size) (panes : Panes) (name : String) (cmd : List String)
        (focus : Bool)
        → PaneSpec

  pub data Panes : Type 0 where
    no_panes : Panes
    more_panes : PaneSpec → Panes → Panes

abbrev pub empty_panes : Panes → Bool
empty_panes no_panes = true
empty_panes (more_panes p ps) = false

abbrev pub is_empty {ℓ} : {A : Type ℓ} → List A → Bool
is_empty [] = true
is_empty (x ∷ xs) = false

-- `IsLeaf`, on the fields.
abbrev pub is_leaf : String → List Size → Panes → List String → Bool
is_leaf dir splits panes cmd =
    not (is_empty cmd) && (str_eq dir "" && (is_empty splits && empty_panes panes))
