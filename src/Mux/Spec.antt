-- ===== src/Mux/Spec.antt =====
-- cmdman/mux/spec.go: a pane of a layout, with the fields that picking a replica reads.
use cmdman.Prelude.{Bool, true, false, not, ◌&&◌, List, [], ◌∷◌}
use cmdman.Prelude.Int.{ℤ}
use cmdman.Prelude.Text.{String, str_eq}
use cmdman.MuxCtl.Spec.{Size}

mutual
  pub data PaneSpec : Type 0 where
    pane :
        (dir : String) (splits : List Size) (panes : Panes) (command : String) (scale : ℤ)
        → PaneSpec

  pub data Panes : Type 0 where
    no_panes : Panes
    more_panes : PaneSpec → Panes → Panes

abbrev empty_panes : Panes → Bool
empty_panes no_panes = true
empty_panes (more_panes p ps) = false

abbrev is_empty {ℓ} : {A : Type ℓ} → List A → Bool
is_empty [] = true
is_empty (x ∷ xs) = false

-- `IsLeaf`, on the fields.
abbrev pub is_leaf : String → List Size → Panes → String → Bool
is_leaf dir splits panes command =
    not (str_eq command "") && (str_eq dir "" && (is_empty splits && empty_panes panes))
