-- ===== src/Frame.antt =====
-- cmdman/frame/carve.go: the entries of a frame around a pane tree. The error of a component's
-- resolver is a text.
pub mod Shape
pub mod Names
mod Tests
use Prim.Native.String.{◌++◌ as ◌<>◌}
use cmdman.Prelude.{ℕ, suc, Bool, true, false, List, [], ◌∷◌, Option, some, none, if◌then◌else◌}
use cmdman.Prelude.Text.{String, str_eq}
use cmdman.Prelude.Digits.{itoa}
use cmdman.Prelude.Results.{Result, ok, err, ◌>>=◌}
use cmdman.MuxCtl.Spec.{Size, PaneSpec, pane, Panes, no_panes, more_panes, is_empty}

-- The edges that a normalized entry has.
pub data Edge : Type 0 where
  edge_top edge_bottom edge_left edge_right : Edge

pub record Entry : Type 0 where
  pub edge : Edge
  pub size : Size
  pub component : String
  pub command : List String

pub data FrameError : Type 0 where
  nothing_set : FrameError
  no_resolver no_argv : String → FrameError
  resolver_failed : String → String → FrameError
  -- The prefix "frame: entry i".
  in_entry : ℕ → FrameError → FrameError

-- `restSize`
abbrev pub rest_size : Size
rest_size = record { n = 1; absolute = false; percent = false }

unfoldable pub entry_pane_name : ℕ → String
entry_pane_name i = "frame-" <> itoa i

-- A resolver answers an error's text or an argv; it may be nil.
abbrev pub ComponentArgv : Type 0
ComponentArgv = Option (String → Result String (List String))

unfoldable pub entry_argv : Entry → ComponentArgv → Result FrameError (List String)
entry_argv entry component =
    if str_eq entry.component ""
    then if is_empty entry.command then err nothing_set else ok entry.command
    else elim component [
      | none ↦ err (no_resolver entry.component)
      | some resolve ↦ elim (resolve entry.component) [
        | err e ↦ err (resolver_failed entry.component e)
        | ok argv ↦ if is_empty argv then err (no_argv entry.component) else ok argv
      ]
    ]

abbrev pub direction : Edge → String
direction edge_top = "v"
direction edge_bottom = "v"
direction edge_left = "h"
direction edge_right = "h"

-- A bottom or right entry stands behind what is left over.
abbrev pub trails : Edge → Bool
trails edge_top = false
trails edge_bottom = true
trails edge_left = false
trails edge_right = true

abbrev pub two_panes : PaneSpec → PaneSpec → Panes
two_panes p q = more_panes p (more_panes q no_panes)

abbrev pub entry_pane : ℕ → List String → PaneSpec
entry_pane i argv = pane "" [] no_panes (entry_pane_name i) argv false

abbrev pub around : Entry → PaneSpec → PaneSpec → PaneSpec
around entry p rest =
    if trails entry.edge
    then pane (direction entry.edge) (rest_size ∷ entry.size ∷ []) (two_panes rest p) "" [] false
    else pane (direction entry.edge) (entry.size ∷ rest_size ∷ []) (two_panes p rest) "" [] false

abbrev pub in_entry_of : ℕ → Result FrameError (List String) → Result FrameError (List String)
in_entry_of i (err e) = err (in_entry i e)
in_entry_of i (ok argv) = ok argv

unfoldable pub carve : List Entry → ℕ → PaneSpec → ComponentArgv → Result FrameError PaneSpec
carve [] i main component = ok main
carve (entry ∷ entries) i main component = in_entry_of i (entry_argv entry component) >>= λ argv.
    carve entries (suc i) main component >>= λ rest. ok (around entry (entry_pane i argv) rest)
