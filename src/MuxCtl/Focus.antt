-- ===== src/MuxCtl/Focus.antt =====
-- pkg/muxctl/layout.go: the leaves of a pane tree in document order, and the one that gets the focus.
pub mod Leaves
use cmdman.Prelude.{Bool, true, false, not, List, [], ◌∷◌, ◌++◌, if◌then◌else◌}
use cmdman.Prelude.Text.{String, str_eq}
use cmdman.MuxCtl.Spec.{PaneSpec, pane, Panes, no_panes, more_panes, is_leaf}

-- The variables of the closure of `PickFocus`.
pub record Found : Type 0 where
  pub first : String
  pub focused : String

abbrev pub at_leaf : String → Bool → Found → Found
at_leaf name focus f = record {
  first = if str_eq f.first "" then name else f.first;
  focused = if focus then name else f.focused;
}

unfoldable mutual
  pub walk : PaneSpec → Found → Found
  walk (pane dir splits panes name cmd focus) f =
      let inside = walk_panes panes f in
      if not (str_eq f.focused "")
      then f
      else if is_leaf dir splits panes cmd
      then at_leaf name focus f
      else inside

  -- The loop over the children, which stops when a focus is found.
  pub walk_panes : Panes → Found → Found
  walk_panes no_panes f = f
  walk_panes (more_panes p ps) f =
      let later = walk_panes ps (walk p f) in
      if not (str_eq (walk p f).focused "") then walk p f else later

unfoldable pub pick_focus : PaneSpec → String
pick_focus root =
    let f = walk root (record { first = ""; focused = "" }) in
    if not (str_eq f.focused "") then f.focused else f.first

unfoldable mutual
  pub append_leaf_names : List String → PaneSpec → List String
  append_leaf_names dst (pane dir splits panes name cmd focus) =
      let inside = append_all dst panes in
      if is_leaf dir splits panes cmd then dst ++ (name ∷ []) else inside

  pub append_all : List String → Panes → List String
  append_all dst no_panes = dst
  append_all dst (more_panes p ps) = append_all (append_leaf_names dst p) ps
