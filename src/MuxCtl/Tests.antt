-- ===== src/MuxCtl/Tests.antt =====
-- pkg/muxctl: the theorems on the cells of a split, at concrete inputs.
use cmdman.Prelude.{Bool, not, ◌&&◌, ◌≡◌, true, false, List, [], ◌∷◌, if◌then◌else◌}
use cmdman.Prelude.Text.{String, str_eq}
use cmdman.MuxCtl.Spec.{Size, PaneSpec, pane, no_panes, more_panes}
use cmdman.MuxCtl.Focus.{pick_focus}
use cmdman.MuxCtl.Focus.Leaves.{leaves, first_focused, first_named, pick_focus-leaves}
use cmdman.MuxCtl.Validate.{Layout, validate}
use cmdman.MuxCtl.Validate.Visits.{accepts, distinct}
use cmdman.MuxCtl.Validate.Accepted.{layout_names, all_acceptable, accepts-validate}

-- "10c", "1" and "2"
abbrev splits : List Size
splits =
    record { n = 10; absolute = true; percent = false }
    ∷ record { n = 1; absolute = false; percent = false }
    ∷ record { n = 2; absolute = false; percent = false }
    ∷ []

abbrev leaf : String → Bool → PaneSpec
leaf name focus = pane "" [] no_panes name ("sh" ∷ []) focus

abbrev side_by_side : PaneSpec
side_by_side =
    pane "h" splits (more_panes (leaf "a" false) (more_panes (leaf "b" true) no_panes)) "" [] false

pick_focus-leaves_example : pick_focus side_by_side ≡ (
    if not (str_eq (first_focused (leaves side_by_side)) "")
    then first_focused (leaves side_by_side)
    else first_named (leaves side_by_side))
pick_focus-leaves_example = pick_focus-leaves side_by_side

abbrev layouts : List Layout
layouts =
    record { name = "wide"; root = side_by_side }
    ∷ record { name = "one"; root = leaf "a" false }
    ∷ []

accepts-validate_example :
    accepts (validate layouts) ≡ (distinct (layout_names layouts) && all_acceptable layouts)
accepts-validate_example = accepts-validate layouts
