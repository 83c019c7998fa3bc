-- ===== src/Mux/Tests.antt =====
-- cmdman/mux: the theorems on positions and their text, at concrete inputs.
use cmdman.Prelude.{none, ℕ, ◌≤◌, ◌≡◌, ◌⊎◌, refl, true, false, List, [], ◌∷◌, some, arith}
use cmdman.Prelude.Int.{pos}
use cmdman.Prelude.Text.{contains}
use cmdman.Prelude.Numbers.{codes}
use cmdman.Prelude.Results.{ok}
use cmdman.MuxCtl.Spec.{Size}
use cmdman.Mux.Spec.{PaneSpec, pane, no_panes, more_panes}
use cmdman.Mux.Cycle.{
  pinned, compute_target_position, advance, is_cycle_scale_target, collect_cycle_targets,
}
use cmdman.Mux.Cycle.Position.{IsNext, compute_target_position-IsNext}
use cmdman.Mux.Cycle.Leaves.{contains-collect_cycle_targets}
use cmdman.Mux.Window.{
  Layout, Window, Server, CycleScaleOptions, current_layout, cycle_scale_window, cycle_layout,
  show_replica, respawn_leaf, write_position,
}
use cmdman.Mux.Window.Written.{IsCycled, cycle_scale_window-IsCycled}
use cmdman.Mux.ScaleCodec.{Positions, is_space, look, decode_scale_positions, write_scale_position}
use cmdman.Mux.ScaleCodec.Update.{write_scale_position-look}

-- From 2 of 3 the third position is pinned, so the first is next.
second_of_three : compute_target_position 2 (pos 0) 3 (3 ∷ []) ≡ ok 1
unfolding compute_target_position advance
second_of_three = refl

compute_target_position-IsNext_example :
    (1 ≤ 1)
    × (1 ≤ 3)
    × (pinned (3 ∷ []) 1 ≡ false)
    × ((pos 0 ≡ pos 1) ⊎ ((pos 0 ≡ pos 0) × IsNext 2 3 (3 ∷ []) 1))
compute_target_position-IsNext_example =
    compute_target_position-IsNext 2 3 (pos 0) (3 ∷ []) 1 second_of_three

abbrev no_splits : List Size
no_splits = []

abbrev dashboard : PaneSpec
dashboard =
    pane "h" no_splits
      (more_panes (pane "" no_splits no_panes "web" (pos 0))
        (more_panes (pane "" no_splits no_panes "db" (pos 1)) no_panes))
      "" (pos 0)

contains-collect_cycle_targets_example :
    contains (collect_cycle_targets (dashboard ∷ [])) "web"
    ≡ is_cycle_scale_target (dashboard ∷ []) "web" true
contains-collect_cycle_targets_example = contains-collect_cycle_targets (dashboard ∷ []) "web"

abbrev web : List ℕ
web = codes "web"

abbrev stored : Positions
stored = (web, 2) ∷ (codes "db", 11) ∷ []

write_scale_position-look_example :
    look web (decode_scale_positions (write_scale_position web 3 (codes "  web=2 =x db=11")))
    ≡ some 3
unfolding is_space
write_scale_position-look_example =
    write_scale_position-look web 3 (codes "  web=2 =x db=11") web refl (refl, (refl, (refl, tt)))
      refl (omega arith)

-- A window that shows the first of three replicas of "web".
abbrev server : Server
server = record {
  open_window = ok true;
  find_pane = ok ("%1", true);
  respawn = λ pane id. none;
  read_state = ok (codes "web=1");
  write_state = λ text. none;
}

abbrev opts : CycleScaleOptions
opts = record {
  layouts = record { name = "wide"; root = dashboard } ∷ [];
  command = "web";
  position = pos 0;
  replicas = ok (pos 3);
  resolver = λ n. ok "id";
}

abbrev window : Window
window = record { marker = pos 0; state = codes "web=1" }

second_shown : (cycle_scale_window server opts window).written ≡ some (codes "web=2")
unfolding cycle_scale_window cycle_layout compute_target_position advance
    cmdman.Mux.Cycle.pinned_scale_indices cmdman.Mux.Cycle.collect_pinned_indices show_replica
    respawn_leaf write_position cmdman.Mux.Cycle.find_unpinned_leaf write_scale_position
    decode_scale_positions cmdman.Mux.ScaleCodec.encode_scale_positions
    cmdman.Mux.ScaleCodec.decode_pairs cmdman.Mux.ScaleCodec.decode_pair
    cmdman.Mux.ScaleCodec.write_entries is_space cmdman.Prelude.Digits.decimal
    cmdman.Prelude.Digits.decimal_from
second_shown = refl

cycle_scale_window-IsCycled_example :
    (layout : Layout) × (current_layout opts.layouts window.marker ≡ some layout)
    × IsCycled server opts layout (codes "web=2") (cycle_scale_window server opts window)
cycle_scale_window-IsCycled_example =
    cycle_scale_window-IsCycled server opts (codes "web=2") window second_shown
