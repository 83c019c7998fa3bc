-- ===== src/Mux/Window.antt =====
-- cmdman/mux/cycle_scale.go: `cycleScaleWindow`, which shows the next replica in one window. What the
-- multiplexer answers to the calls of the window is a record of answers; an error of a call is a text.
pub mod Written
use cmdman.Prelude.{
  ℕ, zero, suc, ◌+◌, Bool, true, false, List, [], ◌∷◌, Option, some, none, if◌then◌else◌, max,
}
use cmdman.Prelude.Int.{ℤ, pos, negsuc}
use cmdman.Prelude.Numbers.{codes}
use cmdman.Prelude.Text.{String}
use cmdman.Prelude.Results.{Result, ok, err}
use cmdman.Mux.Spec.{PaneSpec}
use cmdman.Mux.Cycle.{
  PositionError, find_unpinned_leaf, pinned_scale_indices, compute_target_position, wrap_position,
}
use cmdman.Mux.ScaleCodec.{look, decode_scale_positions, write_scale_position}

pub record Layout : Type 0 where
  pub name : String
  pub root : PaneSpec

pub record Window : Type 0 where
  pub marker : ℤ
  -- The state of the scale key.
  pub state : List ℕ

-- The answers to `server.Open`, `FindPane`, `RespawnLeaf`, `ReadWindowState` and `WriteWindowState`;
-- `respawn` and `write_state` answer an error, if there is one.
pub record Server : Type 0 where
  pub open_window : Result String Bool
  pub find_pane : Result String (String × Bool)
  pub respawn : String → String → Option String
  pub read_state : Result String (List ℕ)
  pub write_state : List ℕ → Option String

pub record CycleScaleOptions : Type 0 where
  pub layouts : List Layout
  pub command : String
  pub position : ℤ
  -- The replica counter and the resolver, asked for the command.
  pub replicas : Result String ℤ
  pub resolver : ℕ → Result String String

pub data WindowError : Type 0 where
  marker_out_of_range leaf_disappeared : WindowError
  count_failed resolve_failed open_failed find_failed respawn_failed write_failed :
      String → WindowError
  bad_position : PositionError → WindowError

-- The result and the error; `respawned` and `written` are what was done in the window.
pub record CycleOutcome : Type 0 where
  pub layout_name : String
  pub old_position : ℕ
  pub new_position : ℕ
  pub visible : Bool
  pub error : Option WindowError
  pub respawned : Option String
  pub written : Option (List ℕ)

abbrev pub fails : CycleOutcome → WindowError → CycleOutcome
fails base e = record base { error = some e }

-- `opts.Spec.Layouts[window.Marker]`, in range.
abbrev pub layout_at : List Layout → ℕ → Option Layout
layout_at [] i = none
layout_at (l ∷ ls) zero = some l
layout_at (l ∷ ls) (suc i) = layout_at ls i

abbrev pub current_layout : List Layout → ℤ → Option Layout
current_layout layouts (pos i) = layout_at layouts i
current_layout layouts (negsuc i) = none

-- `max(n, 1)`
abbrev pub at_least_one : ℤ → ℕ
at_least_one (pos n) = max n 1
at_least_one (negsuc n) = 1

-- The stored position, 1 when there is none.
abbrev pub position_or_one : Option ℕ → ℕ
position_or_one none = 1
position_or_one (some n) = n

module _ (server : Server) (opts : CycleScaleOptions) where
  unfoldable pub write_position : CycleOutcome → CycleOutcome
  write_position base = elim server.read_state [
    | err e ↦ fails base (write_failed e)
    | ok raw ↦
        let text = write_scale_position (codes opts.command) base.new_position raw in
        elim (server.write_state text) [
          | some e ↦ fails base (write_failed e)
          | none ↦ record base { written = some text }
        ]
  ]

  unfoldable pub respawn_leaf : Layout → String → String → CycleOutcome → CycleOutcome
  respawn_leaf layout id pane base = elim (find_unpinned_leaf opts.command layout.root) [
    | none ↦ fails base leaf_disappeared
    | some leaf ↦ elim (server.respawn pane id) [
      | some e ↦ fails base (respawn_failed e)
      | none ↦ write_position (record base { respawned = some pane })
    ]
  ]

  unfoldable pub show_replica : Layout → String → CycleOutcome → CycleOutcome
  show_replica layout id base = elim server.open_window [
    | err e ↦ fails base (open_failed e)
    | ok found ↦
        if found
        then elim server.find_pane [
          | err e ↦ fails base (find_failed e)
          | ok (pane, visible) ↦
              if visible
              then respawn_leaf layout id pane (record base { visible = true })
              else write_position base
        ]
        else base
  ]

  -- From the count of the replicas on.
  unfoldable pub cycle_layout : Window → Layout → CycleOutcome → CycleOutcome
  cycle_layout window layout base = elim opts.replicas [
    | err e ↦ fails base (count_failed e)
    | ok n ↦
        let stored =
          position_or_one (look (codes opts.command) (decode_scale_positions window.state)) in
        let cur = wrap_position stored (at_least_one n) in
        let at_cur = record base { old_position = cur } in
        elim (compute_target_position cur opts.position (at_least_one n)
          (pinned_scale_indices layout.root opts.command)) [
            | err e ↦ fails at_cur (bad_position e)
            | ok target ↦
                let at_target = record at_cur { new_position = target } in
                elim (opts.resolver target) [
                  | err e ↦ fails at_target (resolve_failed e)
                  | ok id ↦ show_replica layout id at_target
                ]
          ]
  ]

  unfoldable pub cycle_scale_window : Window → CycleOutcome
  cycle_scale_window window =
      let base : CycleOutcome = record {
        layout_name = "";
        old_position = 0;
        new_position = 0;
        visible = false;
        error = none;
        respawned = none;
        written = none;
      } in
      elim (current_layout opts.layouts window.marker) [
        | none ↦ fails base marker_out_of_range
        | some layout ↦ cycle_layout window layout (record base { layout_name = layout.name })
      ]
