-- ===== src/Mux/Cycle.antt =====
-- cmdman/mux/cycle_scale.go and targets.go: which panes show a replica that can be cycled, and the
-- position that comes next. The set of pinned indices is a list that is only asked for members.
pub mod Position
pub mod Leaves
use cmdman.Prelude.{
  ℕ, zero, suc, ◌+◌, ◌-◌, ◌%◌, Bool, true, false, not, ◌&&◌, ◌||◌, List, [], ◌∷◌, ◌++◌, Option,
  some, none, if◌then◌else◌, ◌==◌, ltb, leb,
}
use cmdman.Prelude.Int.{ℤ, pos, negsuc, is_zero}
use cmdman.Prelude.Text.{String, str_eq, contains, sort}
use cmdman.Prelude.Results.{Result, ok, err}
use cmdman.Mux.Spec.{PaneSpec, pane, Panes, no_panes, more_panes, is_leaf}

-- A leaf without a pinned replica: `p.Command == command && p.Scale == 0`
abbrev is_unpinned : String → String → ℤ → Bool
is_unpinned wanted command scale = str_eq command wanted && is_zero scale

unfoldable mutual
  pub find_unpinned_leaf : String → PaneSpec → Option PaneSpec
  find_unpinned_leaf wanted (pane dir splits panes command scale) =
      let inside = find_in_panes wanted panes in
      if is_leaf dir splits panes command
      then if is_unpinned wanted command scale
        then some (pane dir splits panes command scale)
        else none
      else inside

  -- The loop over the children.
  pub find_in_panes : String → Panes → Option PaneSpec
  find_in_panes wanted no_panes = none
  find_in_panes wanted (more_panes p ps) =
      let later = find_in_panes wanted ps in
      elim (find_unpinned_leaf wanted p) [ none ↦ later | some found ↦ some found ]

-- The loop over the layouts, by their roots; `replicas` tells whether a counter is given.
abbrev any_unpinned : String → List PaneSpec → Bool
any_unpinned wanted [] = false
any_unpinned wanted (root ∷ roots) =
    let later = any_unpinned wanted roots in
    elim (find_unpinned_leaf wanted root) [ none ↦ later | some found ↦ true ]

unfoldable pub is_cycle_scale_target : List PaneSpec → String → Bool → Bool
is_cycle_scale_target roots wanted replicas = if replicas then any_unpinned wanted roots else false

-- `p.Command == command && p.Scale > 0`
abbrev pinned_index : String → String → ℤ → List ℕ
pinned_index wanted command (negsuc n) = []
pinned_index wanted command (pos n) = if str_eq command wanted && ltb 0 n then n ∷ [] else []

unfoldable mutual
  pub collect_pinned_indices : PaneSpec → String → List ℕ → List ℕ
  collect_pinned_indices (pane dir splits panes command scale) wanted m =
      let inside = collect_pinned_panes panes wanted m in
      if is_leaf dir splits panes command then pinned_index wanted command scale ++ m else inside

  pub collect_pinned_panes : Panes → String → List ℕ → List ℕ
  collect_pinned_panes no_panes wanted m = m
  collect_pinned_panes (more_panes p ps) wanted m =
      collect_pinned_panes ps wanted (collect_pinned_indices p wanted m)

unfoldable pub pinned_scale_indices : PaneSpec → String → List ℕ
pinned_scale_indices root wanted = collect_pinned_indices root wanted []

abbrev pub pinned : List ℕ → ℕ → Bool
pinned [] i = false
pinned (j ∷ js) i = j == i || pinned js i

pub data PositionError : Type 0 where
  out_of_range : ℤ → ℕ → PositionError
  pinned_in_layout : ℤ → PositionError
  all_pinned : PositionError

-- An explicit position, which is not 0.
abbrev pub explicit_position : ℤ → ℕ → List ℕ → Result PositionError ℕ
explicit_position (negsuc k) n indices = err (out_of_range (negsuc k) n)
explicit_position (pos k) n indices =
    if ltb k 1 || ltb n k
    then err (out_of_range (pos k) n)
    else if pinned indices k
    then err (pinned_in_layout (pos k))
    else ok k

-- The loop of `count` turns from turn `i` on; `start - 1` is not negative, since `start` is above 0.
unfoldable pub advance : ℕ → ℕ → List ℕ → ℕ → ℕ → Result PositionError ℕ
advance start n indices i zero = err all_pinned
advance start n indices i (suc count) =
    let candidate = (start - 1 + i) % n + 1 in
    let later = advance start n indices (suc i) count in
    if not (pinned indices candidate) then ok candidate else later

unfoldable pub compute_target_position : ℕ → ℤ → ℕ → List ℕ → Result PositionError ℕ
compute_target_position cur_pos explicit_pos n indices =
    if not (is_zero explicit_pos)
    then explicit_position explicit_pos n indices
    else advance (cur_pos % n + 1) n indices 0 n

-- `max(n, 1)` and the stored position, wrapped into [1, n]; it is at least 1, the default being 1.
abbrev pub wrap_position : ℕ → ℕ → ℕ
wrap_position stored_pos n = (stored_pos - 1) % n + 1

unfoldable mutual
  pub collect_unpinned_leaf_commands : PaneSpec → List String → List String
  collect_unpinned_leaf_commands (pane dir splits panes command scale) seen =
      let inside = collect_unpinned_panes panes seen in
      if is_leaf dir splits panes command
      then if is_zero scale && not (contains seen command) then command ∷ seen else seen
      else inside

  pub collect_unpinned_panes : Panes → List String → List String
  collect_unpinned_panes no_panes seen = seen
  collect_unpinned_panes (more_panes p ps) seen =
      collect_unpinned_panes ps (collect_unpinned_leaf_commands p seen)

-- The keys of the set `seen`, sorted; the layouts by their roots.
abbrev pub collect_layouts : List PaneSpec → List String → List String
collect_layouts [] seen = seen
collect_layouts (root ∷ roots) seen =
    collect_layouts roots (collect_unpinned_leaf_commands root seen)

unfoldable pub collect_cycle_targets : List PaneSpec → List String
collect_cycle_targets roots = sort (collect_layouts roots [])
