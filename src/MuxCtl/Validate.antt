-- ===== src/MuxCtl/Validate.antt =====
-- pkg/muxctl/validate.go: the check of layouts and their pane trees. The sets `seenLayout` and `names`
-- are lists that are only asked for members.
pub mod Visits
pub mod Accepted
use cmdman.Prelude.{
  ℕ, zero, suc, Bool, true, false, not, ◌&&◌, ◌||◌, List, [], ◌∷◌, if◌then◌else◌, ◌==◌, ltb, length,
}
use cmdman.Prelude.Text.{String, str_eq, contains}
use cmdman.Prelude.Results.{Result, ok, err, ◌>>=◌}
use cmdman.MuxCtl.Spec.{
  Size, PaneSpec, pane, Panes, no_panes, more_panes, empty_panes, is_empty, is_leaf,
}

pub record Layout : Type 0 where
  pub name : String
  pub root : PaneSpec

pub data SpecError : Type 0 where
  layout_name_required leaf_xor_container leaf_name_required empty_container multiple_focus :
      SpecError
  duplicate_layout_name duplicate_pane_name invalid_direction : String → SpecError
  splits_mismatch : ℕ → ℕ → SpecError
  -- The prefixes "panes[i]" and "layouts[i]".
  in_pane in_layout : ℕ → SpecError → SpecError

-- `IsContainer`, on the fields.
abbrev pub is_container : String → List Size → Panes → List String → Bool
is_container dir splits panes cmd =
    is_empty cmd && (not (str_eq dir "") || (not (empty_panes panes) || not (is_empty splits)))

abbrev same_bool : Bool → Bool → Bool
same_bool true b = b
same_bool false b = not b

abbrev pub count_panes : Panes → ℕ
count_panes no_panes = 0
count_panes (more_panes p ps) = suc (count_panes ps)

unfoldable mutual
  pub validate_shape : PaneSpec → Result SpecError (Unit {0})
  validate_shape (pane dir splits panes name cmd focus) =
      let inside = validate_panes 0 panes in
      if same_bool (is_leaf dir splits panes cmd) (is_container dir splits panes cmd)
      then err leaf_xor_container
      else if is_leaf dir splits panes cmd
      then if str_eq name "" then err leaf_name_required else ok tt
      else if not (str_eq dir "h") && not (str_eq dir "v")
      then err (invalid_direction dir)
      else if empty_panes panes
      then err empty_container
      else if not (length splits == count_panes panes)
      then err (splits_mismatch (length splits) (count_panes panes))
      else inside

  -- The loop over the children from index `i` on.
  pub validate_panes : ℕ → Panes → Result SpecError (Unit {0})
  validate_panes i no_panes = ok tt
  validate_panes i (more_panes p ps) =
      let later = validate_panes (suc i) ps in
      elim (validate_shape p) [ err e ↦ err (in_pane i e) | ok _ ↦ later ]

-- The variables of the closure that `Validate` gives to `walkLeaves`.
pub record Seen : Type 0 where
  pub names : List String
  pub focus : ℕ

abbrev pub visit_leaf : String → Bool → Seen → Result SpecError Seen
visit_leaf name focus s =
    if contains s.names name
    then err (duplicate_pane_name name)
    else if focus
    then if ltb 1 (suc s.focus)
      then err multiple_focus
      else ok (record { names = name ∷ s.names; focus = suc s.focus })
    else ok (record s { names = name ∷ s.names })

unfoldable mutual
  pub walk_leaves : PaneSpec → Seen → Result SpecError Seen
  walk_leaves (pane dir splits panes name cmd focus) s =
      let inside = walk_leaf_panes panes s in
      if is_leaf dir splits panes cmd then visit_leaf name focus s else inside

  pub walk_leaf_panes : Panes → Seen → Result SpecError Seen
  walk_leaf_panes no_panes s = ok s
  walk_leaf_panes (more_panes p ps) s = walk_leaves p s >>= λ s'. walk_leaf_panes ps s'

abbrev pub placed {ℓ} : {A : Type ℓ} → ℕ → Result SpecError A → Result SpecError A
placed i (err e) = err (in_layout i e)
placed i (ok a) = ok a

-- The loop over the layouts from index `i` on.
unfoldable pub validate_layouts : ℕ → List String → List Layout → Result SpecError (Unit {0})
validate_layouts i seen [] = ok tt
validate_layouts i seen (l ∷ ls) =
    let later = validate_layouts (suc i) (l.name ∷ seen) ls in
    if str_eq l.name ""
    then err (in_layout i layout_name_required)
    else if contains seen l.name
    then err (in_layout i (duplicate_layout_name l.name))
    else elim (placed i (validate_shape l.root)) [
      | err e ↦ err e
      | ok _ ↦ elim (placed i (walk_leaves l.root (record { names = []; focus = 0 }))) [
        | err e ↦ err e
        | ok _ ↦ later
      ]
    ]

unfoldable pub validate : List Layout → Result SpecError (Unit {0})
validate layouts = validate_layouts 0 [] layouts
