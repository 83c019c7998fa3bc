-- ===== src/Frame/Tests.antt =====
-- cmdman/frame/carve.go: a bar at the top of one pane.
use text.Mathlib.TextPositions.{starts_with-append}
use text.Mathlib.Text.{starts_with}
use cmdman.Prelude.Digits.{itoa}
use cmdman.Prelude.{ap, ◌∙◌, ℕ, ◌≡◌, refl, true, false, [], ◌∷◌, none, inl, inr, Bool-cases, arith}
use cmdman.Prelude.Text.{String, str_eq, str_eq_iff, contains}
use cmdman.Prelude.Results.{ok}
use cmdman.MuxCtl.Spec.{PaneSpec, pane, no_panes}
use cmdman.MuxCtl.Focus.Leaves.{leaves}
use cmdman.MuxCtl.Validate.Visits.{leaf_names}
use cmdman.MuxCtl.Validate.Accepted.{is_acceptable, has_shape}
use cmdman.Frame.{Entry, edge_top, ComponentArgv, entry_argv, entry_pane_name, carve}
use cmdman.Frame.Names.{carve-is_acceptable}

abbrev bar : Entry
bar = record {
  edge = edge_top;
  size = record { n = 1; absolute = true; percent = false };
  component = "";
  command = "date" ∷ [];
}

abbrev shell : PaneSpec
shell = pane "" [] no_panes "shell" ("sh" ∷ []) false

abbrev no_component : ComponentArgv
no_component = none

bar-argv : entry_argv bar no_component ≡ ok ("date" ∷ [])
unfolding entry_argv
bar-argv = refl

shell-acceptable : is_acceptable (record { name = "one"; root = shell }) ≡ true
unfolding has_shape leaves
shell-acceptable = refl

-- The name of an entry's pane begins with "frame-".
shell-apart : (k : ℕ) → contains (leaf_names (leaves shell)) (entry_pane_name k) ≡ false
unfolding leaves entry_pane_name
shell-apart k = elim (Bool-cases (str_eq "shell" (entry_pane_name k))) [
  | inr q ↦ rw q refl
  | inl q ↦
      let same : ◌≡◌ {A = String} "shell" (entry_pane_name k) =
        (str_eq_iff "shell" (entry_pane_name k)).0 q in
      let no : starts_with "shell" "frame-" ≡ true =
        ap (λ (s : String). starts_with s "frame-") same ∙ starts_with-append "frame-" (itoa k) in
      cc
]

carve-is_acceptable_example :
    (p : PaneSpec) × (carve (bar ∷ []) 0 shell no_component ≡ ok p)
    × (is_acceptable (record { name = "one"; root = p }) ≡ true)
carve-is_acceptable_example =
    carve-is_acceptable (bar ∷ []) "one" shell no_component (("date" ∷ [], bar-argv), tt)
      shell-acceptable shell-apart (omega arith)
