-- ===== src/Compose/Labels.antt =====
-- cmdman/compose/plan.go: the labels of a replica, and what is read back from them. A map of labels is
-- a function with the empty text for a missing key, as Go's `labels[k]` answers. The JSON of the
-- dependencies and of the hooks is made by encoding/json and is an argument.
pub mod RoundTrip
use cmdman.Prelude.{ℕ, List, [], ◌∷◌, max}
use cmdman.Prelude.Text.{String, update}
use cmdman.Prelude.Digits.{itoa}
use cmdman.Compose.Spec.{AfterSpec, Command}
use cmdman.Compose.Entry.{
  label_command, label_file, label_config_hash, label_scale_index, label_scale,
}

abbrev pub label_project : String
label_project = "cmdman.compose.project"

abbrev pub label_version : String
label_version = "cmdman.compose.version"

abbrev pub label_workdir : String
label_workdir = "cmdman.compose.workdir"

abbrev pub label_after : String
label_after = "cmdman.compose.after"

abbrev pub label_hooks : String
label_hooks = "cmdman.compose.hooks"

-- The fields of `ComposeSpec` that the labels record.
pub record ProjectSpec : Type 0 where
  pub project : String
  pub work_dir : String
  pub compose_file : String

-- `if len(xs) > 0 { labels[key] = json }`
abbrev pub put_list {ℓ} :
    {A : Type ℓ} → List A → (List A → String) → String → (String → String) → String → String
put_list [] marshal key labels = labels
put_list (x ∷ xs) marshal key labels = update labels key (marshal (x ∷ xs))

-- `labels` are those of the user, which `Command.Labels` has.
unfoldable pub build_labels {ℓ} :
    {Hook : Type ℓ}
    → (List AfterSpec → String)
    → (List Hook → String)
    → ProjectSpec
    → Command
    → (String → String)
    → List Hook
    → String
    → ℕ
    → String
    → String
build_labels marshal_after marshal_hooks spec cmd labels hooks config_hash scale_index =
    let labels1 = update labels label_project spec.project in
    let labels2 = update labels1 label_command cmd.name in
    let labels3 = update labels2 label_config_hash config_hash in
    let labels4 = update labels3 label_version "1" in
    let labels5 = update labels4 label_workdir spec.work_dir in
    let labels6 = update labels5 label_file spec.compose_file in
    let labels7 = update labels6 label_scale_index (itoa scale_index) in
    let labels8 = update labels7 label_scale (itoa (max cmd.scale 1)) in
    put_list hooks marshal_hooks label_hooks (put_list cmd.after marshal_after label_after labels8)
