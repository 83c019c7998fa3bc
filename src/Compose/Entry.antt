-- ===== src/Compose/Entry.antt =====
-- cmdman/compose: what the modelled code reads of a stored command (store.CommandEntry), by
-- selection.go and plan.go. A Go map of labels answers "" for a missing key.
use cmdman.Prelude.{Option, none, some}
use cmdman.Prelude.Text.{String}
use cmdman.Prelude.Int.{ℤ, pos}
use cmdman.Prelude.Numbers.{atoi}

pub record Entry : Type 0 where
  pub name : String
  -- The labels of the stored config; `none` is the nil config.
  pub labels : Option (String → String)

abbrev pub label_command : String
label_command = "cmdman.compose.command"

abbrev pub label_file : String
label_file = "cmdman.compose.file"

abbrev pub label_config_hash : String
label_config_hash = "cmdman.compose.config-hash"

abbrev pub label_scale_index : String
label_scale_index = "cmdman.compose.scale-index"

abbrev pub label_scale : String
label_scale = "cmdman.compose.scale"

unfoldable pub command_name_of : Entry → String
command_name_of e = elim e.labels [ none ↦ "" | some labels ↦ labels label_command ]

unfoldable pub scale_label_value : String → ℤ
scale_label_value v = elim (atoi v) [ none ↦ pos 0 | some n ↦ n ]

-- The index and the count.
unfoldable pub scale_of : (String → String) → ℤ × ℤ
unfolding scale_label_value
scale_of labels =
    (scale_label_value (labels label_scale_index), scale_label_value (labels label_scale))

unfoldable pub scale_index_of : Entry → ℤ
unfolding scale_of
scale_index_of e = elim e.labels [ none ↦ pos 0 | some labels ↦ (scale_of labels).0 ]
