-- ===== src/Compose/Spec.antt =====
-- cmdman/compose/spec.go: the normalized command, with the fields that the modelled code reads.
use cmdman.Prelude.{ℕ, List}
use cmdman.Prelude.Text.{String}

pub data AfterCondition : Type 0 where
  completed running completed_successfully : AfterCondition

pub record AfterSpec : Type 0 where
  pub name : String
  pub condition : AfterCondition

pub record Command : Type 0 where
  pub name : String
  pub after : List AfterSpec
  pub scale : ℕ
  pub generated_name : String
