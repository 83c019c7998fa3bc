-- ===== src/Compose/Labels/RoundTrip.antt =====
-- cmdman/compose/plan.go: what is read back from the labels that `BuildLabels` writes.
use cmdman.Prelude.{ℕ, ◌<◌, ◌^◌, ◌≡◌, refl, ap, ap₂, ◌∙◌, List, [], ◌∷◌, max, false, arith}
use cmdman.Prelude.Text.{String, str_eq}
use cmdman.Prelude.Int.{ℤ, pos}
use cmdman.Prelude.Digits.{itoa, atoi-itoa}
use cmdman.Compose.Spec.{AfterSpec, Command}
use cmdman.Compose.Entry.{
  label_command, label_file, label_config_hash, label_scale_index, label_scale, scale_label_value,
  scale_of,
}
use cmdman.Compose.Labels.{ProjectSpec, put_list, build_labels, label_after, label_hooks}

put_list-other {ℓ} :
    {A : Type ℓ} (xs : List A) (marshal : List A → String) (key other : String)
    (labels : String → String)
    → str_eq key other ≡ false
    → put_list xs marshal key labels other ≡ labels other
put_list-other [] marshal key other labels h = refl
put_list-other (x ∷ xs) marshal key other labels h = rw h refl

scale_label_value-itoa : (n : ℕ) → n < 2 ^ 63 → scale_label_value (itoa n) ≡ pos n
unfolding scale_label_value
scale_label_value-itoa n h = rw (scale_label_value, atoi-itoa n h) refl

module _ {ℓ} {Hook : Type ℓ} (marshal_after : List AfterSpec → String)
    (marshal_hooks : List Hook → String) (spec : ProjectSpec) (cmd : Command)
    (labels : String → String) (hooks : List Hook) (config_hash : String) (scale_index : ℕ) where
  abbrev built : String → String
  built = build_labels marshal_after marshal_hooks spec cmd labels hooks config_hash scale_index

  -- A key that is neither that of the hooks nor that of the dependencies.
  built_at :
      (key value : String)
      → str_eq label_hooks key ≡ false
      → str_eq label_after key ≡ false
      → build_labels marshal_after marshal_hooks spec
          (record cmd { after = [] })
          labels
          []
          config_hash
          scale_index
          key
        ≡ value
      → built key ≡ value
  unfolding build_labels
  built_at key value h a q =
      put_list-other hooks marshal_hooks label_hooks key _ h
      ∙ put_list-other cmd.after marshal_after label_after key _ a
      ∙ q

  -- The identity of a replica is read back from the labels that are built for it, whatever labels the
  -- user gives: the name of its command, the config hash, the compose file, and by `ScaleOf` its index
  -- and the replica count, when both are below 2 ^ 63.
  pub scale_of-build_labels :
      scale_index < 2 ^ 63
      → cmd.scale < 2 ^ 63
      → (built label_command ≡ cmd.name)
        × (built label_config_hash ≡ config_hash)
        × (built label_file ≡ spec.compose_file)
        × (scale_of built ≡ (pos scale_index, pos (max cmd.scale 1)))
  unfolding scale_of build_labels
  scale_of-build_labels i s = (
    built_at label_command cmd.name refl refl refl,
    built_at label_config_hash config_hash refl refl refl,
    built_at label_file spec.compose_file refl refl refl,
    ap₂ (λ (m n : ℤ). (m, n))
        (ap scale_label_value (built_at label_scale_index (itoa scale_index) refl refl refl)
          ∙ scale_label_value-itoa scale_index i)
        (ap scale_label_value (built_at label_scale (itoa (max cmd.scale 1)) refl refl refl)
          ∙ scale_label_value-itoa (max cmd.scale 1) (omega (arith, s))),
  )
