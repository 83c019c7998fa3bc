-- ===== src/Mux/Cycle/Leaves.antt =====
-- cmdman/mux/cycle_scale.go and targets.go: the walks over the panes, said of the leaves.
use cmdman.Prelude.{
  ◌≡◌, inl, inr, refl, sym, ap, ◌∙◌, Bool, true, false, not, ◌&&◌, ◌||◌, List, [], ◌∷◌, Option,
  some, none, if◌then◌else◌, Bool-cases, arith,
}
use cmdman.Prelude.Int.{ℤ, is_zero}
use cmdman.Prelude.Text.{String, str_eq, str_eq_iff, contains, contains-sort}
use cmdman.Mux.Spec.{PaneSpec, pane, Panes, no_panes, more_panes, is_leaf}
use cmdman.Mux.Cycle.{
  find_unpinned_leaf, find_in_panes, any_unpinned, is_cycle_scale_target,
  collect_unpinned_leaf_commands, collect_unpinned_panes, collect_layouts, collect_cycle_targets,
}

abbrev is_found {ℓ} : {A : Type ℓ} → Option A → Bool
is_found none = false
is_found (some a) = true

is_found-or {ℓ} :
    {A : Type ℓ} (o p : Option A)
    → is_found (elim o [ none ↦ p | some a ↦ some a ]) ≡ (is_found o || is_found p)
is_found-or none p = refl
is_found-or (some a) p = refl

or_assoc : (a b c : Bool) → ((a || b) || c) ≡ (a || (b || c))
or_assoc true b c = refl
or_assoc false b c = refl

contains_at_leaf :
    (seen : List String) (command w : String) (scale : ℤ)
    → contains (if is_zero scale && not (contains seen command) then command ∷ seen else seen) w
      ≡ (contains seen w || (str_eq command w && is_zero scale))
contains_at_leaf seen command w scale = elim (Bool-cases (str_eq command w)) [
  | inl q ↦ rw ((str_eq_iff command w).0 q) (ground arith)
  | inr q ↦ ground (arith, q)
]

mutual
  unfolding find_unpinned_leaf find_in_panes collect_unpinned_leaf_commands collect_unpinned_panes

  contains-collect :
      (p : PaneSpec) (seen : List String) (w : String)
      → contains (collect_unpinned_leaf_commands p seen) w
        ≡ (contains seen w || is_found (find_unpinned_leaf w p))
  contains-collect (pane dir splits panes command scale) seen w =
      elim (Bool-cases (is_leaf dir splits panes command)) [
        | inl l ↦ rw l (contains_at_leaf seen command w scale ∙ ground arith)
        | inr l ↦ rw l (contains-collect_panes panes seen w)
      ]

  contains-collect_panes :
      (ps : Panes) (seen : List String) (w : String)
      → contains (collect_unpinned_panes ps seen) w
        ≡ (contains seen w || is_found (find_in_panes w ps))
  contains-collect_panes no_panes seen w = ground arith
  contains-collect_panes (more_panes p ps) seen w =
      contains-collect_panes ps (collect_unpinned_leaf_commands p seen) w
      ∙ ap (λ b. b || is_found (find_in_panes w ps)) (contains-collect p seen w)
      ∙ or_assoc (contains seen w) (is_found (find_unpinned_leaf w p))
          (is_found (find_in_panes w ps))
      ∙ ap (λ b. contains seen w || b)
          (sym (is_found-or (find_unpinned_leaf w p) (find_in_panes w ps)))

contains-layouts :
    (roots : List PaneSpec) (seen : List String) (w : String)
    → contains (collect_layouts roots seen) w ≡ (contains seen w || any_unpinned w roots)
contains-layouts [] seen w = ground arith
contains-layouts (root ∷ roots) seen w =
    contains-layouts roots (collect_unpinned_leaf_commands root seen) w
    ∙ ap (λ b. b || any_unpinned w roots) (contains-collect root seen w)
    ∙ or_assoc (contains seen w) (is_found (find_unpinned_leaf w root)) (any_unpinned w roots)
    ∙ ap (λ b. contains seen w || b) (any_or (find_unpinned_leaf w root))
  where
    any_or :
        (o : Option PaneSpec)
        → (is_found o || any_unpinned w roots)
          ≡ (elim o [ none ↦ any_unpinned w roots | some found ↦ true ])
    any_or none = refl
    any_or (some p) = refl

-- When replicas can be counted, a command can be cycled exactly when it is among the cycle targets
-- that are listed for the layouts.
pub contains-collect_cycle_targets :
    (roots : List PaneSpec) (command : String)
    → contains (collect_cycle_targets roots) command ≡ is_cycle_scale_target roots command true
unfolding collect_cycle_targets is_cycle_scale_target
contains-collect_cycle_targets roots command =
    contains-sort (collect_layouts roots []) command ∙ contains-layouts roots [] command
