-- ===== src/MuxCtl/Validate/Accepted.antt =====
-- pkg/muxctl/validate.go: which specs are accepted.
use cmdman.Prelude.{
  ℕ, suc, ◌≡◌, refl, ap, ap₂, ◌∙◌, inl, inr, Bool, true, not, ◌&&◌, ◌||◌, List, [], ◌∷◌, ◌==◌, leb,
  length, Bool-cases, arith,
}
use cmdman.Prelude.Text.{String, str_eq, str_eq_iff, contains}
use cmdman.Prelude.Results.{Result, ok, err}
use cmdman.MuxCtl.Spec.{PaneSpec, pane, Panes, no_panes, more_panes, empty_panes, is_empty, is_leaf}
use cmdman.MuxCtl.Focus.Leaves.{Leaf, leaves}
use cmdman.MuxCtl.Validate.{
  Layout, SpecError, in_pane, count_panes, validate_shape, validate_panes, walk_leaves, placed,
  validate_layouts, validate,
}
use cmdman.MuxCtl.Validate.Visits.{
  accepts, distinct, leaf_names, count_focus, unclaimed, walk_leaves-visit_all, accepts-visit_all,
}

-- A leaf with a name, or a container with a direction, children and a size for each of them.
unfoldable mutual
  pub has_shape : PaneSpec → Bool
  has_shape (pane dir splits panes name cmd focus) =
      (is_leaf dir splits panes cmd && not (str_eq name ""))
      || (is_empty cmd
          && (str_eq dir "h" || str_eq dir "v")
          && not (empty_panes panes)
          && length splits == count_panes panes
          && have_shape panes)

  pub have_shape : Panes → Bool
  have_shape no_panes = true
  have_shape (more_panes p ps) = has_shape p && have_shape ps

mutual
  unfolding validate_shape validate_panes has_shape have_shape

  accepts-validate_shape : (p : PaneSpec) → accepts (validate_shape p) ≡ has_shape p
  accepts-validate_shape (pane dir splits panes name cmd focus) =
      ground (arith, accepts-validate_panes 0 panes)

  accepts-validate_panes : (i : ℕ) (ps : Panes) → accepts (validate_panes i ps) ≡ have_shape ps
  accepts-validate_panes i no_panes = refl
  accepts-validate_panes i (more_panes p ps) =
      both (validate_shape p) (accepts-validate_shape p)
      ∙ ap (λ b. has_shape p && b) (accepts-validate_panes (suc i) ps)
    where
      both :
          (r : Result SpecError (Unit {0}))
          → accepts r ≡ has_shape p
          → accepts (elim r [ err e ↦ err (in_pane i e) | ok _ ↦ validate_panes (suc i) ps ])
            ≡ (has_shape p && accepts (validate_panes (suc i) ps))
      both (err e) h = rw (← h) refl
      both (ok a) h = rw (← h) refl

-- What a layout has to have by itself.
abbrev pub is_acceptable : Layout → Bool
is_acceptable l =
    not (str_eq l.name "")
    && has_shape l.root
    && distinct (leaf_names (leaves l.root))
    && leb (count_focus (leaves l.root)) 1

abbrev pub all_acceptable : List Layout → Bool
all_acceptable [] = true
all_acceptable (l ∷ ls) = is_acceptable l && all_acceptable ls

abbrev pub layout_names : List Layout → List String
layout_names [] = []
layout_names (l ∷ ls) = l.name ∷ layout_names ls

abbrev unseen : List String → List Layout → Bool
unseen seen [] = true
unseen seen (l ∷ ls) = not (contains seen l.name) && unseen seen ls

unseen_cons :
    (name : String) (seen : List String) (ls : List Layout)
    → unseen (name ∷ seen) ls ≡ (unseen seen ls && not (contains (layout_names ls) name))
unseen_cons name seen [] = refl
unseen_cons name seen (l ∷ ls) =
    ground (arith, unseen_cons name seen ls, str_eq_iff l.name name, str_eq_iff name l.name)

-- A step that must succeed before the rest.
accepts-after {ℓ} :
    {A : Type ℓ} (i : ℕ) (r : Result SpecError A) (rest : Result SpecError (Unit {0}))
    → accepts (elim (placed i r) [ err e ↦ err e | ok _ ↦ rest ]) ≡ (accepts r && accepts rest)
accepts-after i (err e) rest = refl
accepts-after i (ok a) rest = refl

no_leaf_seen : (ls : List Leaf) → unclaimed [] ls ≡ true
no_leaf_seen [] = refl
no_leaf_seen (l ∷ ls) = no_leaf_seen ls

accepts-leaves :
    (p : PaneSpec)
    → accepts (walk_leaves p (record { names = []; focus = 0 }))
      ≡ (distinct (leaf_names (leaves p)) && leb (count_focus (leaves p)) 1)
accepts-leaves p =
    ap accepts (walk_leaves-visit_all p (record { names = []; focus = 0 }))
    ∙ ground (
      arith,
      accepts-visit_all (leaves p) (record { names = []; focus = 0 }) refl,
      no_leaf_seen (leaves p),
    )

accepts-validate_layouts :
    (i : ℕ) (seen : List String) (ls : List Layout)
    → accepts (validate_layouts i seen ls)
      ≡ (unseen seen ls && distinct (layout_names ls) && all_acceptable ls)
unfolding validate_layouts
accepts-validate_layouts i seen [] = refl
accepts-validate_layouts i seen (l ∷ ls) = elim (Bool-cases (str_eq l.name "")) [
  | inl q ↦ rw q (ground arith)
  | inr q ↦ elim (Bool-cases (contains seen l.name)) [
    | inl c ↦ rw (q, c) (ground arith)
    | inr c ↦
        rw (q, c)
          (accepts-after i (validate_shape l.root) _
            ∙ ap₂ (λ (a b : Bool). a && b) (accepts-validate_shape l.root)
                (accepts-after i (walk_leaves l.root (record { names = []; focus = 0 })) _
                  ∙ ap₂ (λ (a b : Bool). a && b) (accepts-leaves l.root)
                      (accepts-validate_layouts (suc i) (l.name ∷ seen) ls
                        ∙ ap (λ b. b && distinct (layout_names ls) && all_acceptable ls)
                            (unseen_cons l.name seen ls)))
            ∙ ground arith)
  ]
]

no_layout_seen : (ls : List Layout) → unseen [] ls ≡ true
no_layout_seen [] = refl
no_layout_seen (l ∷ ls) = no_layout_seen ls

-- A spec is accepted exactly when its layouts have different names and each layout has a name, a tree
-- in which every pane is a named leaf or a container with a direction, children and as many sizes, no
-- two leaves of one name, and at most one leaf that asks for the focus.
pub accepts-validate :
    (layouts : List Layout)
    → accepts (validate layouts) ≡ (distinct (layout_names layouts) && all_acceptable layouts)
unfolding validate
accepts-validate layouts =
    accepts-validate_layouts 0 [] layouts
    ∙ ap (λ b. b && distinct (layout_names layouts) && all_acceptable layouts)
        (no_layout_seen layouts)
