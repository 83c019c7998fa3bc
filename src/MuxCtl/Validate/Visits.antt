-- ===== src/MuxCtl/Validate/Visits.antt =====
-- pkg/muxctl/validate.go: the walk over the leaves with its set of names, as a visit of each leaf in turn.
use cmdman.Prelude.{
  ℕ, suc, ◌+◌, ◌≡◌, refl, sym, ap, ◌∙◌, inl, inr, Bool, true, false, not, ◌&&◌, List, [], ◌∷◌, ◌++◌,
  if◌then◌else◌, leb, ltb, Bool-cases, arith,
}
use cmdman.Prelude.Text.{String, str_eq_iff, contains}
use cmdman.Prelude.Results.{Result, ok, err, ◌>>=◌}
use cmdman.MuxCtl.Spec.{PaneSpec, pane, Panes, no_panes, more_panes, is_leaf}
use cmdman.MuxCtl.Focus.Leaves.{Leaf, leaves, all_leaves}
use cmdman.MuxCtl.Validate.{SpecError, Seen, visit_leaf, walk_leaves, walk_leaf_panes}

abbrev pub accepts {ℓ} : {A : Type ℓ} → Result SpecError A → Bool
accepts (ok a) = true
accepts (err e) = false

abbrev pub distinct : List String → Bool
distinct [] = true
distinct (x ∷ xs) = not (contains xs x) && distinct xs

abbrev pub leaf_names : List Leaf → List String
leaf_names [] = []
leaf_names (l ∷ ls) = l.name ∷ leaf_names ls

abbrev pub count_focus : List Leaf → ℕ
count_focus [] = 0
count_focus (l ∷ ls) = let rest = count_focus ls in if l.focus then suc rest else rest

-- Visiting leaves one after the other.
pub visit_all : List Leaf → Seen → Result SpecError Seen
visit_all [] s = ok s
visit_all (l ∷ ls) s = visit_leaf l.name l.focus s >>= visit_all ls

-- The same first step, and then the same.
bind_ext :
    (r : Result SpecError Seen) (f g : Seen → Result SpecError Seen)
    → ((t : Seen) → f t ≡ g t)
    → (r >>= f) ≡ (r >>= g)
bind_ext (err e) f g h = refl
bind_ext (ok t) f g h = h t

bind_assoc :
    (r : Result SpecError Seen) (f g : Seen → Result SpecError Seen)
    → (r >>= f >>= g) ≡ (r >>= λ t. f t >>= g)
bind_assoc (err e) f g = refl
bind_assoc (ok t) f g = refl

bind-ok : (r : Result SpecError Seen) → r ≡ (r >>= ok)
bind-ok (err e) = refl
bind-ok (ok t) = refl

visit_all-append :
    (ls ms : List Leaf) (s : Seen) → visit_all (ls ++ ms) s ≡ (visit_all ls s >>= visit_all ms)
unfolding visit_all
visit_all-append [] ms s = refl
visit_all-append (l ∷ ls) ms s =
    bind_ext (visit_leaf l.name l.focus s) _ _ (visit_all-append ls ms)
    ∙ sym (bind_assoc (visit_leaf l.name l.focus s) (visit_all ls) (visit_all ms))

mutual
  unfolding walk_leaves walk_leaf_panes leaves all_leaves visit_all

  pub walk_leaves-visit_all : (p : PaneSpec) (s : Seen) → walk_leaves p s ≡ visit_all (leaves p) s
  walk_leaves-visit_all (pane dir splits panes name cmd focus) s =
      elim (Bool-cases (is_leaf dir splits panes cmd)) [
        | inl l ↦ rw l (bind-ok (visit_leaf name focus s))
        | inr l ↦ rw l (walk_leaf_panes-visit_all panes s)
      ]

  walk_leaf_panes-visit_all :
      (ps : Panes) (s : Seen) → walk_leaf_panes ps s ≡ visit_all (all_leaves ps) s
  walk_leaf_panes-visit_all no_panes s = refl
  walk_leaf_panes-visit_all (more_panes p ps) s =
      ap (λ (r : Result SpecError Seen). r >>= walk_leaf_panes ps) (walk_leaves-visit_all p s)
      ∙ bind_ext (visit_all (leaves p) s) _ _ (walk_leaf_panes-visit_all ps)
      ∙ sym (visit_all-append (leaves p) (all_leaves ps) s)

-- No leaf has one of the names.
abbrev pub unclaimed : List String → List Leaf → Bool
unclaimed names [] = true
unclaimed names (l ∷ ls) = not (contains names l.name) && unclaimed names ls

pub unclaimed_cons :
    (name : String) (names : List String) (ls : List Leaf)
    → unclaimed (name ∷ names) ls ≡ (unclaimed names ls && not (contains (leaf_names ls) name))
unclaimed_cons name names [] = refl
unclaimed_cons name names (l ∷ ls) =
    ground (arith, unclaimed_cons name names ls, str_eq_iff l.name name, str_eq_iff name l.name)

pub accepts-visit_all :
    (ls : List Leaf) (s : Seen)
    → ltb s.focus 2 ≡ true
    → accepts (visit_all ls s)
      ≡ (unclaimed s.names ls && distinct (leaf_names ls) && leb (s.focus + count_focus ls) 1)
unfolding visit_all
accepts-visit_all [] s h = ground (arith, h)
accepts-visit_all (l ∷ ls) s h = ground (
  arith,
  h,
  unclaimed_cons l.name s.names ls,
  accepts-visit_all ls (record { names = l.name ∷ s.names; focus = s.focus }),
  accepts-visit_all ls (record { names = l.name ∷ s.names; focus = suc s.focus }),
)
