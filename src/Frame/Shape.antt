-- ===== src/Frame/Shape.antt =====
-- cmdman/frame/carve.go: the tree that is carved has the shape that pkg/muxctl/validate.go wants.
use text.Mathlib.TextLemmas.{append-eq-nil_iff}
use cmdman.Prelude.{
  ℕ, suc, ◌≡◌, refl, subst, inl, inr, true, false, List, [], ◌∷◌, some, none, Bool-cases, arith,
}
use cmdman.Prelude.Text.{String, str_eq, str_eq_iff}
use cmdman.Prelude.Digits.{itoa}
use cmdman.Prelude.Results.{Result, ok, err, >>=-ok}
use cmdman.MuxCtl.Spec.{PaneSpec, is_empty}
use cmdman.MuxCtl.Validate.Accepted.{has_shape, have_shape}
use cmdman.Frame.{
  Entry, Edge, edge_top, edge_bottom, edge_left, edge_right, FrameError, ComponentArgv,
  entry_pane_name, entry_argv, entry_pane, around, in_entry_of, carve,
}

entry_pane_name-named : (i : ℕ) → str_eq (entry_pane_name i) "" ≡ false
unfolding entry_pane_name
entry_pane_name-named i = elim (Bool-cases (str_eq (entry_pane_name i) "")) [
  | inr q ↦ q
  | inl q ↦
      let empty : ◌≡◌ {A = String} "frame-" "" =
        ((append-eq-nil_iff {p = "frame-"} {q = itoa i}).0
          ((str_eq_iff (entry_pane_name i) "").0 q)).0 in
      let no : str_eq "frame-" "" ≡ true = (str_eq_iff "frame-" "").1 empty in cc
]

-- An argv that is answered is not empty.
pub entry_argv-some :
    (entry : Entry) (component : ComponentArgv) (argv : List String)
    → entry_argv entry component ≡ ok argv
    → is_empty argv ≡ false
unfolding entry_argv
entry_argv-some entry none argv h = ground (arith, h)
entry_argv-some entry (some resolve) argv h = by_answer (resolve entry.component) refl
  where
    by_answer :
        (r : Result String (List String)) → resolve entry.component ≡ r → is_empty argv ≡ false
    by_answer (err e) q = ground (arith, h, q)
    by_answer (ok found) q = ground (arith, h, q)

has_shape-entry_pane :
    (i : ℕ) (argv : List String) → is_empty argv ≡ false → has_shape (entry_pane i argv) ≡ true
unfolding has_shape
has_shape-entry_pane i argv h = ground (arith, h, entry_pane_name-named i)

pub plain_argv :
    (i : ℕ) (r : Result FrameError (List String)) {argv : List String}
    → in_entry_of i r ≡ ok argv
    → r ≡ ok argv
plain_argv i (err x) q = cc
plain_argv i (ok x) q = q

has_shape-around :
    (entry : Entry) (p rest : PaneSpec)
    → has_shape p ≡ true
    → has_shape rest ≡ true
    → has_shape (around entry p rest) ≡ true
unfolding has_shape have_shape
has_shape-around entry p rest h k = by_edge entry.edge refl
  where
    by_edge : (e : Edge) → entry.edge ≡ e → has_shape (around entry p rest) ≡ true
    by_edge edge_top q = rw (q, h, k) refl
    by_edge edge_bottom q = rw (q, h, k) refl
    by_edge edge_left q = rw (q, h, k) refl
    by_edge edge_right q = rw (q, h, k) refl

-- What is carved from a tree of an accepted shape has an accepted shape: each pane is a named leaf or a
-- container with a direction, children and as many sizes.
pub has_shape-carve :
    (entries : List Entry) (i : ℕ) (main : PaneSpec) (component : ComponentArgv) (p : PaneSpec)
    → has_shape main ≡ true
    → carve entries i main component ≡ ok p
    → has_shape p ≡ true
unfolding carve
has_shape-carve [] i main component p m h = let same : main ≡ p = ground (arith, h) in rw (← same) m
has_shape-carve (entry ∷ entries) i main component p m h =
    let (argv, q, h1) = >>=-ok (in_entry_of i (entry_argv entry component)) _ h in
    let (rest, r, e) = >>=-ok (carve entries (suc i) main component) _ h1 in
    let answered : entry_argv entry component ≡ ok argv =
      plain_argv i (entry_argv entry component) q in
    let same : around entry (entry_pane i argv) rest ≡ p = ground (arith, e) in
    subst (λ x. has_shape x ≡ true) same
      (has_shape-around entry (entry_pane i argv) rest
        (has_shape-entry_pane i argv (entry_argv-some entry component argv answered))
        (has_shape-carve entries (suc i) main component rest m r))
