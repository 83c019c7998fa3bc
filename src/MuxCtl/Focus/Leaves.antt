-- ===== src/MuxCtl/Focus/Leaves.antt =====
-- pkg/muxctl/layout.go: the focus and the names, said of the list of leaves.
use mathlib.Core.List.{map-append}
use cmdman.Prelude.{
  ◌≡◌, refl, sym, ap, ◌∙◌, inl, inr, Bool, true, false, not, ◌&&◌, List, [], ◌∷◌, ◌++◌,
  append_assoc, append-nil, map, if◌then◌else◌, Bool-cases, arith,
}
use cmdman.Prelude.Text.{String, str_eq, str_eq_iff}
use cmdman.MuxCtl.Spec.{PaneSpec, pane, Panes, no_panes, more_panes, is_leaf}
use cmdman.MuxCtl.Focus.{
  Found, at_leaf, walk, walk_panes, pick_focus, append_leaf_names, append_all,
}

pub record Leaf : Type 0 where
  pub name : String
  pub focus : Bool

unfoldable mutual
  pub leaves : PaneSpec → List Leaf
  leaves (pane dir splits panes name cmd focus) =
      let inside = all_leaves panes in
      if is_leaf dir splits panes cmd then record { name = name; focus = focus } ∷ [] else inside

  pub all_leaves : Panes → List Leaf
  all_leaves no_panes = []
  all_leaves (more_panes p ps) = leaves p ++ all_leaves ps

-- Looking through leaves until a focus is found.
abbrev scan : List Leaf → Found → Found
scan [] f = f
scan (l ∷ ls) f =
    let later = scan ls (at_leaf l.name l.focus f) in if str_eq f.focused "" then later else f

scan-done : (ls : List Leaf) (f : Found) → str_eq f.focused "" ≡ false → scan ls f ≡ f
scan-done [] f h = refl
scan-done (l ∷ ls) f h = rw h refl

scan-append : (ls ms : List Leaf) (f : Found) → scan (ls ++ ms) f ≡ scan ms (scan ls f)
scan-append [] ms f = refl
scan-append (l ∷ ls) ms f = elim (Bool-cases (str_eq f.focused "")) [
  | inl q ↦ rw q (scan-append ls ms (at_leaf l.name l.focus f))
  | inr q ↦ rw q (sym (scan-done ms f q))
]

mutual
  unfolding walk walk_panes leaves all_leaves

  walk-scan : (p : PaneSpec) (f : Found) → walk p f ≡ scan (leaves p) f
  walk-scan (pane dir splits panes name cmd focus) f = elim (Bool-cases (str_eq f.focused "")) [
    | inr q ↦ rw q (sym (scan-done (leaves (pane dir splits panes name cmd focus)) f q))
    | inl q ↦ elim (Bool-cases (is_leaf dir splits panes cmd)) [
      | inl l ↦ rw (q, l, q) refl
      | inr l ↦ rw (q, l) (walk_panes-scan panes f)
    ]
  ]

  walk_panes-scan : (ps : Panes) (f : Found) → walk_panes ps f ≡ scan (all_leaves ps) f
  walk_panes-scan no_panes f = refl
  walk_panes-scan (more_panes p ps) f = elim (Bool-cases (str_eq (scan (leaves p) f).focused "")) [
    | inr q ↦
        rw (walk-scan p f, q, scan-append (leaves p) (all_leaves ps) f)
          (sym (scan-done (all_leaves ps) (scan (leaves p) f) q))
    | inl q ↦
        rw (walk-scan p f, q, scan-append (leaves p) (all_leaves ps) f)
          (walk_panes-scan ps (scan (leaves p) f))
  ]

-- The first leaf that asks for the focus, and the first leaf, by name; leaves without a name do not
-- count.
abbrev pub first_focused : List Leaf → String
first_focused [] = ""
first_focused (l ∷ ls) =
    let later = first_focused ls in if l.focus && not (str_eq l.name "") then l.name else later

abbrev pub first_named : List Leaf → String
first_named [] = ""
first_named (l ∷ ls) =
    let later = first_named ls in if not (str_eq l.name "") then l.name else later

-- Nothing focused yet.
abbrev unfocused : String → Found
unfocused first = record { first = first; focused = "" }

abbrev first_of : String → String → String
first_of first name = if str_eq first "" then name else first

scan-pass :
    (l : Leaf) (ls : List Leaf) (first : String)
    → (l.focus && not (str_eq l.name "")) ≡ false
    → scan (l ∷ ls) (unfocused first) ≡ scan ls (unfocused (first_of first l.name))
scan-pass l ls first h = elim (Bool-cases l.focus) [
  | inl k ↦
      let unnamed : l.name ≡ "" = (str_eq_iff l.name "").0 (ground (arith, k, h)) in
      rw (k, unnamed) refl
  | inr k ↦ rw k refl
]

focused-scan :
    (ls : List Leaf) (first : String) → (scan ls (unfocused first)).focused ≡ first_focused ls
focused-scan [] first = refl
focused-scan (l ∷ ls) first = elim (Bool-cases (l.focus && not (str_eq l.name ""))) [
  | inr q ↦ rw (scan-pass l ls first q, q) (focused-scan ls (first_of first l.name))
  | inl q ↦
      let asks : l.focus ≡ true = ground (arith, q) in
      let named : str_eq l.name "" ≡ false = ground (arith, q) in
      rw q (
        ap (λ (g : Found). g.focused)
          (scan-done ls (at_leaf l.name l.focus (unfocused first)) (rw asks named))
        ∙ (rw asks refl))
]

first-scan :
    (ls : List Leaf) (first : String)
    → first_focused ls ≡ ""
    → (scan ls (unfocused first)).first ≡ first_of first (first_named ls)
first-scan [] first n = elim (Bool-cases (str_eq first "")) [
  | inl q ↦ rw q ((str_eq_iff first "").0 q)
  | inr q ↦ rw q refl
]
first-scan (l ∷ ls) first n = elim (Bool-cases (l.focus && not (str_eq l.name ""))) [
  | inl q ↦
      let unnamed : l.name ≡ "" = rw q at n in
      absurd (ground (arith, q, (str_eq_iff l.name "").1 unnamed))
  | inr q ↦
      ap (λ (g : Found). g.first) (scan-pass l ls first q)
      ∙ first-scan ls (first_of first l.name) (rw q at n)
      ∙ ground (arith, str_eq_iff l.name "", str_eq_iff first "")
]

-- `PickFocus` answers the name of the first leaf in document order that asks for the focus and, where
-- there is none, of the first leaf; leaves without a name do not count.
pub pick_focus-leaves :
    (root : PaneSpec)
    → pick_focus root ≡ (
        if not (str_eq (first_focused (leaves root)) "")
        then first_focused (leaves root)
        else first_named (leaves root))
unfolding pick_focus
pick_focus-leaves root = elim (Bool-cases (str_eq (first_focused (leaves root)) "")) [
  | inl q ↦
      let none_focused = (str_eq_iff (first_focused (leaves root)) "").0 q in
      rw (walk-scan root start, focused-scan (leaves root) "", q)
        (first-scan (leaves root) "" none_focused)
  | inr q ↦ rw (walk-scan root start, focused-scan (leaves root) "", q) refl
]
  where
    start : Found
    start = record { first = ""; focused = "" }

mutual
  unfolding append_leaf_names append_all leaves all_leaves

  names-append :
      (dst : List String) (p : PaneSpec)
      → append_leaf_names dst p ≡ dst ++ map (λ l. l.name) (leaves p)
  names-append dst (pane dir splits panes name cmd focus) =
      elim (Bool-cases (is_leaf dir splits panes cmd)) [
        | inl l ↦ rw l refl
        | inr l ↦ rw l (names-append_all dst panes)
      ]

  names-append_all :
      (dst : List String) (ps : Panes)
      → append_all dst ps ≡ dst ++ map (λ l. l.name) (all_leaves ps)
  names-append_all dst no_panes = sym (append-nil dst)
  names-append_all dst (more_panes p ps) =
      rw
        (
          names-append dst p,
          map-append (λ (l : Leaf). l.name) (leaves p) (all_leaves ps),
          ← append_assoc dst (map (λ l. l.name) (leaves p)) (map (λ l. l.name) (all_leaves ps)),
        )
        (names-append_all (dst ++ map (λ l. l.name) (leaves p)) ps)

-- `AppendLeafNames` appends the names of all leaves in document order, duplicates included.
pub append_leaf_names-leaves :
    (dst : List String) (root : PaneSpec)
    → append_leaf_names dst root ≡ dst ++ map (λ l. l.name) (leaves root)
append_leaf_names-leaves dst root = names-append dst root
