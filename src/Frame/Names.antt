-- ===== src/Frame/Names.antt =====
-- cmdman/frame/carve.go: the names and the focus of the leaves in the tree that is carved.
use text.Mathlib.TextLemmas.{append_cancel_left}
use cmdman.Prelude.{
  ℕ, zero, suc, ◌+◌, ◌^◌, ◌<◌, ◌≤◌, ◌≡◌, refl, sym, ap, ap₂, subst, ◌∙◌, inl, inr, Bool, true,
  false, not, ◌&&◌, ◌||◌, List, [], ◌∷◌, ◌++◌, append-nil, Option, some, if◌then◌else◌, length,
  Bool-cases, arith,
}
use cmdman.Prelude.Int.{ℤ, pos}
use cmdman.Prelude.Numbers.{atoi}
use cmdman.Prelude.Digits.{itoa, atoi-itoa}
use cmdman.Prelude.Text.{String, str_eq, str_eq_iff, contains, contains-append}
use cmdman.Prelude.Results.{ok, >>=-ok}
use cmdman.MuxCtl.Spec.{PaneSpec, is_empty}
use cmdman.MuxCtl.Focus.Leaves.{Leaf, leaves, all_leaves}
use cmdman.MuxCtl.Validate.Visits.{distinct, leaf_names, count_focus}
use cmdman.MuxCtl.Validate.Accepted.{is_acceptable}
use cmdman.Frame.{
  Entry, Edge, edge_top, edge_bottom, edge_left, edge_right, trails, ComponentArgv, entry_pane_name,
  entry_argv, entry_pane, around, in_entry_of, carve,
}
use cmdman.Frame.Shape.{entry_argv-some, plain_argv, has_shape-carve}

pos_inj : (m n : ℕ) → ◌≡◌ {A = Option ℤ} (some (pos m)) (some (pos n)) → m ≡ n
pos_inj m n h = ground (arith, h)

entry_pane_name_inj :
    (i j : ℕ) → i < 2 ^ 63 → j < 2 ^ 63 → entry_pane_name i ≡ entry_pane_name j → i ≡ j
unfolding entry_pane_name
entry_pane_name_inj i j h k q = pos_inj i j (
    sym (atoi-itoa i h) ∙ ap atoi (append_cancel_left "frame-" (itoa i) (itoa j) q) ∙ atoi-itoa j k)

-- The name is that of an entry from `i` on, of `n` ones.
abbrev pub is_entry_name : ℕ → ℕ → String → Bool
is_entry_name i zero s = false
is_entry_name i (suc n) s = str_eq (entry_pane_name i) s || is_entry_name (suc i) n s

is_entry_name-earlier :
    (i j n : ℕ) → i < j → j + n ≤ 2 ^ 63 → is_entry_name j n (entry_pane_name i) ≡ false
is_entry_name-earlier i j zero h k = refl
is_entry_name-earlier i j (suc n) h k =
    elim (Bool-cases (str_eq (entry_pane_name j) (entry_pane_name i))) [
      | inr q ↦ rw q (is_entry_name-earlier i (suc j) n (omega (arith, h)) (omega (arith, k)))
      | inl q ↦
          let same : j ≡ i =
            entry_pane_name_inj j i (omega (arith, k)) (omega (arith, h, k))
              ((str_eq_iff (entry_pane_name j) (entry_pane_name i)).0 q) in
          absurd (omega (arith, same, h))
    ]

leaf_names-append : (ls ms : List Leaf) → leaf_names (ls ++ ms) ≡ leaf_names ls ++ leaf_names ms
leaf_names-append [] ms = refl
leaf_names-append (l ∷ ls) ms = ap (λ (r : List String). l.name ∷ r) (leaf_names-append ls ms)

count_focus-append : (ls ms : List Leaf) → count_focus (ls ++ ms) ≡ count_focus ls + count_focus ms
count_focus-append [] ms = omega arith
count_focus-append (l ∷ ls) ms = ground (arith, count_focus-append ls ms)

distinct_last :
    (xs : List String) (x : String)
    → distinct (xs ++ (x ∷ [])) ≡ (distinct xs && not (contains xs x))
distinct_last [] x = refl
distinct_last (y ∷ xs) x =
    ground
      (arith, distinct_last xs x, contains-append xs (x ∷ []) y, str_eq_iff x y, str_eq_iff y x)

-- The leaf of an entry, in front of or behind the leaves of the rest.
abbrev entry_leaf : ℕ → Leaf
entry_leaf i = record { name = entry_pane_name i; focus = false }

leaves-around :
    (entry : Entry) (i : ℕ) (argv : List String) (rest : PaneSpec)
    → is_empty argv ≡ false
    → leaves (around entry (entry_pane i argv) rest) ≡ (
        if trails entry.edge
        then leaves rest ++ (entry_leaf i ∷ [])
        else entry_leaf i ∷ leaves rest)
unfolding leaves all_leaves
leaves-around entry i argv rest h = by_edge entry.edge refl
  where
    by_edge :
        (e : Edge)
        → entry.edge ≡ e
        → leaves (around entry (entry_pane i argv) rest) ≡ (
            if trails entry.edge
            then leaves rest ++ (entry_leaf i ∷ [])
            else entry_leaf i ∷ leaves rest)
    by_edge edge_top q = rw (q, h, append-nil (leaves rest)) refl
    by_edge edge_bottom q = rw (q, h) refl
    by_edge edge_left q = rw (q, h, append-nil (leaves rest)) refl
    by_edge edge_right q = rw (q, h) refl

-- What the leaves of a carved tree are to those of the main one.
record IsCarved (i n : ℕ) (main p : PaneSpec) : Type 0 where
  named :
      (s : String)
      → contains (leaf_names (leaves p)) s
        ≡ (is_entry_name i n s || contains (leaf_names (leaves main)) s)
  apart : distinct (leaf_names (leaves main)) ≡ true → distinct (leaf_names (leaves p)) ≡ true
  focused : count_focus (leaves p) ≡ count_focus (leaves main)

around-IsCarved :
    (entry : Entry) (i n : ℕ) (argv : List String) (main rest : PaneSpec)
    → is_empty argv ≡ false
    → contains (leaf_names (leaves main)) (entry_pane_name i) ≡ false
    → suc i + n ≤ 2 ^ 63
    → IsCarved (suc i) n main rest
    → IsCarved i (suc n) main (around entry (entry_pane i argv) rest)
around-IsCarved entry i n argv main rest a free k c = elim (Bool-cases (trails entry.edge)) [
  | inl q ↦
      carved (leaves rest ++ (entry_leaf i ∷ [])) (leaves-around entry i argv rest a ∙ rw q refl)
        (λ s.
          ap (λ (xs : List String). contains xs s)
            (leaf_names-append (leaves rest) (entry_leaf i ∷ []))
          ∙ contains-append (leaf_names (leaves rest)) (entry_pane_name i ∷ []) s
          ∙ ground (arith, c.named s))
        (λ d.
          ap distinct (leaf_names-append (leaves rest) (entry_leaf i ∷ []))
          ∙ distinct_last (leaf_names (leaves rest)) (entry_pane_name i)
          ∙ ground (arith, c.apart d, unused))
        (count_focus-append (leaves rest) (entry_leaf i ∷ []) ∙ omega (arith, c.focused))
  | inr q ↦
      carved (entry_leaf i ∷ leaves rest) (leaves-around entry i argv rest a ∙ rw q refl)
        (λ s. ground (arith, c.named s)) (λ d. ground (arith, c.apart d, unused)) c.focused
]
  where
    unused : contains (leaf_names (leaves rest)) (entry_pane_name i) ≡ false
    unused =
        c.named (entry_pane_name i)
        ∙ ap₂ (λ (x y : Bool). x || y) (is_entry_name-earlier i (suc i) n (omega arith) k) free

    carved :
        (ls : List Leaf)
        → leaves (around entry (entry_pane i argv) rest) ≡ ls
        → ((s : String)
            → contains (leaf_names ls) s
              ≡ (is_entry_name i (suc n) s || contains (leaf_names (leaves main)) s))
        → (distinct (leaf_names (leaves main)) ≡ true → distinct (leaf_names ls) ≡ true)
        → count_focus ls ≡ count_focus (leaves main)
        → IsCarved i (suc n) main (around entry (entry_pane i argv) rest)
    carved ls e named apart focused = record {
      named = λ s. ap (λ (l : List Leaf). contains (leaf_names l) s) e ∙ named s;
      apart = λ d. ap (λ (l : List Leaf). distinct (leaf_names l)) e ∙ apart d;
      focused = ap count_focus e ∙ focused;
    }

carve-IsCarved :
    (entries : List Entry) (i : ℕ) (main : PaneSpec) (component : ComponentArgv) (p : PaneSpec)
    → ((k : ℕ) → contains (leaf_names (leaves main)) (entry_pane_name k) ≡ false)
    → i + length entries ≤ 2 ^ 63
    → carve entries i main component ≡ ok p
    → IsCarved i (length entries) main p
unfolding carve
carve-IsCarved [] i main component p free k h =
    let same : main ≡ p = ground (arith, h) in
    subst (λ x. IsCarved i 0 main x) same
      (record { named = λ s. refl; apart = λ d. d; focused = refl })
carve-IsCarved (entry ∷ entries) i main component p free k h =
    let (argv, q, h1) = >>=-ok (in_entry_of i (entry_argv entry component)) _ h in
    let (rest, r, e) = >>=-ok (carve entries (suc i) main component) _ h1 in
    let same : around entry (entry_pane i argv) rest ≡ p = ground (arith, e) in
    subst (λ x. IsCarved i (suc (length entries)) main x) same
      (around-IsCarved entry i (length entries) argv main rest
        (entry_argv-some entry component argv (plain_argv i (entry_argv entry component) q))
        (free i) (omega (arith, k))
        (carve-IsCarved entries (suc i) main component rest free (omega (arith, k)) r))

-- Every entry has an argv.
abbrev pub AllAnswered : List Entry → ComponentArgv → Type 0
AllAnswered [] component = Unit {0}
AllAnswered (entry ∷ entries) component =
    ((argv : List String) × (entry_argv entry component ≡ ok argv)) × AllAnswered entries component

carve_total :
    (entries : List Entry) (i : ℕ) (main : PaneSpec) (component : ComponentArgv)
    → AllAnswered entries component
    → (p : PaneSpec) × (carve entries i main component ≡ ok p)
unfolding carve
carve_total [] i main component a = (main, refl)
carve_total (entry ∷ entries) i main component ((argv, q), a) =
    let (rest, r) = carve_total entries (suc i) main component a in
    (around entry (entry_pane i argv) rest, rw (q, r) refl)

-- When every entry has an argv, a frame around the tree of an acceptable layout is carved, and with the
-- carved tree the layout still is acceptable: its name, the shape of the panes, the names of the leaves
-- and the focus pass the validation. No leaf of the main tree has the name of an entry's pane, and there
-- are at most 2 ^ 63 entries.
pub carve-is_acceptable :
    (entries : List Entry) (name : String) (main : PaneSpec) (component : ComponentArgv)
    → AllAnswered entries component
    → is_acceptable (record { name = name; root = main }) ≡ true
    → ((k : ℕ) → contains (leaf_names (leaves main)) (entry_pane_name k) ≡ false)
    → length entries ≤ 2 ^ 63
    → (p : PaneSpec) × (carve entries 0 main component ≡ ok p)
      × (is_acceptable (record { name = name; root = p }) ≡ true)
carve-is_acceptable entries name main component a m free k =
    let (p, h) = carve_total entries 0 main component a in
    let c = carve-IsCarved entries 0 main component p free (omega (arith, k)) h in
    let shaped = has_shape-carve entries 0 main component p (ground (arith, m)) h in
    let apart = c.apart (ground (arith, m)) in
    (p, h, rw (shaped, apart, c.focused) (ground (arith, m)))
