-- ===== src/Compose/Graph/Degrees.antt =====
-- cmdman/compose/graph.go: what the first loops put into the two maps.
use mathlib.Core.List.{Memᴰ}
use native.Mathlib.Nat.{add_assoc}
use cmdman.Prelude.{
  ℕ, suc, ◌+◌, ◌≡◌, refl, ap, ◌∙◌, inl, inr, true, false, ◌&&◌, List, [], ◌∷◌, ◌++◌, arith,
  if◌then◌else◌, length, Bool-cases,
}
use cmdman.Prelude.Text.{String, str_eq, str_eq_iff, str_eq_self, contains, Distinct, update}
use cmdman.Prelude.Results.{ok, >>=-ok}
use cmdman.Compose.Spec.{AfterSpec, Command}
use cmdman.Prelude.Int.{pos, increment}
use cmdman.Compose.Graph.{names, Links, link_dep, link_deps, link_all, no_links}

-- How often a name stands in a list.
abbrev pub count : String → List String → ℕ
count s [] = 0
count s (x ∷ xs) = let rest = count s xs in if str_eq x s then suc rest else rest

-- How many of the dependencies name `d`.
abbrev pub count_deps : String → List AfterSpec → ℕ
count_deps d [] = 0
count_deps d (dep ∷ deps) =
    let rest = count_deps d deps in if str_eq dep.name d then suc rest else rest

count-append : (s : String) (xs ys : List String) → count s (xs ++ ys) ≡ count s xs + count s ys
count-append s [] ys = omega arith
count-append s (x ∷ xs) ys = ground (arith, count-append s xs ys)

-- All dependencies name commands.
abbrev pub AllKnown : List String → List AfterSpec → Type 0
AllKnown name_set [] = Unit {0}
AllKnown name_set (d ∷ deps) = (contains name_set d.name ≡ true) × AllKnown name_set deps

-- What one command adds to the maps.
record Linked (name_set : List String) (name : String) (deps : List AfterSpec) (l l' : Links)
    : Type 0 where
  degrees :
      (j : String) (n : ℕ)
      → l.in_degree j ≡ pos n
      → l'.in_degree j ≡ pos (n + (if str_eq name j then length deps else 0))
  users :
      (d j : String)
      → count j (l'.dependents d)
        ≡ count j (l.dependents d) + (if str_eq name j then count_deps d deps else 0)
  known : AllKnown name_set deps

-- One turn of the inner loop.
abbrev linked_once : String → AfterSpec → Links → Links
linked_once name dep l = record {
  in_degree = update l.in_degree name (increment (l.in_degree name));
  dependents = update l.dependents dep.name (l.dependents dep.name ++ (name ∷ []));
}

degree_once :
    (name : String) (dep : AfterSpec) (l : Links) (j : String) (n : ℕ)
    → l.in_degree j ≡ pos n
    → (linked_once name dep l).in_degree j ≡ pos (if str_eq name j then suc n else n)
degree_once name dep l j n e = elim (Bool-cases (str_eq name j)) [
  | inl q ↦ rw ((str_eq_iff name j).0 q, str_eq_self j, e) refl
  | inr q ↦ rw (q, e) refl
]

users_once :
    (name : String) (dep : AfterSpec) (l : Links) (d j : String)
    → count j ((linked_once name dep l).dependents d)
      ≡ count j (l.dependents d) + (if str_eq dep.name d && str_eq name j then 1 else 0)
users_once name dep l d j = elim (Bool-cases (str_eq dep.name d)) [
  | inl q ↦
      rw ((str_eq_iff dep.name d).0 q, str_eq_self d, count-append j (l.dependents d) (name ∷ []))
        (ground arith)
  | inr q ↦ rw q (omega arith)
]

link_deps-Linked :
    (name_set : List String) (name : String) (deps : List AfterSpec) (l : Links) {l' : Links}
    → link_deps name_set name deps l ≡ ok l'
    → Linked name_set name deps l l'
unfolding link_deps link_dep
link_deps-Linked name_set name [] l h = record {
  degrees = λ j n e. ground arith;
  users = λ d j. ground arith;
  known = tt;
}
link_deps-Linked name_set name (dep ∷ deps) l {l'} h =
    elim (Bool-cases (contains name_set dep.name)) [
      | inl e ↦
          let r : Linked name_set name deps (linked_once name dep l) l' =
            link_deps-Linked name_set name deps (linked_once name dep l) (ground arith) in
          record {
            degrees = λ j n q. ground (
              arith,
              degree_once name dep l j n q,
              r.degrees j (if str_eq name j then suc n else n),
            );
            users = λ d j. ground (arith, users_once name dep l d j, r.users d j);
            known = (e, r.known);
          }
      | inr e ↦ ground arith
    ]

-- The same over all commands.
abbrev needs : List Command → String → ℕ
needs [] j = 0
needs (c ∷ cs) j = (if str_eq c.name j then length c.after else 0) + needs cs j

abbrev uses : List Command → String → String → ℕ
uses [] d j = 0
uses (c ∷ cs) d j = (if str_eq c.name j then count_deps d c.after else 0) + uses cs d j

abbrev AllLinked : List String → List Command → Type 0
AllLinked name_set [] = Unit {0}
AllLinked name_set (c ∷ cs) = AllKnown name_set c.after × AllLinked name_set cs

record Filled (name_set : List String) (cs : List Command) (l l' : Links) : Type 0 where
  degrees : (j : String) (n : ℕ) → l.in_degree j ≡ pos n → l'.in_degree j ≡ pos (n + needs cs j)
  users : (d j : String) → count j (l'.dependents d) ≡ count j (l.dependents d) + uses cs d j
  known : AllLinked name_set cs

link_all-Filled :
    (name_set : List String) (cs : List Command) (l : Links) {l' : Links}
    → link_all name_set cs l ≡ ok l'
    → Filled name_set cs l l'
unfolding link_all
link_all-Filled name_set [] l h = record {
  degrees = λ j n e. ground arith;
  users = λ d j. ground arith;
  known = tt;
}
link_all-Filled name_set (c ∷ cs) l {l'} h =
    let (l1, p, q) = >>=-ok (link_deps name_set c.name c.after l) (link_all name_set cs) h in
    let one : Linked name_set c.name c.after l l1 = link_deps-Linked name_set c.name c.after l p in
    let rest : Filled name_set cs l1 l' = link_all-Filled name_set cs l1 q in
    record {
      degrees = λ j n e.
          let first = if str_eq c.name j then length c.after else 0 in
          rest.degrees j (n + first) (one.degrees j n e) ∙ ap pos (add_assoc n first (needs cs j));
      users = λ d j. omega (arith, one.users d j, rest.users d j);
      known = (one.known, rest.known);
    }

needs-absent : (cs : List Command) (j : String) → contains (names cs) j ≡ false → needs cs j ≡ 0
needs-absent [] j h = omega arith
needs-absent (c ∷ cs) j h = ground (arith, needs-absent cs j)

uses-absent : (cs : List Command) (d j : String) → contains (names cs) j ≡ false → uses cs d j ≡ 0
uses-absent [] d j h = omega arith
uses-absent (c ∷ cs) d j h = ground (arith, uses-absent cs d j)

pub contains-name :
    (cs : List Command) (c : Command) → Memᴰ c cs → contains (names cs) c.name ≡ true
contains-name [] c m = elim m [ ]
contains-name (x ∷ cs) c (Memᴰ.head e) = rw (e, str_eq_self x.name) refl
contains-name (x ∷ cs) c (Memᴰ.tail m) = ground (arith, contains-name cs c m)

-- In a list with distinct names, a name belongs to one command.
other_name :
    (x : Command) (cs : List Command) (c : Command)
    → contains (names cs) x.name ≡ false
    → Memᴰ c cs
    → str_eq x.name c.name ≡ false
other_name x cs c h m = elim (Bool-cases (str_eq x.name c.name)) [
  | inr e ↦ e
  | inl e ↦
      let same : x.name ≡ c.name = (str_eq_iff x.name c.name).0 e in
      let here : contains (names cs) x.name ≡ true = rw same (contains-name cs c m) in cc
]

needs-mem :
    (cs : List Command) (c : Command)
    → Distinct (names cs)
    → Memᴰ c cs
    → needs cs c.name ≡ length c.after
needs-mem [] c h m = elim m [ ]
needs-mem (x ∷ cs) c h (Memᴰ.head e) =
    rw (e, str_eq_self x.name, needs-absent cs x.name h.0) (omega arith)
needs-mem (x ∷ cs) c h (Memᴰ.tail m) =
    rw (other_name x cs c h.0 m, needs-mem cs c h.1 m) (omega arith)

uses-mem :
    (cs : List Command) (d : String) (c : Command)
    → Distinct (names cs)
    → Memᴰ c cs
    → uses cs d c.name ≡ count_deps d c.after
uses-mem [] d c h m = elim m [ ]
uses-mem (x ∷ cs) d c h (Memᴰ.head e) =
    rw (e, str_eq_self x.name, uses-absent cs d x.name h.0) (omega arith)
uses-mem (x ∷ cs) d c h (Memᴰ.tail m) =
    rw (other_name x cs c h.0 m, uses-mem cs d c h.1 m) (omega arith)

known-mem :
    (name_set : List String) (cs : List Command) (c : Command)
    → AllLinked name_set cs
    → Memᴰ c cs
    → AllKnown name_set c.after
known-mem name_set [] c h m = elim m [ ]
known-mem name_set (x ∷ cs) c h (Memᴰ.head e) = rw e h.0
known-mem name_set (x ∷ cs) c h (Memᴰ.tail m) = known-mem name_set cs c h.1 m

-- The maps after the first loops: in-degrees count dependencies, dependents list users as often as
-- they depend, and every dependency names a command.
pub record AreLinks (commands : List Command) (l : Links) : Type 0 where
  pub degrees : (c : Command) → Memᴰ c commands → l.in_degree c.name ≡ pos (length c.after)
  pub users :
      (d : String) (c : Command)
      → Memᴰ c commands
      → count c.name (l.dependents d) ≡ count_deps d c.after
  pub known : (c : Command) → Memᴰ c commands → AllKnown (names commands) c.after

pub link_all-AreLinks :
    (commands : List Command) {l : Links}
    → Distinct (names commands)
    → link_all (names commands) commands no_links ≡ ok l
    → AreLinks commands l
link_all-AreLinks commands {l} distinct h =
    let f : Filled (names commands) commands no_links l =
      link_all-Filled (names commands) commands no_links h in
    record {
      degrees =
          λ c m. f.degrees c.name 0 refl ∙ ap pos (omega (arith, needs-mem commands c distinct m));
      users = λ d c m. omega (arith, f.users d c.name, uses-mem commands d c distinct m);
      known = λ c m. known-mem (names commands) commands c f.known m;
    }
