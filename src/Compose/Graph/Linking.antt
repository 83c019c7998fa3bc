-- ===== src/Compose/Graph/Linking.antt =====
-- cmdman/compose/graph.go: when the links are made, and which dependency is reported otherwise.
use mathlib.Core.List.{Memᴰ}
use cmdman.Prelude.{◌≡◌, refl, inl, inr, false, List, [], ◌∷◌, arith, Bool-cases}
use cmdman.Prelude.Text.{String, contains}
use cmdman.Prelude.Results.{ok, err, >>=-err}
use cmdman.Compose.Spec.{AfterSpec, Command}
use cmdman.Compose.Graph.{
  Links, GraphError, unknown_dependency, link_dep, link_deps, link_all, check_deps, check_all,
}
use cmdman.Compose.Graph.Degrees.{AllKnown}

-- A dependency of a command that names no command, reported as an error.
pub record IsUnknown (name_set : List String) (commands : List Command) (e : GraphError)
    : Type 0 where
  pub command : Command
  pub listed : Memᴰ command commands
  pub dependency : AfterSpec
  pub needed : Memᴰ dependency command.after
  pub unknown : contains name_set dependency.name ≡ false
  pub reported : e ≡ unknown_dependency command.name dependency.name

link_deps-err :
    (name_set : List String) (name : String) (deps : List AfterSpec) (l : Links) (e : GraphError)
    → link_deps name_set name deps l ≡ err e
    → (d : AfterSpec) × Memᴰ d deps
      × (contains name_set d.name ≡ false)
      × (e ≡ unknown_dependency name d.name)
unfolding link_deps link_dep
link_deps-err name_set name [] l e h = cc
link_deps-err name_set name (d ∷ deps) l e h = elim (Bool-cases (contains name_set d.name)) [
  | inl q ↦
      let (found, m, u, r) = link_deps-err name_set name deps _ e (rw q at h) in
      (found, Memᴰ.tail m, u, r)
  | inr q ↦ (d, Memᴰ.head refl, q, ground arith)
]

pub link_all-IsUnknown :
    (name_set : List String) (commands : List Command) (l : Links) (e : GraphError)
    → link_all name_set commands l ≡ err e
    → IsUnknown name_set commands e
unfolding link_all
link_all-IsUnknown name_set [] l e h = cc
link_all-IsUnknown name_set (c ∷ cs) l e h =
    elim (>>=-err (link_deps name_set c.name c.after l) (link_all name_set cs) h) [
      | inl p ↦
          let (d, m, u, r) = link_deps-err name_set c.name c.after l e p in
          record {
            command = c;
            listed = Memᴰ.head refl;
            dependency = d;
            needed = m;
            unknown = u;
            reported = r;
          }
      | inr (l1, p, q) ↦
          let r : IsUnknown name_set cs e = link_all-IsUnknown name_set cs l1 e q in
          record {
            command = r.command;
            listed = Memᴰ.tail r.listed;
            dependency = r.dependency;
            needed = r.needed;
            unknown = r.unknown;
            reported = r.reported;
          }
    ]

link_deps-ok :
    (name_set : List String) (name : String) (deps : List AfterSpec) (l : Links)
    → AllKnown name_set deps
    → (l' : Links) × (link_deps name_set name deps l ≡ ok l')
unfolding link_deps link_dep
link_deps-ok name_set name [] l h = (l, refl)
link_deps-ok name_set name (d ∷ deps) l h = rw (h.0) (link_deps-ok name_set name deps _ h.1)

pub link_all-ok :
    (name_set : List String) (commands : List Command) (l : Links)
    → ((c : Command) → Memᴰ c commands → AllKnown name_set c.after)
    → (l' : Links) × (link_all name_set commands l ≡ ok l')
unfolding link_all
link_all-ok name_set [] l h = (l, refl)
link_all-ok name_set (c ∷ cs) l h =
    let (first, p) = link_deps-ok name_set c.name c.after l (h c (Memᴰ.head refl)) in
    let (rest, q) = link_all-ok name_set cs first (λ x m. h x (Memᴰ.tail m)) in (rest, rw p q)

check_deps-ok :
    (name_set : List String) (name : String) (deps : List AfterSpec)
    → AllKnown name_set deps
    → check_deps name_set name deps ≡ ok tt
unfolding check_deps
check_deps-ok name_set name [] h = refl
check_deps-ok name_set name (d ∷ deps) h = rw (h.0) (check_deps-ok name_set name deps h.1)

pub check_all-ok :
    (name_set : List String) (commands : List Command)
    → ((c : Command) → Memᴰ c commands → AllKnown name_set c.after)
    → check_all name_set commands ≡ ok tt
unfolding check_all
check_all-ok name_set [] h = refl
check_all-ok name_set (c ∷ cs) h =
    rw (check_deps-ok name_set c.name c.after (h c (Memᴰ.head refl)))
      (check_all-ok name_set cs (λ x m. h x (Memᴰ.tail m)))
