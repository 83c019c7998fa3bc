-- ===== src/Compose/Graph/Answers.antt =====
-- cmdman/compose/graph.go: what `TopoLayers` and `ValidateDAG` answer.
use mathlib.Core.List.{Memᴰ}
use cmdman.Prelude.{
  ℕ, zero, suc, ◌<◌, ◌≡◌, refl, sym, ap, ◌∙◌, ◌↔◌, ◌⊎◌, inl, inr, true, false, List, [], ◌∷◌, arith,
  length,
}
use cmdman.Prelude.Text.{String, str_eq_self, contains, Distinct}
use cmdman.Prelude.Results.{Result, ok, err, ◌>>=◌, >>=-ok, >>=-err}
use cmdman.Compose.Spec.{AfterSpec, Command}
use cmdman.Compose.Graph.{
  names, Links, GraphError, dependency_cycle, link_all, no_links, topo_loop, topo_layers, check_all,
  validate_dag,
}
use cmdman.Compose.Graph.Order.{IsLayering, flatten}
use cmdman.Compose.Graph.Degrees.{AreLinks, AllKnown, link_all-AreLinks}
use cmdman.Compose.Graph.Selection.{unplaced-none}
use cmdman.Compose.Graph.Order.{open_deps}
use cmdman.Compose.Graph.Rounds.{Tracks}
use cmdman.Compose.Graph.Layers.{IsStuck, IsCyclic, Outcome, layered, cyclic, loop-Outcome}
use cmdman.Compose.Graph.Linking.{IsUnknown, link_all-IsUnknown, link_all-ok, check_all-ok}

-- Every dependency of every command names a command.
unfoldable pub AllDepsKnown : List Command → Type 0
AllDepsKnown commands = (c : Command) → Memᴰ c commands → AllKnown (names commands) c.after

-- Each dependency ranks below the command that needs it.
unfoldable pub IsRank : List Command → (String → ℕ) → Type 0
IsRank commands rank =
    (c : Command) (d : AfterSpec) → Memᴰ c commands → Memᴰ d c.after → rank d.name < rank c.name

open_deps-none : (deps : List AfterSpec) → open_deps (λ _. false) deps ≡ length deps
open_deps-none [] = refl
open_deps-none (d ∷ deps) = ap suc (open_deps-none deps)

start-Tracks :
    (commands : List Command) (l : Links) (links : AreLinks commands l)
    → Tracks commands l links (λ _. false) l.in_degree
start-Tracks commands l links = record {
  done = λ c m h. cc;
  waiting = λ c m h. ground (arith, links.degrees c m, open_deps-none c.after);
}

start-Outcome :
    (commands : List Command) (l : Links) (links : AreLinks commands l)
    → Distinct (names commands)
    → Outcome commands l links
        (λ _. false)
        []
        (topo_loop (length commands) commands l.dependents l.in_degree (length commands) [])
start-Outcome commands l links d =
    loop-Outcome commands l links (length commands) (λ _. false) l.in_degree (length commands) [] d
      (start-Tracks commands l links) (sym (unplaced-none commands)) (omega arith)

-- `topo_layers` without the shortcut for no commands, which answers the same.
topo_layers_eq :
    (commands : List Command)
    → topo_layers commands ≡ (
        link_all (names commands) commands no_links >>= λ l.
        topo_loop (length commands) commands l.dependents l.in_degree (length commands) [])
unfolding topo_layers link_all topo_loop
topo_layers_eq [] = refl
topo_layers_eq (c ∷ cs) = refl

-- What `topo_layers` answers when the links were made.
Answer : List Command → Result GraphError (List (List String)) → Type 0
Answer commands r =
    ((layers : List (List String)) × (r ≡ ok layers)
      × IsLayering commands (λ _. false) layers
      × ((c : Command) → Memᴰ c commands → contains (flatten layers) c.name ≡ true))
    ⊎ ((stuck : List String) × (r ≡ err (dependency_cycle stuck)) × IsCyclic commands stuck)

Outcome-Answer :
    (commands : List Command) (l : Links) (links : AreLinks commands l)
    (r : Result GraphError (List (List String)))
    → Outcome commands l links (λ _. false) [] r
    → Answer commands r
unfolding Answer
Outcome-Answer commands l links r (layered rest e is_layering covers) =
    inl (rest, e, is_layering, covers)
Outcome-Answer commands l links r (cyclic stuck e is_cyclic) = inr (stuck, e, is_cyclic)

topo_layers-Answer :
    (commands : List Command) (l : Links)
    → Distinct (names commands)
    → link_all (names commands) commands no_links ≡ ok l
    → Answer commands (topo_layers commands)
topo_layers-Answer commands l d p =
    let links : AreLinks commands l = link_all-AreLinks commands d p in
    rw (topo_layers_eq commands, p)
      (Outcome-Answer commands l links
        (topo_loop (length commands) commands l.dependents l.in_degree (length commands) [])
        (start-Outcome commands l links d))

-- When the layers of `topo_layers commands` are computed at all, the names of the commands being
-- distinct, no layer is empty or has a name twice, each name in a layer is that of a command not
-- layered before whose dependencies all stand in earlier layers, and every command is in a layer.
pub topo_layers_sound :
    (commands : List Command) (layers : List (List String))
    → Distinct (names commands)
    → topo_layers commands ≡ ok layers
    → IsLayering commands (λ _. false) layers
      × ((c : Command) → Memᴰ c commands → contains (flatten layers) c.name ≡ true)
unfolding Answer
topo_layers_sound commands layers d h =
    let (l, p, q) =
      >>=-ok (link_all (names commands) commands no_links) _ (sym (topo_layers_eq commands) ∙ h) in
    elim (topo_layers-Answer commands l d p) [
      | inl (found, e, is_layering, covers) ↦
          let same : found ≡ layers = cc in (rw (← same) is_layering, rw (← same) covers)
      | inr (stuck, e, is_cyclic) ↦ cc
    ]

-- An error of `topo_layers commands`, the names of the commands being distinct, is of two kinds: it
-- names a command and a dependency of it that is no command, or it reports a cycle, and then at
-- least one name is reported and each reported name is that of a command that depends on a reported
-- one, which may be the command itself.
pub topo_layers-errors :
    (commands : List Command) (e : GraphError)
    → Distinct (names commands)
    → topo_layers commands ≡ err e
    → IsUnknown (names commands) commands e
      ⊎ ((stuck : List String) × (e ≡ dependency_cycle stuck) × IsCyclic commands stuck)
unfolding Answer
topo_layers-errors commands e d h =
    elim (>>=-err (link_all (names commands) commands no_links) _
      (sym (topo_layers_eq commands) ∙ h)) [
        | inl p ↦ inl (link_all-IsUnknown (names commands) commands no_links e p)
        | inr (l, p, q) ↦ elim (topo_layers-Answer commands l d p) [
          | inl (found, r, is_layering, covers) ↦ cc
          | inr (stuck, r, is_cyclic) ↦ inr (stuck, ground arith, is_cyclic)
        ]
      ]

no_descent :
    (commands : List Command) (rank : String → ℕ) (stuck : List String) (bound : ℕ) (name : String)
    → IsRank commands rank
    → IsCyclic commands stuck
    → contains stuck name ≡ true
    → rank name < bound
    → ⊥
unfolding IsRank
no_descent commands rank stuck zero name ranks cycle h b = omega arith
no_descent commands rank stuck (suc bound) name ranks cycle h b =
    let r : IsStuck commands stuck name = cycle.all_stuck name h in
    no_descent commands rank stuck bound r.dependency.name ranks cycle r.stuck_too (
      let lower = ranks r.command r.dependency r.listed r.needed in
      ground (arith, rw r.named at lower))

ranked-acyclic :
    (commands : List Command) (rank : String → ℕ) (stuck : List String)
    → IsRank commands rank
    → IsCyclic commands stuck
    → ⊥
ranked-acyclic commands rank [] ranks cycle = cycle.some_stuck refl
ranked-acyclic commands rank (s ∷ stuck) ranks cycle =
    no_descent commands rank (s ∷ stuck) (suc (rank s)) s ranks cycle (rw (str_eq_self s) refl)
      (omega arith)

-- Commands with distinct names whose dependencies all name commands and rank below the commands
-- that need them are layered: neither an error nor a shortage of rounds is possible.
pub topo_layers_complete :
    (commands : List Command) (rank : String → ℕ)
    → Distinct (names commands)
    → AllDepsKnown commands
    → IsRank commands rank
    → (layers : List (List String)) × (topo_layers commands ≡ ok layers)
unfolding Answer AllDepsKnown
topo_layers_complete commands rank d known ranks =
    let (l, p) = link_all-ok (names commands) commands no_links known in
    elim (topo_layers-Answer commands l d p) [
      | inl (layers, e, is_layering, covers) ↦ (layers, e)
      | inr (stuck, e, is_cyclic) ↦ absurd (ranked-acyclic commands rank stuck ranks is_cyclic)
    ]

-- Commands with distinct names pass `validate_dag` exactly when `topo_layers` layers them.
pub validate_dag-layers :
    (commands : List Command)
    → Distinct (names commands)
    → validate_dag commands ≡ ok tt
      ↔ ((layers : List (List String)) × (topo_layers commands ≡ ok layers))
unfolding validate_dag
validate_dag-layers commands d = (
  λ h.
      let (u, p, q) = >>=-ok (check_all (names commands) commands) _ h in
      let (layers, r, s) = >>=-ok (topo_layers commands) _ q in (layers, r),
  λ (layers, r).
      let (l, p, q) =
        >>=-ok (link_all (names commands) commands no_links) _
          (sym (topo_layers_eq commands) ∙ r) in
      let links : AreLinks commands l = link_all-AreLinks commands d p in
      rw (check_all-ok (names commands) commands links.known, r) refl,
)
