-- ===== src/Compose/Graph/Layers.antt =====
-- cmdman/compose/graph.go: `TopoLayers` layers every acyclic graph of commands, and reports a cycle
-- only where there is one.
use mathlib.Core.List.{Memᴰ}
use cmdman.Prelude.{
  ℕ, zero, suc, ◌+◌, ◌-◌, ◌≤◌, ◌≡◌, ◌≢◌, refl, sym, ap, ◌∙◌, inl, inr, Bool, true, false, ◌&&◌,
  ◌||◌, List, [], ◌∷◌, ◌++◌, append_assoc, append-nil, arith, length, Bool-cases, ◌==◌,
}
use cmdman.Prelude.Text.{
  String, contains, contains-append, Distinct, sort, contains-sort, Distinct-sort, length-sort,
}
use cmdman.Prelude.Results.{Result, ok, err}
use cmdman.Compose.Spec.{AfterSpec, Command}
use cmdman.Prelude.Int.{ℤ, pos, negsuc, is_zero, is_positive}
use cmdman.Compose.Graph.{
  is_empty, names, Links, dependency_cycle, select, place, detect_cycle, topo_loop, GraphError,
}
use cmdman.Compose.Graph.Order.{
  IsReady, IsLayering, placed_with, flatten, open_deps, open_deps-zero, open_deps-some,
}
use cmdman.Compose.Graph.Degrees.{AreLinks, AllKnown, contains-name}
use cmdman.Compose.Graph.Selection.{
  contains-select, Distinct-select, unplaced, unplaced-zero, unplaced-some, unplaced-layer,
  command_named,
}
use cmdman.Compose.Graph.Rounds.{Tracks, place-Tracks}

-- A command that waits for a dependency among the stuck ones.
pub record IsStuck (commands : List Command) (stuck : List String) (name : String) : Type 0 where
  pub command : Command
  pub listed : Memᴰ command commands
  pub named : command.name ≡ name
  pub dependency : AfterSpec
  pub needed : Memᴰ dependency command.after
  pub stuck_too : contains stuck dependency.name ≡ true

-- A set of commands none of which can ever be placed: it is not empty, and each of its members
-- depends on a member, which may be itself.
pub record IsCyclic (commands : List Command) (stuck : List String) : Type 0 where
  pub some_stuck : stuck ≢ []
  pub all_stuck : (name : String) → contains stuck name ≡ true → IsStuck commands stuck name

known_dep :
    (name_set : List String) (deps : List AfterSpec) (d : AfterSpec)
    → AllKnown name_set deps
    → Memᴰ d deps
    → contains name_set d.name ≡ true
known_dep name_set [] d h m = elim m [ ]
known_dep name_set (x ∷ deps) d h (Memᴰ.head e) = rw e h.0
known_dep name_set (x ∷ deps) d h (Memᴰ.tail m) = known_dep name_set deps d h.1 m

module _ (commands : List Command) (l : Links) (links : AreLinks commands l) where
  -- What the loop ends with, when `placed` was placed before: more layers, or a cycle.
  pub data Outcome (placed : String → Bool) (layers : List (List String))
      (r : Result GraphError (List (List String))) : Type 0 where
    layered :
        (rest : List (List String))
        → r ≡ ok (layers ++ rest)
        → IsLayering commands placed rest
        → ((c : Command)
            → Memᴰ c commands
            → (placed c.name || contains (flatten rest) c.name) ≡ true)
        → Outcome placed layers r
    cyclic :
        (stuck : List String)
        → r ≡ err (dependency_cycle stuck)
        → IsCyclic commands stuck
        → Outcome placed layers r

  -- The names that the round at `deg` places.
  abbrev layer_of : (String → ℤ) → List String
  layer_of deg = sort (select is_zero deg commands)

  in_layer :
      (deg : String → ℤ) (s : String)
      → contains (layer_of deg) s ≡ (contains (names commands) s && is_zero (deg s))
  in_layer deg s =
      contains-sort (select is_zero deg commands) s ∙ contains-select is_zero deg commands s

  layer-IsReady :
      (placed : String → Bool) (deg : String → ℤ) (s : String)
      → Tracks commands l links placed deg
      → contains (layer_of deg) s ≡ true
      → IsReady commands placed s
  layer-IsReady placed deg s t h =
      let zero_there : (contains (names commands) s && is_zero (deg s)) ≡ true =
        sym (in_layer deg s) ∙ h in
      let (c, m, e) = command_named commands s (ground arith) in
      let waits : placed s ≡ false = not_done c m e zero_there in
      record {
        known = ground arith;
        unplaced = waits;
        deps_placed = λ x k q.
            let at_zero : deg x.name ≡ pos (open_deps placed x.after) =
              t.waiting x k (rw q waits) in
            let is_at_zero : is_zero (deg x.name) ≡ true = rw q (ground arith) in
            open_deps-zero placed x.after (ground arith);
      }
    where
      not_done :
          (c : Command)
          → Memᴰ c commands
          → c.name ≡ s
          → (contains (names commands) s && is_zero (deg s)) ≡ true
          → placed s ≡ false
      not_done c m e z = elim (Bool-cases (placed s)) [
        | inr q ↦ q
        | inl q ↦
            let (at_done, _) = t.done c m (rw e q) in
            let same : deg s ≡ negsuc 0 = rw (← e) at_done in ground arith
      ]

  waiting_stuck :
      (placed : String → Bool) (deg : String → ℤ) (c : Command)
      → Tracks commands l links placed deg
      → select is_zero deg commands ≡ []
      → Memᴰ c commands
      → placed c.name ≡ false
      → contains (detect_cycle commands deg) c.name ≡ true
  unfolding detect_cycle
  waiting_stuck placed deg c t nothing m p =
      let here : deg c.name ≡ pos (open_deps placed c.after) = t.waiting c m p in
      let not_zero : contains (select is_zero deg commands) c.name
          ≡ (contains (names commands) c.name && is_zero (deg c.name)) =
        contains-select is_zero deg commands c.name in
      contains-sort (select is_positive deg commands) c.name
      ∙ contains-select is_positive deg commands c.name
      ∙ ground (arith, contains-name commands c m, here, rw nothing at not_zero)

  in_cycle :
      (deg : String → ℤ) (s : String)
      → contains (detect_cycle commands deg) s
        ≡ (contains (names commands) s && is_positive (deg s))
  unfolding detect_cycle
  in_cycle deg s =
      contains-sort (select is_positive deg commands) s ∙ contains-select is_positive deg commands s

  one-IsStuck :
      (placed : String → Bool) (deg : String → ℤ) (name : String)
      → Tracks commands l links placed deg
      → select is_zero deg commands ≡ []
      → contains (detect_cycle commands deg) name ≡ true
      → IsStuck commands (detect_cycle commands deg) name
  one-IsStuck placed deg name t nothing h =
      let (c, m, e) = command_named commands name known_here in
      let positive : is_positive (deg c.name) ≡ true = rw e (ground (arith, in_cycle deg name)) in
      let (d, k, open_still) = open_deps-some placed c.after (still_open c m positive) in
      let (x, mx, ex) =
        command_named commands d.name (known_dep (names commands) c.after d (links.known c m) k) in
      record {
        command = c;
        listed = m;
        named = e;
        dependency = d;
        needed = k;
        stuck_too = rw ex at (waiting_stuck placed deg x t nothing mx (rw ex open_still));
      }
    where
      known_here : contains (names commands) name ≡ true
      known_here = ground (arith, in_cycle deg name)

      still_open :
          (c : Command)
          → Memᴰ c commands
          → is_positive (deg c.name) ≡ true
          → open_deps placed c.after ≢ 0
      still_open c m q none_open = elim (Bool-cases (placed c.name)) [
        | inl p ↦ let (at_done, _) = t.done c m p in ground arith
        | inr p ↦
            let at : deg c.name ≡ pos (open_deps placed c.after) = t.waiting c m p in ground arith
      ]

  no_layer-IsCyclic :
      (placed : String → Bool) (deg : String → ℤ)
      → Tracks commands l links placed deg
      → select is_zero deg commands ≡ []
      → unplaced placed commands ≢ 0
      → IsCyclic commands (detect_cycle commands deg)
  no_layer-IsCyclic placed deg t nothing some_left = record {
    some_stuck = λ e.
        let (c, m, p) = unplaced-some placed commands some_left in
        let there : contains (detect_cycle commands deg) c.name ≡ true =
          waiting_stuck placed deg c t nothing m p in
        let absent : contains (detect_cycle commands deg) c.name ≡ false = rw e refl in cc;
    all_stuck = λ name h. one-IsStuck placed deg name t nothing h;
  }

  -- What a round has left over.
  round_left :
      (placed : String → Bool) (deg : String → ℤ)
      → Tracks commands l links placed deg
      → unplaced placed commands
        ≡ length (select is_zero deg commands)
          + unplaced (placed_with placed (layer_of deg)) commands
  round_left placed deg t =
      unplaced-layer placed deg (layer_of deg) commands
        (λ c m. in_layer deg c.name ∙ rw (contains-name commands c m) refl)
        (λ c m p. let (at_done, _) = t.done c m p in rw at_done refl)

  nonempty_layer :
      (deg : String → ℤ) → is_empty (select is_zero deg commands) ≡ false → layer_of deg ≢ []
  nonempty_layer deg h e =
      let none_long : length (layer_of deg) ≡ 0 = rw e refl in
      ground (arith, length-sort (select is_zero deg commands))

  -- An outcome of the rounds after a ready layer is one of the rounds from it on.
  extend :
      (placed : String → Bool) (layer : List String) (layers : List (List String))
      {r : Result GraphError (List (List String))}
      → layer ≢ []
      → Distinct layer
      → ((s : String) → contains layer s ≡ true → IsReady commands placed s)
      → Outcome (placed_with placed layer) (layers ++ (layer ∷ [])) r
      → Outcome placed layers r
  extend placed layer layers some_layer d ready (layered rest e is_layering covers) =
      layered (layer ∷ rest) (e ∙ ap ok (append_assoc layers (layer ∷ []) rest))
        (some_layer, (d, (ready, is_layering)))
        (λ c m. ground (arith, covers c m, contains-append layer (flatten rest) c.name))
  extend placed layer layers some_layer d ready (cyclic stuck e is_cyclic) =
      cyclic stuck e is_cyclic

  pub loop-Outcome :
      (fuel : ℕ) (placed : String → Bool) (deg : String → ℤ) (remaining : ℕ)
      (layers : List (List String))
      → Distinct (names commands)
      → Tracks commands l links placed deg
      → remaining ≡ unplaced placed commands
      → remaining ≤ fuel
      → Outcome placed layers (topo_loop fuel commands l.dependents deg remaining layers)
  unfolding topo_loop
  loop-Outcome zero placed deg remaining layers d t e h =
      layered [] (ground (arith, append-nil layers)) tt (λ c m.
        let p : placed c.name ≡ true = unplaced-zero placed commands c (omega arith) m in rw p refl)
  loop-Outcome (suc fuel) placed deg remaining layers d t e h = elim (Bool-cases (remaining == 0)) [
    | inl done ↦ layered [] (rw (done, append-nil layers) refl) tt (λ c m.
        let p : placed c.name ≡ true = unplaced-zero placed commands c (ground arith) m in
        rw p refl)
    | inr more ↦ elim (Bool-cases (is_empty (select is_zero deg commands))) [
      | inl nothing ↦
          cyclic (detect_cycle commands deg) (rw (more, nothing) refl)
            (no_layer-IsCyclic placed deg t (ground arith) (ground arith))
      | inr some_ready ↦
          let distinct : Distinct (layer_of deg) =
            Distinct-sort (select is_zero deg commands) (Distinct-select is_zero deg commands d) in
          let ready : (s : String) → contains (layer_of deg) s ≡ true → IsReady commands placed s =
            λ s h. layer-IsReady placed deg s t h in
          let next =
            loop-Outcome fuel (placed_with placed (layer_of deg))
              (place (layer_of deg) l.dependents deg)
              (remaining - length (select is_zero deg commands)) (layers ++ (layer_of deg ∷ [])) d
              (place-Tracks commands l links (layer_of deg) placed deg t distinct ready)
              (omega (arith, round_left placed deg t)) (ground (arith, round_left placed deg t)) in
          rw (more, some_ready)
            (extend placed (layer_of deg) layers (nonempty_layer deg some_ready) distinct ready
              next)
    ]
  ]
