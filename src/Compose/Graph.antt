-- ===== src/Compose/Graph.antt =====
-- cmdman/compose/graph.go: the layering of commands by their dependencies (Kahn's algorithm).
-- Go's maps are functions on names; a missing key reads as the zero value, as in Go.
pub mod Order
pub mod Degrees
pub mod Rounds
pub mod Selection
pub mod Layers
pub mod Linking
pub mod Answers
use cmdman.Prelude.{
  ℕ, zero, suc, ◌-◌, Bool, true, false, not, ◌&&◌, List, [], ◌∷◌, ◌++◌, map, if◌then◌else◌, ◌==◌,
  ltb, length,
}
use cmdman.Prelude.Text.{String, str_eq, contains, update, sort}
use cmdman.Prelude.Int.{ℤ, pos, negsuc, increment, decrement, is_zero, is_positive}
use cmdman.Prelude.Results.{Result, ok, err, ◌>>=◌}
use cmdman.Compose.Spec.{AfterSpec, Command}

pub data GraphError : Type 0 where
  unknown_dependency : (command dependency : String) → GraphError
  dependency_cycle : (stuck : List String) → GraphError
  -- The loop of the model ran out of rounds; the source has no such error.
  out_of_fuel : GraphError

abbrev pub names : List Command → List String
names = map (λ c. c.name)

-- The two maps that the first loops fill.
pub record Links : Type 0 where
  pub in_degree : String → ℤ
  pub dependents : String → List String

-- The body of the loop over `c.After`.
unfoldable pub link_dep : List String → String → AfterSpec → Links → Result GraphError Links
link_dep name_set name dep l =
    if not (contains name_set dep.name)
    then err (unknown_dependency name dep.name)
    else ok (record {
      in_degree = update l.in_degree name (increment (l.in_degree name));
      dependents = update l.dependents dep.name (l.dependents dep.name ++ (name ∷ []));
    })

unfoldable pub link_deps : List String → String → List AfterSpec → Links → Result GraphError Links
link_deps name_set name [] l = ok l
link_deps name_set name (dep ∷ deps) l =
    link_dep name_set name dep l >>= link_deps name_set name deps

unfoldable pub link_all : List String → List Command → Links → Result GraphError Links
link_all name_set [] l = ok l
link_all name_set (c ∷ cs) l = link_deps name_set c.name c.after l >>= link_all name_set cs

-- `inℤ[c.Name] = 0` for every command, and no dependents.
abbrev pub no_links : Links
no_links = record { in_degree = λ _. pos 0; dependents = λ _. [] }

-- The names whose in-degree satisfies a test, in the order of the commands.
unfoldable pub select : (ℤ → Bool) → (String → ℤ) → List Command → List String
select test in_degree [] = []
select test in_degree (c ∷ cs) =
    let rest = select test in_degree cs in if test (in_degree c.name) then c.name ∷ rest else rest

-- `inℤ[dep]--` for every dependent.
unfoldable pub release : List String → (String → ℤ) → String → ℤ
release [] in_degree = in_degree
release (dep ∷ deps) in_degree = release deps (update in_degree dep (decrement (in_degree dep)))

-- The loop over a layer: `inℤ[name] = -1` and the release of its dependents.
unfoldable pub place : List String → (String → List String) → (String → ℤ) → String → ℤ
place [] dependents in_degree = in_degree
place (name ∷ layer) dependents in_degree =
    place layer dependents (release (dependents name) (update in_degree name (negsuc 0)))

unfoldable pub detect_cycle : List Command → (String → ℤ) → List String
detect_cycle commands in_degree = sort (select is_positive in_degree commands)

abbrev pub is_empty {ℓ} : {A : Type ℓ} → List A → Bool
is_empty [] = true
is_empty (x ∷ xs) = false

-- The main loop. `remaining--` runs once for each member of the layer, each of which is a command
-- not placed before, so the subtraction is exact.
unfoldable pub topo_loop :
    ℕ
    → List Command
    → (String → List String)
    → (String → ℤ)
    → ℕ
    → List (List String)
    → Result GraphError (List (List String))
topo_loop zero commands dependents in_degree remaining layers =
    if remaining == 0 then ok layers else err out_of_fuel
topo_loop (suc fuel) commands dependents in_degree remaining layers =
    let layer = select is_zero in_degree commands in
    let next =
      topo_loop fuel commands dependents (place (sort layer) dependents in_degree)
        (remaining - length layer) (layers ++ (sort layer ∷ [])) in
    if remaining == 0
    then ok layers
    else if is_empty layer
    then err (dependency_cycle (detect_cycle commands in_degree))
    else next

-- A round places a command at least, so as many rounds as commands are enough.
unfoldable pub topo_layers : List Command → Result GraphError (List (List String))
topo_layers commands =
    if is_empty commands
    then ok []
    else link_all (names commands) commands no_links >>= λ l.
        topo_loop (length commands) commands l.dependents l.in_degree (length commands) []

-- The first loop of `ValidateDAG`: the first dependency that names no command.
unfoldable pub check_deps : List String → String → List AfterSpec → Result GraphError (Unit {0})
check_deps name_set name [] = ok tt
check_deps name_set name (dep ∷ deps) =
    let rest = check_deps name_set name deps in
    if not (contains name_set dep.name) then err (unknown_dependency name dep.name) else rest

unfoldable pub check_all : List String → List Command → Result GraphError (Unit {0})
check_all name_set [] = ok tt
check_all name_set (c ∷ cs) = check_deps name_set c.name c.after >>= λ _. check_all name_set cs

unfoldable pub validate_dag : List Command → Result GraphError (Unit {0})
validate_dag commands =
    check_all (names commands) commands >>= λ _. topo_layers commands >>= λ _. ok tt
