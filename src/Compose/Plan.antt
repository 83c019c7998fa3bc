-- ===== src/Compose/Plan.antt =====
-- cmdman/compose/plan.go: the plan that reconciles the desired commands with the stored ones. The map
-- of existing instances is a list of entries with different keys, since an entry has its key in its
-- labels. The configuration hash is an argument: it digests the command's JSON with SHA-256.
pub mod Keys
pub mod Instances
pub mod Actions
pub mod Planned
pub mod Layered
pub mod Outcome
pub mod Excess
pub mod Totality
pub mod Members
pub mod Created
pub mod Convergence
pub mod Tests
use Prim.Native.Nat.{Ordering}
use Prim.Native.String.{compare, ◌++◌ as ◌<>◌}
use cmdman.Prelude.{
  ℕ, zero, suc, ◌+◌, Bool, true, false, not, ◌&&◌, ◌||◌, List, [], ◌∷◌, ◌++◌, map, Option, none,
  some, if◌then◌else◌, ◌==◌, max,
}
use cmdman.Prelude.Text.{String, str_eq, contains}
use cmdman.Prelude.Int.{ℤ, pos, negsuc}
use cmdman.Prelude.Digits.{itoa}
use cmdman.Prelude.Results.{Result, ok, err, ◌>>=◌}
use cmdman.Compose.Spec.{AfterSpec, Command}
use cmdman.Compose.Entry.{Entry, label_file, label_config_hash, command_name_of, scale_index_of}
use cmdman.Compose.Graph.{GraphError, names, validate_dag, topo_layers}

pub data ActionKind : Type 0 where
  action_create action_recreate action_unchanged : ActionKind

pub record CommandAction : Type 0 where
  pub kind : ActionKind
  pub desired : Command
  pub scale_index : ℕ
  pub instance_name : String
  pub existing : Option Entry
  pub desired_hash : String

pub record Plan : Type 0 where
  pub actions : List CommandAction
  pub orphans : List Entry
  pub excess_replicas : List Entry

pub data PlanError : Type 0 where
  dependency_graph : GraphError → PlanError
  -- The file that owns the project.
  project_collision : String → PlanError
  hash_failed : String → PlanError

unfoldable pub instance_name : String → ℕ → String
instance_name base scale_index = base <> ("-" <> itoa scale_index)

abbrev pub same_int : ℤ → ℤ → Bool
same_int (pos m) (pos n) = m == n
same_int (negsuc m) (negsuc n) = m == n
same_int _ _ = false

-- An entry with the key of a command name and a scale index.
abbrev pub is_instance : String → ℤ → Entry → Bool
is_instance name index e = str_eq (command_name_of e) name && same_int (scale_index_of e) index

-- `existingByInstance[key]`
unfoldable pub find_instance : String → ℤ → List Entry → Option Entry
find_instance name index [] = none
find_instance name index (e ∷ es) =
    let later = find_instance name index es in if is_instance name index e then some e else later

-- `delete(existingByInstance, key)`
unfoldable pub delete_instance : String → ℤ → List Entry → List Entry
delete_instance name index [] = []
delete_instance name index (e ∷ es) =
    let rest = delete_instance name index es in if is_instance name index e then rest else e ∷ rest

abbrev pub same_key : Entry → Entry → Bool
same_key a b = is_instance (command_name_of b) (scale_index_of b) a

-- `existingByInstance[instanceKey{...}] = e`: a later entry takes the place of one with its key.
unfoldable pub put_instance : Entry → List Entry → List Entry
put_instance e [] = e ∷ []
put_instance e (x ∷ xs) = let rest = put_instance e xs in if same_key x e then e ∷ xs else x ∷ rest

-- What the loop over the existing entries fills.
pub record Indexed : Type 0 where
  pub instances : List Entry
  pub orphans : List Entry

-- Another file than that of the project is recorded.
abbrev pub is_foreign : String → String → Bool
is_foreign file recorded = not (str_eq recorded "") && not (str_eq recorded file)

-- The body of the loop over the existing entries.
unfoldable pub index_entry : String → List String → Entry → Indexed → Result PlanError Indexed
index_entry file wanted e x = elim e.labels [
  | none ↦ ok x
  | some labels ↦
      if is_foreign file (labels label_file)
      then err (project_collision (labels label_file))
      else if contains wanted (command_name_of e)
      then ok (record x { instances = put_instance e x.instances })
      else ok (record x { orphans = x.orphans ++ (e ∷ []) })
]

unfoldable pub index_entries :
    String → List String → List Entry → Indexed → Result PlanError Indexed
index_entries file wanted [] x = ok x
index_entries file wanted (e ∷ es) x = index_entry file wanted e x >>= index_entries file wanted es

abbrev pub no_command : Command
no_command = record { name = ""; after = []; scale = 0; generated_name = "" }

-- `cmdByName[name]`: the last command of a name, the zero value for a missing one.
unfoldable pub command_by_name : List Command → String → Command
command_by_name [] name = no_command
command_by_name (c ∷ cs) name =
    let later = command_by_name cs name in
    if contains (names cs) name then later else if str_eq c.name name then c else later

abbrev pub stored_hash : Entry → String
stored_hash e = elim e.labels [ none ↦ "" | some labels ↦ labels label_config_hash ]

-- The action for one replica, by its existing instance.
unfoldable pub replica_action : Command → String → ℕ → Option Entry → CommandAction
unfolding instance_name
replica_action desired hash index found = record {
  kind = elim found [
    | none ↦ action_create
    | some e ↦ if str_eq (stored_hash e) hash then action_unchanged else action_recreate
  ];
  desired = desired;
  scale_index = index;
  instance_name = instance_name desired.generated_name index;
  existing = found;
  desired_hash = hash;
}

-- The replicas from `index` on, `count` of them, and the instances that are left.
unfoldable pub plan_replicas :
    String → Command → String → ℕ → ℕ → List Entry → List CommandAction × List Entry
plan_replicas name desired hash index zero instances = ([], instances)
plan_replicas name desired hash index (suc count) instances =
    let found = find_instance name (pos index) instances in
    let (actions, left) =
      plan_replicas name desired hash (suc index) count
        (delete_instance name (pos index) instances) in
    (replica_action desired hash index found ∷ actions, left)

-- `max(desired.Scale, 1)`
abbrev pub replica_count : Command → ℕ
replica_count c = max c.scale 1

-- The names of a layer, in turn; `hash` is `Hash`, which may fail.
unfoldable pub plan_names :
    (Command → Option String)
    → List Command
    → List String
    → List Entry
    → Result PlanError (List CommandAction × List Entry)
plan_names hash commands [] instances = ok ([], instances)
plan_names hash commands (name ∷ rest) instances = elim (hash (command_by_name commands name)) [
  | none ↦ err (hash_failed name)
  | some h ↦
      let (actions, left) =
        plan_replicas name (command_by_name commands name) h 1
          (replica_count (command_by_name commands name)) instances in
      plan_names hash commands rest left >>= λ (more, last). ok (actions ++ more, last)
]

unfoldable pub plan_layers :
    (Command → Option String)
    → List Command
    → List (List String)
    → List Entry
    → Result PlanError (List CommandAction × List Entry)
plan_layers hash commands [] instances = ok ([], instances)
plan_layers hash commands (layer ∷ layers) instances =
    plan_names hash commands layer instances >>= λ (actions, left).
    plan_layers hash commands layers left >>= λ (more, last). ok (actions ++ more, last)

abbrev name_leb : Entry → Entry → Bool
name_leb a b = elim (compare a.name b.name) [ Ordering.gt ↦ false | _ ↦ true ]

insert_by_name : Entry → List Entry → List Entry
insert_by_name e [] = e ∷ []
insert_by_name e (x ∷ xs) = if name_leb e x then e ∷ x ∷ xs else x ∷ insert_by_name e xs

-- `slices.SortFunc` by name. The map is ranged over in any order, so nothing is said of the order of
-- two entries with one name.
unfoldable pub sort_by_name : List Entry → List Entry
unfolding insert_by_name
sort_by_name [] = []
sort_by_name (e ∷ es) = insert_by_name e (sort_by_name es)

abbrev pub graph_step {ℓ} : {A : Type ℓ} → Result GraphError A → Result PlanError A
graph_step (ok a) = ok a
graph_step (err e) = err (dependency_graph e)

unfoldable pub compute_plan :
    (Command → Option String) → String → List Command → List Entry → Result PlanError Plan
unfolding index_entries plan_layers sort_by_name
compute_plan hash file commands existing = graph_step (validate_dag commands) >>= λ _.
    index_entries file (names commands) existing (record { instances = []; orphans = [] }) >>= λ x.
    graph_step (topo_layers commands) >>= λ layers.
    plan_layers hash commands layers x.instances >>= λ (actions, left).
    ok (record { actions = actions; orphans = x.orphans; excess_replicas = sort_by_name left })
