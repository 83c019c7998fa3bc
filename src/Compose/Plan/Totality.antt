-- ===== src/Compose/Plan/Totality.antt =====
-- cmdman/compose/plan.go: when `ComputePlan` answers with a plan, and the collision that it refuses.
use cmdman.Prelude.{
  ◌≡◌, refl, ap, ◌∙◌, true, false, List, [], ◌∷◌, ◌++◌, Option, some, none, arith, inl, inr,
  Bool-cases,
}
use cmdman.Prelude.Text.{String, contains, Distinct}
use cmdman.Prelude.Results.{Result, ok, err, ◌>>=◌}
use cmdman.Compose.Spec.{Command}
use cmdman.Compose.Entry.{Entry, label_file, command_name_of}
use cmdman.Compose.Graph.{names, validate_dag}
use cmdman.Compose.Graph.Answers.{validate_dag-layers}
use cmdman.Compose.Plan.{
  Plan, PlanError, project_collision, Indexed, CommandAction, plan_replicas, replica_count,
  command_by_name, index_entry, index_entries, plan_names, plan_layers, sort_by_name, put_instance,
  compute_plan, is_foreign,
}
use cmdman.Compose.Plan.Instances.{first_foreign}

index_entries-first_foreign :
    (file : String) (wanted : List String) (es : List Entry) (x : Indexed) (owner : String)
    → first_foreign file es ≡ some owner
    → index_entries file wanted es x ≡ err (project_collision owner)
unfolding index_entries index_entry
index_entries-first_foreign file wanted [] x owner h = cc
index_entries-first_foreign file wanted (e ∷ es) x owner h = ground (
  arith,
  h,
  index_entries-first_foreign file wanted es x owner,
  index_entries-first_foreign file wanted es (record x { instances = put_instance e x.instances })
      owner,
  index_entries-first_foreign file wanted es (record x { orphans = x.orphans ++ (e ∷ []) }) owner,
)

-- When the dependency graph is valid and a stored entry has a compose file recorded that is neither
-- empty nor `file`, no plan is computed: the error is the collision with the first such file.
pub compute_plan-first_foreign :
    (hash : Command → Option String) (file : String) (commands : List Command)
    (existing : List Entry) (owner : String)
    → validate_dag commands ≡ ok tt
    → first_foreign file existing ≡ some owner
    → compute_plan hash file commands existing ≡ err (project_collision owner)
unfolding compute_plan
compute_plan-first_foreign hash file commands existing owner v h =
    rw (v, index_entries-first_foreign file (names commands) existing _ owner h) refl

index_entry-wanted :
    (file : String) (wanted : List String) (e : Entry) (x : Indexed) (labels : String → String)
    → e.labels ≡ some labels
    → is_foreign file (labels label_file) ≡ false
    → contains wanted (command_name_of e) ≡ true
    → index_entry file wanted e x ≡ ok (record x { instances = put_instance e x.instances })
unfolding index_entry
index_entry-wanted file wanted e x labels q own w = ground (arith, q, own, w)

index_entry-orphan :
    (file : String) (wanted : List String) (e : Entry) (x : Indexed) (labels : String → String)
    → e.labels ≡ some labels
    → is_foreign file (labels label_file) ≡ false
    → contains wanted (command_name_of e) ≡ false
    → index_entry file wanted e x ≡ ok (record x { orphans = x.orphans ++ (e ∷ []) })
unfolding index_entry
index_entry-orphan file wanted e x labels q own w = ground (arith, q, own, w)

index_entries_total :
    (file : String) (wanted : List String) (es : List Entry) (x : Indexed)
    → first_foreign file es ≡ none
    → (x' : Indexed) × (index_entries file wanted es x ≡ ok x')
unfolding index_entries index_entry
index_entries_total file wanted [] x h = (x, refl)
index_entries_total file wanted (e ∷ es) x h =
    by_config e.labels refl (index_entries_total file wanted es)
  where
    by_config :
        (o : Option (String → String))
        → e.labels ≡ o
        → ((y : Indexed)
            → first_foreign file es ≡ none
            → (x' : Indexed) × (index_entries file wanted es y ≡ ok x'))
        → (x' : Indexed) × (index_entries file wanted (e ∷ es) x ≡ ok x')
    by_config none q rest = let (x', p) = rest x (ground (arith, h, q)) in (x', rw q p)
    by_config (some labels) q rest =
        let own : is_foreign file (labels label_file) ≡ false = ground (arith, rw q at h) in
        let later : first_foreign file es ≡ none = ground (arith, rw q at h) in
        elim (Bool-cases (contains wanted (command_name_of e))) [
          | inl w ↦
              let (x', p) = rest (record x { instances = put_instance e x.instances }) later in
              (
                x',
                ap (λ (r : Result PlanError Indexed). r >>= index_entries file wanted es)
                      (index_entry-wanted file wanted e x labels q own w)
                    ∙ p,
              )
          | inr w ↦
              let (x', p) = rest (record x { orphans = x.orphans ++ (e ∷ []) }) later in
              (
                x',
                ap (λ (r : Result PlanError Indexed). r >>= index_entries file wanted es)
                      (index_entry-orphan file wanted e x labels q own w)
                    ∙ p,
              )
        ]

plan_names_total :
    (hash : Command → Option String) (commands : List Command) (layer : List String)
    (es : List Entry)
    → ((c : Command) → (digest : String) × (hash c ≡ some digest))
    → (r : List CommandAction × List Entry) × (plan_names hash commands layer es ≡ ok r)
unfolding plan_names
plan_names_total hash commands [] es total = (([], es), refl)
plan_names_total hash commands (name ∷ layer) es total =
    let (digest, q) = total (command_by_name commands name) in
    let (as1, left1) =
      plan_replicas name (command_by_name commands name) digest 1
        (replica_count (command_by_name commands name)) es in
    let ((more, last), p) = plan_names_total hash commands layer left1 total in
    ((as1 ++ more, last), rw (plan_names, q, p) refl)

plan_layers_total :
    (hash : Command → Option String) (commands : List Command) (layers : List (List String))
    (es : List Entry)
    → ((c : Command) → (digest : String) × (hash c ≡ some digest))
    → (r : List CommandAction × List Entry) × (plan_layers hash commands layers es ≡ ok r)
unfolding plan_layers
plan_layers_total hash commands [] es total = (([], es), refl)
plan_layers_total hash commands (layer ∷ layers) es total =
    let ((as1, left1), p) = plan_names_total hash commands layer es total in
    let ((more, last), q) = plan_layers_total hash commands layers left1 total in
    ((as1 ++ more, last), rw (p, q) refl)

-- When the names of the commands are distinct, the dependency graph is valid, no stored entry has
-- another compose file recorded and every command can be hashed, a plan is computed.
pub compute_plan_total :
    (hash : Command → Option String) (file : String) (commands : List Command)
    (existing : List Entry)
    → Distinct (names commands)
    → validate_dag commands ≡ ok tt
    → first_foreign file existing ≡ none
    → ((c : Command) → (digest : String) × (hash c ≡ some digest))
    → (plan : Plan) × (compute_plan hash file commands existing ≡ ok plan)
unfolding compute_plan
compute_plan_total hash file commands existing d v h total =
    let (x, p) =
      index_entries_total file (names commands) existing (record { instances = []; orphans = [] })
        h in
    let (layers, q) = (validate_dag-layers commands d).0 v in
    let ((actions, left), r) = plan_layers_total hash commands layers x.instances total in
    (
      record { actions = actions; orphans = x.orphans; excess_replicas = sort_by_name left },
      rw (v, p, q, r) refl,
    )
