-- ===== src/Compose/Plan/Outcome.antt =====
-- cmdman/compose/plan.go: what `ComputePlan` answers, said of the desired commands and the stored
-- entries alone.
use mathlib.Core.List.{Memᴰ}
use cmdman.Prelude.{◌≡◌, refl, subst, ◌∙◌, true, false, List, [], Option, some, none, arith}
use cmdman.Prelude.Int.{ℤ}
use cmdman.Prelude.Text.{String, contains, Distinct}
use cmdman.Prelude.Results.{Result, ok, err, >>=-ok}
use cmdman.Compose.Spec.{Command}
use cmdman.Compose.Entry.{Entry}
use cmdman.Compose.Graph.{GraphError, names, validate_dag, topo_layers}
use cmdman.Compose.Graph.Order.{IsLayering, flatten}
use cmdman.Compose.Graph.Answers.{topo_layers_sound}
use cmdman.Compose.Plan.{
  Plan, Indexed, find_instance, index_entries, plan_layers, sort_by_name, graph_step, compute_plan,
}
use cmdman.Compose.Plan.Instances.{
  latest, prefer, orphans_of, first_foreign, Indexes, index_entries-Indexes,
}
use cmdman.Compose.Plan.Actions.{named_actions}
use cmdman.Compose.Plan.Planned.{Planned, named_actions_ext}
use cmdman.Compose.Plan.Layered.{IsLayering-known, plan_layers-Planned}

pub graph_step-ok : {A : Type 0} (r : Result GraphError A) {a : A} → graph_step r ≡ ok a → r ≡ ok a
graph_step-ok (ok b) h = ground (arith, h)
graph_step-ok (err e) h = cc

-- The steps of a plan that is computed.
pub record Steps (hash : Command → Option String) (file : String) (commands : List Command)
    (existing : List Entry) (plan : Plan) : Type 0 where
  pub layers : List (List String)
  pub indexed : Indexed
  pub left : List Entry
  pub are_layers : topo_layers commands ≡ ok layers
  pub layering : IsLayering commands (λ _. false) layers
  pub covers : (c : Command) → Memᴰ c commands → contains (flatten layers) c.name ≡ true
  pub indexes :
      Indexes file (names commands) existing (record { instances = []; orphans = [] }) indexed
  pub plans : Planned hash commands (flatten layers) indexed.instances plan.actions left
  pub left_over : plan.orphans ≡ indexed.orphans
  pub excess : plan.excess_replicas ≡ sort_by_name left

pub compute_plan-Steps :
    (hash : Command → Option String) (file : String) (commands : List Command)
    (existing : List Entry) (plan : Plan)
    → Distinct (names commands)
    → compute_plan hash file commands existing ≡ ok plan
    → Steps hash file commands existing plan
unfolding compute_plan
compute_plan-Steps hash file commands existing plan d h =
    let (_, _, h1) = >>=-ok (graph_step (validate_dag commands)) _ h in
    let (x, p, h2) =
      >>=-ok
        (index_entries file (names commands) existing (record { instances = []; orphans = [] })) _
        h1 in
    let (layers, q, h3) = >>=-ok (graph_step (topo_layers commands)) _ h2 in
    let ((actions, left), r, e) = >>=-ok (plan_layers hash commands layers x.instances) _ h3 in
    let q' : topo_layers commands ≡ ok layers = graph_step-ok (topo_layers commands) q in
    let (l, c) = topo_layers_sound commands layers d q' in
    let made : Plan = record {
      actions = actions;
      orphans = x.orphans;
      excess_replicas = sort_by_name left;
    } in
    let same : made ≡ plan = ground (arith, e) in
    subst (λ y. Steps hash file commands existing y) same
      (record {
        layers = layers;
        indexed = x;
        left = left;
        are_layers = q';
        layering = l;
        covers = c;
        indexes = index_entries-Indexes file (names commands) existing _ p;
        plans = plan_layers-Planned hash commands (λ _. false) layers x.instances actions left l r;
        left_over = refl;
        excess = refl;
      })

prefer-none : (o : Option Entry) → prefer o none ≡ o
prefer-none none = refl
prefer-none (some e) = refl

-- The instance of a wanted name is the latest entry of it.
pub find-latest :
    (file : String) (wanted : List String) (es : List Entry) (x : Indexed)
    → Indexes file wanted es (record { instances = []; orphans = [] }) x
    → (name : String) (index : ℤ) → contains wanted name ≡ true
    → find_instance name index x.instances ≡ latest name index es
unfolding find_instance
find-latest file wanted es x i name index w =
    i.found name index w ∙ prefer-none (latest name index es)

-- When the names of the commands are distinct and a plan is computed, its orphans are the stored
-- entries, in their order, that have a config and name no command.
pub compute_plan-orphans_of :
    (hash : Command → Option String) (file : String) (commands : List Command)
    (existing : List Entry) (plan : Plan)
    → Distinct (names commands)
    → compute_plan hash file commands existing ≡ ok plan
    → plan.orphans ≡ orphans_of (names commands) existing
compute_plan-orphans_of hash file commands existing plan d h =
    let s = compute_plan-Steps hash file commands existing plan d h in
    s.left_over ∙ s.indexes.left_over

-- When the names of the commands are distinct and a plan is computed, no stored entry has another
-- compose file recorded; the orphans of the plan are the stored entries, in their order, that have a
-- config and name no command; and its actions are those for the commands in the order of
-- `topo_layers`: for each command its replicas 1 to max(scale, 1) in turn, each with the last stored
-- entry of that name and index, if there is one, as the existing instance.
pub compute_plan-named_actions :
    (hash : Command → Option String) (file : String) (commands : List Command)
    (existing : List Entry) (plan : Plan)
    → Distinct (names commands)
    → compute_plan hash file commands existing ≡ ok plan
    → (first_foreign file existing ≡ none)
      × (plan.orphans ≡ orphans_of (names commands) existing)
      × ((layers : List (List String)) × (topo_layers commands ≡ ok layers)
          × (plan.actions
              ≡ named_actions hash commands
                  (flatten layers)
                  (λ name index. latest name index existing)))
compute_plan-named_actions hash file commands existing plan d h =
    let s = compute_plan-Steps hash file commands existing plan d h in
    (
      s.indexes.owned,
      compute_plan-orphans_of hash file commands existing plan d h,
      (
        s.layers,
        s.are_layers,
        s.plans.planned
            ∙ named_actions_ext hash commands (flatten s.layers) _ _ (λ name index m.
              find-latest file (names commands) existing s.indexed s.indexes name index
                (IsLayering-known commands (λ _. false) s.layers s.layering name m).0),
      ),
    )
