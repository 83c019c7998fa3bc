-- ===== src/Compose/Plan/Tests.antt =====
-- cmdman/compose/plan.go: plans at concrete inputs.
use mathlib.Core.List.{Memᴰ}
use cmdman.Compose.Labels.{ProjectSpec, build_labels}
use cmdman.Compose.Labels.RoundTrip.{scale_of-build_labels}
use cmdman.Compose.Plan.Created.{created_all}
use cmdman.Compose.Plan.Convergence.{compute_plan-created_all}
use cmdman.Prelude.{
  ◌<◌, ◌^◌, arith, ◌≡◌, ◌↔◌, refl, true, false, List, [], ◌∷◌, Option, none, some, if◌then◌else◌,
}
use cmdman.Prelude.Int.{pos}
use cmdman.Prelude.Digits.{itoa}
use cmdman.Prelude.Text.{String, str_eq, contains}
use cmdman.Prelude.Results.{ok, err}
use cmdman.Compose.Spec.{Command, completed}
use cmdman.Compose.Entry.{
  Entry, command_name_of, scale_index_of, scale_of, scale_label_value, label_command,
  label_scale_index, label_config_hash, label_file,
}
use cmdman.Compose.Graph.{
  names, topo_layers, link_all, link_deps, link_dep, topo_loop, select, place, release,
  detect_cycle, validate_dag, check_all,
}
use cmdman.Compose.Graph.Order.{flatten}
use cmdman.Compose.Plan.{
  Plan, CommandAction, action_create, action_recreate, action_unchanged, project_collision,
  compute_plan, index_entries, index_entry, plan_layers, plan_names, plan_replicas, replica_action,
  instance_name, sort_by_name, find_instance, put_instance, delete_instance, command_by_name,
}
use cmdman.Compose.Plan.Instances.{latest, orphans_of, first_foreign}
use cmdman.Compose.Plan.Actions.{named_actions}
use cmdman.Compose.Plan.Outcome.{compute_plan-named_actions}
use cmdman.Compose.Plan.Excess.{is_desired, compute_plan-is_desired}
use cmdman.Compose.Plan.Totality.{compute_plan-first_foreign, compute_plan_total}

abbrev digest : Command → Option String
digest c = some "h"

-- "web" needs "db" and has two replicas.
abbrev web : Command
web = record {
  name = "web";
  after = record { name = "db"; condition = completed } ∷ [];
  scale = 2;
  generated_name = "p-web";
}

abbrev db : Command
db = record { name = "db"; after = []; scale = 0; generated_name = "p-db" }

abbrev desired : List Command
desired = web ∷ db ∷ []

stored_labels : String → String → String → String → String
stored_labels command index hash key =
    if str_eq key label_command
    then command
    else if str_eq key label_scale_index
    then index
    else if str_eq key label_config_hash
    then hash
    else if str_eq key label_file
    then "/p/c.yaml"
    else ""

abbrev entry : String → String → String → String → Entry
entry name command index hash = record {
  name = name;
  labels = some (stored_labels command index hash);
}

abbrev web_1 : Entry
web_1 = entry "p-web-1" "web" "1" "h"

abbrev web_2 : Entry
web_2 = entry "p-web-2" "web" "2" "g"

abbrev web_3 : Entry
web_3 = entry "p-web-3" "web" "3" "g"

abbrev old : Entry
old = entry "p-old-1" "old" "1" "h"

abbrev stored : List Entry
stored = web_3 ∷ old ∷ web_2 ∷ web_1 ∷ []

abbrev expected : Plan
expected = record {
  actions =
      record {
        kind = action_create;
        desired = db;
        scale_index = 1;
        instance_name = "p-db-1";
        existing = none;
        desired_hash = "h";
      }
      ∷ record {
        kind = action_unchanged;
        desired = web;
        scale_index = 1;
        instance_name = "p-web-1";
        existing = some web_1;
        desired_hash = "h";
      }
      ∷ record {
        kind = action_recreate;
        desired = web;
        scale_index = 2;
        instance_name = "p-web-2";
        existing = some web_2;
        desired_hash = "h";
      }
      ∷ [];
  orphans = old ∷ [];
  excess_replicas = web_3 ∷ [];
}

planned : compute_plan digest "/p/c.yaml" desired stored ≡ ok expected
unfolding compute_plan validate_dag check_all cmdman.Compose.Graph.check_deps topo_layers link_all
    link_deps link_dep topo_loop select place cmdman.Prelude.Text.sort release index_entry
    stored_labels command_name_of plan_names plan_replicas scale_index_of scale_label_value scale_of
    detect_cycle command_by_name delete_instance find_instance index_entries instance_name
    plan_layers put_instance replica_action sort_by_name cmdman.Prelude.Digits.decimal itoa
    cmdman.Prelude.Digits.decimal_from
planned = refl

compute_plan-named_actions_example :
    (first_foreign "/p/c.yaml" stored ≡ none)
    × (old ∷ [] ≡ orphans_of (names desired) stored)
    × ((layers : List (List String)) × (topo_layers desired ≡ ok layers)
        × (expected.actions
            ≡ named_actions digest desired
                (flatten layers)
                (λ name index. latest name index stored)))
compute_plan-named_actions_example =
    compute_plan-named_actions digest "/p/c.yaml" desired stored expected (refl, (refl, tt)) planned

compute_plan-is_desired_example :
    Memᴰ web_3 (web_3 ∷ [])
    ↔ (contains (names desired) (command_name_of web_3) ≡ true)
      × (latest (command_name_of web_3) (scale_index_of web_3) stored ≡ some web_3)
      × (is_desired desired web_3 ≡ false)
compute_plan-is_desired_example =
    compute_plan-is_desired digest "/p/c.yaml" desired stored expected (refl, (refl, tt)) planned
      web_3

desired-valid : validate_dag desired ≡ ok tt
unfolding validate_dag check_all cmdman.Compose.Graph.check_deps topo_layers link_all link_deps
    link_dep topo_loop select place cmdman.Prelude.Text.sort release detect_cycle
desired-valid = refl

stored-foreign : first_foreign "/q/c.yaml" stored ≡ some "/p/c.yaml"
unfolding stored_labels
stored-foreign = refl

compute_plan-first_foreign_example :
    compute_plan digest "/q/c.yaml" desired stored ≡ err (project_collision "/p/c.yaml")
compute_plan-first_foreign_example =
    compute_plan-first_foreign digest "/q/c.yaml" desired stored "/p/c.yaml" desired-valid
      stored-foreign

stored-owned : first_foreign "/p/c.yaml" stored ≡ none
unfolding stored_labels
stored-owned = refl

compute_plan_total_example :
    (plan : Plan) × (compute_plan digest "/p/c.yaml" desired stored ≡ ok plan)
compute_plan_total_example =
    compute_plan_total digest "/p/c.yaml" desired stored (refl, (refl, tt)) desired-valid
      stored-owned (λ c. ("h", refl))

abbrev project : ProjectSpec
project = record { project = "p"; work_dir = "/p"; compose_file = "/p/c.yaml" }

desired-bounded : (c : Command) → Memᴰ c desired → c.scale < 2 ^ 63
desired-bounded c (Memᴰ.head e) = rw e (omega arith)
desired-bounded c (Memᴰ.tail (Memᴰ.head e)) = rw e (omega arith)
desired-bounded c (Memᴰ.tail (Memᴰ.tail m)) = elim m [ ]

abbrev nothing : List String
nothing = []

compute_plan-created_all_example :
    (plan : Plan) × (compute_plan digest "/p/c.yaml" desired (
        created_all
          (λ _. "[]")
          (λ (_ : List String). "[]")
          project
          (λ c k. "")
          (λ c. nothing)
          digest
          desired)
      ≡ ok plan)
    × (plan.orphans ≡ [])
    × (plan.excess_replicas ≡ [])
    × ((a : CommandAction) → Memᴰ a plan.actions → a.kind ≡ action_unchanged)
compute_plan-created_all_example =
    compute_plan-created_all (λ _. "[]") (λ (_ : List String). "[]") project (λ c k. "")
      (λ c. nothing) digest desired (refl, (refl, tt)) desired-bounded desired-valid
      (λ c. ("h", refl))

scale_of-build_labels_example :
    (build_labels
        (λ _. "[]")
        (λ (_ : List String). "[]")
        project
        web
        (λ k. "")
        nothing
        "h"
        2
        label_command
      ≡ "web")
    × (build_labels
          (λ _. "[]")
          (λ (_ : List String). "[]")
          project
          web
          (λ k. "")
          nothing
          "h"
          2
          label_config_hash
        ≡ "h")
    × (build_labels
          (λ _. "[]")
          (λ (_ : List String). "[]")
          project
          web
          (λ k. "")
          nothing
          "h"
          2
          label_file
        ≡ "/p/c.yaml")
    × (scale_of
          (build_labels (λ _. "[]") (λ (_ : List String). "[]") project web (λ k. "") nothing "h" 2)
        ≡ (pos 2, pos 2))
scale_of-build_labels_example =
    scale_of-build_labels (λ _. "[]") (λ (_ : List String). "[]") project web (λ k. "") nothing "h"
      2 (omega arith) (omega arith)
