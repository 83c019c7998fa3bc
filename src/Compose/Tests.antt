-- ===== src/Compose/Tests.antt =====
-- cmdman/compose: the theorems on the layering of commands, at concrete inputs.
use mathlib.Core.List.{Memᴰ}
use cmdman.Prelude.{
  Bool, false, ◌&&◌, Option, none, some, ℕ, ◌≡◌, ◌<◌, ◌↔◌, ◌⊎◌, refl, true, false, List, [], ◌∷◌,
  arith, if◌then◌else◌,
}
use cmdman.Prelude.Text.{String, str_eq, contains, sort}
use cmdman.Prelude.Results.{ok, err}
use cmdman.Compose.Spec.{AfterSpec, Command, completed}
use cmdman.Compose.Graph.{
  names, dependency_cycle, topo_layers, link_all, link_deps, link_dep, topo_loop, select, place,
  release, detect_cycle, validate_dag,
}
use cmdman.Compose.Graph.Order.{IsLayering, flatten}
use cmdman.Compose.Graph.Layers.{IsCyclic}
use cmdman.Compose.Graph.Linking.{IsUnknown}
use cmdman.Compose.Graph.Answers.{
  AllDepsKnown, IsRank, topo_layers_sound, topo_layers-errors, topo_layers_complete,
  validate_dag-layers,
}
use cmdman.Compose.Target.{
  Target, unknown_commands, is_none, collect_unknown, resolve_targets, pick, pick_target, pick_all,
  sort_indices, whole, narrowed, target_set, selects, stored_replicas,
}
use cmdman.Compose.Target.Meaning.{any_names, resolve_targets-selects}
use cmdman.Compose.Target.Validity.{
  is_ok, all_exist, is_ok-resolve_targets, targeted, exists, resolve_targets_unknown,
}
use cmdman.Prelude.Int.{pos}
use cmdman.Compose.Lifecycle.{
  LifecycleEvent, create_pre, remove_post, collect, check_releases, check_pair, check_acquires,
  validate_resource_events,
}
use cmdman.Compose.Lifecycle.Resources.{IsResource, validate_resource_events-IsResource}
use cmdman.Compose.Entry.{
  Entry, command_name_of, scale_index_of, scale_of, scale_label_value, label_command,
  label_scale_index,
}
use cmdman.Compose.Target.Stored.{stored_replicas_addressable}

abbrev command : String → List AfterSpec → Command
command name after = record { name = name; after = after; scale = 1; generated_name = name }

abbrev dep : String → AfterSpec
dep name = record { name = name; condition = completed }

abbrev chain : List Command
chain = command "b" (dep "a" ∷ []) ∷ command "a" [] ∷ []

abbrev ring : List Command
ring = command "b" (dep "a" ∷ []) ∷ command "a" (dep "b" ∷ []) ∷ []

chain-layers : topo_layers chain ≡ ok (("a" ∷ []) ∷ ("b" ∷ []) ∷ [])
unfolding topo_layers link_all link_deps link_dep topo_loop select place sort release
chain-layers = refl

ring-cycle : topo_layers ring ≡ err (dependency_cycle ("a" ∷ "b" ∷ []))
unfolding topo_layers link_all link_deps link_dep topo_loop select detect_cycle sort
ring-cycle = refl

topo_layers_sound_example :
    IsLayering chain (λ _. false) (("a" ∷ []) ∷ ("b" ∷ []) ∷ [])
    × ((c : Command)
        → Memᴰ c chain
        → contains (flatten (("a" ∷ []) ∷ ("b" ∷ []) ∷ [])) c.name ≡ true)
topo_layers_sound_example =
    topo_layers_sound chain (("a" ∷ []) ∷ ("b" ∷ []) ∷ []) (refl, (refl, tt)) chain-layers

topo_layers-errors_example :
    IsUnknown (names ring) ring (dependency_cycle ("a" ∷ "b" ∷ []))
    ⊎ ((stuck : List String) × (dependency_cycle ("a" ∷ "b" ∷ []) ≡ dependency_cycle stuck)
        × IsCyclic ring stuck)
topo_layers-errors_example =
    topo_layers-errors ring (dependency_cycle ("a" ∷ "b" ∷ [])) (refl, (refl, tt)) ring-cycle

rank : String → ℕ
rank s = if str_eq s "a" then 0 else 1

chain-known : AllDepsKnown chain
unfolding AllDepsKnown
chain-known c (Memᴰ.head e) = rw e (refl, tt)
chain-known c (Memᴰ.tail (Memᴰ.head e)) = rw e tt
chain-known c (Memᴰ.tail (Memᴰ.tail m)) = elim m [ ]

chain-IsRank : IsRank chain rank
unfolding IsRank rank
chain-IsRank c d (Memᴰ.head e) m = below (rw e at m)
  where
    below : Memᴰ d (dep "a" ∷ []) → rank d.name < rank c.name
    below (Memᴰ.head q) = rw (e, q) (omega arith)
    below (Memᴰ.tail q) = elim q [ ]
chain-IsRank c d (Memᴰ.tail (Memᴰ.head e)) m = nothing_needed (rw e at m)
  where
    nothing_needed : Memᴰ d [] → rank d.name < rank c.name
    nothing_needed q = elim q [ ]
chain-IsRank c d (Memᴰ.tail (Memᴰ.tail q)) m = elim q [ ]

topo_layers_complete_example : (layers : List (List String)) × (topo_layers chain ≡ ok layers)
topo_layers_complete_example =
    topo_layers_complete chain rank (refl, (refl, tt)) chain-known chain-IsRank

validate_dag-layers_example :
    validate_dag ring ≡ ok tt ↔ ((layers : List (List String)) × (topo_layers ring ≡ ok layers))
validate_dag-layers_example = validate_dag-layers ring (refl, (refl, tt))

two_of_web : String → Option ℕ
two_of_web s = if str_eq s "web" then some 2 else none

abbrev second_web : Target
second_web = record { command = "web"; scale_index = pos 2 }

abbrev database : Target
database = record { command = "db"; scale_index = pos 0 }

second_web-resolves :
    resolve_targets (second_web ∷ []) two_of_web ≡ ok (("web", some (2 ∷ [])) ∷ [])
unfolding resolve_targets collect_unknown two_of_web pick_all pick_target pick target_set whole
    narrowed sort_indices
second_web-resolves = refl

resolve_targets-selects_example :
    selects (("web", some (2 ∷ [])) ∷ []) "web" (pos 1) ≡ any_names (second_web ∷ []) "web" (pos 1)
resolve_targets-selects_example =
    resolve_targets-selects (second_web ∷ []) two_of_web (("web", some (2 ∷ [])) ∷ []) (λ e. cc)
      second_web-resolves "web" (pos 1)

is_ok-resolve_targets_example :
    is_ok (resolve_targets (second_web ∷ database ∷ []) two_of_web)
    ≡ all_exist two_of_web (second_web ∷ database ∷ [])
is_ok-resolve_targets_example = is_ok-resolve_targets (second_web ∷ database ∷ []) two_of_web

database-unknown : resolve_targets (database ∷ []) two_of_web ≡ err (unknown_commands ("db" ∷ []))
unfolding resolve_targets collect_unknown two_of_web sort
database-unknown = refl

resolve_targets_unknown_example :
    contains ("db" ∷ []) "db" ≡ (targeted (database ∷ []) "db" && is_none (two_of_web "db"))
resolve_targets_unknown_example =
    resolve_targets_unknown (database ∷ []) two_of_web ("db" ∷ []) database-unknown "db"

web_labels : String → String
web_labels key =
    if str_eq key label_command then "web" else if str_eq key label_scale_index then "2" else ""

abbrev web_entry : Entry
web_entry = record { name = "web-2"; labels = some web_labels }

web_entry-named : str_eq (command_name_of web_entry) "" ≡ false
unfolding command_name_of web_labels
web_entry-named = refl

web_entry-index : scale_index_of web_entry ≡ pos 2
unfolding scale_index_of scale_of scale_label_value web_labels
web_entry-index = refl

stored_replicas_addressable_example :
    exists
      (stored_replicas none (web_entry ∷ []))
      (record { command = command_name_of web_entry; scale_index = pos 2 })
    ≡ true
stored_replicas_addressable_example =
    stored_replicas_addressable none (web_entry ∷ []) web_entry 2 (Memᴰ.head refl) web_entry-named
      refl web_entry-index

-- A resource that is acquired before the create and released after the remove.
at_both_ends : LifecycleEvent → Bool
at_both_ends create_pre = true
at_both_ends remove_post = true
at_both_ends _ = false

at_both_ends-valid : validate_resource_events at_both_ends ≡ ok tt
unfolding validate_resource_events at_both_ends collect check_acquires check_pair check_releases
at_both_ends-valid = refl

validate_resource_events-IsResource_example : IsResource at_both_ends
validate_resource_events-IsResource_example =
    validate_resource_events-IsResource at_both_ends at_both_ends-valid
