-- ===== src/Compose/Target.antt =====
-- cmdman/compose/target.go: targets of compose operations, and the replicas that they select. A
-- scale index that is kept was found to be at least 1, so it is a natural number.
pub mod Meaning
pub mod Validity
pub mod Stored
use cmdman.Prelude.{
  ℕ, zero, suc, Bool, true, false, not, ◌&&◌, ◌||◌, List, [], ◌∷◌, ◌++◌, map, Option, none, some,
  if◌then◌else◌, ltb, leb, ◌==◌, max,
}
use cmdman.Prelude.Text.{String, str_eq, contains, sort}
use cmdman.Prelude.Int.{ℤ, pos, negsuc}
use cmdman.Prelude.Results.{Result, ok, err, ◌>>=◌}
use cmdman.Compose.Spec.{Command}
use cmdman.Compose.Entry.{Entry, command_name_of, scale_index_of}

pub record Target : Type 0 where
  pub command : String
  pub scale_index : ℤ

unfoldable pub targets_of : List String → List Target
targets_of [] = []
targets_of (name ∷ names) = record { command = name; scale_index = pos 0 } ∷ targets_of names

pub data TargetError : Type 0 where
  unknown_commands : List String → TargetError
  no_replica : Target → ℕ → TargetError

abbrev pub is_none {ℓ} : {A : Type ℓ} → Option A → Bool
is_none none = true
is_none (some a) = false

-- The unknown commands, each once, in the order of the targets.
unfoldable pub collect_unknown : (String → Option ℕ) → List Target → List String → List String
collect_unknown replicas [] unknown = unknown
collect_unknown replicas (t ∷ ts) unknown = collect_unknown replicas ts (
    if is_none (replicas t.command) && not (contains unknown t.command)
    then unknown ++ (t.command ∷ [])
    else unknown)

-- The maps `every` and `picked`: the keys of the first, which holds nothing but true, and the keys of
-- the second with their sets of indices.
pub record Picks : Type 0 where
  pub every : List String
  pub picked : List (String × List ℕ)

abbrev pub elem : ℕ → List ℕ → Bool
elem i [] = false
elem i (j ∷ js) = j == i || elem i js

-- `picked[name][i] = struct{}{}`, with a new set where there is none.
unfoldable pub pick : String → ℕ → List (String × List ℕ) → List (String × List ℕ)
pick name i [] = (name, i ∷ []) ∷ []
pick name i ((key, js) ∷ rest) =
    let later = pick name i rest in
    if str_eq key name then (key, if elem i js then js else i ∷ js) ∷ rest else (key, js) ∷ later

-- `replicas[name]`, 0 for a missing key.
abbrev pub count_of : Option ℕ → ℕ
count_of none = 0
count_of (some n) = n

-- The body of the second loop.
unfoldable pub pick_target : (String → Option ℕ) → Target → Picks → Result TargetError Picks
pick_target replicas t p = elim (t.scale_index) [
  | pos zero ↦
      ok (record p { every = if contains p.every t.command then p.every else t.command ∷ p.every })
  | pos (suc n) ↦
      if ltb (count_of (replicas t.command)) (suc n)
      then err (no_replica t (count_of (replicas t.command)))
      else ok (record p { picked = pick t.command (suc n) p.picked })
  | negsuc n ↦ err (no_replica t (count_of (replicas t.command)))
]

unfoldable pub pick_all : (String → Option ℕ) → List Target → Picks → Result TargetError Picks
pick_all replicas [] p = ok p
pick_all replicas (t ∷ ts) p = pick_target replicas t p >>= pick_all replicas ts

insert_index : ℕ → List ℕ → List ℕ
insert_index i [] = i ∷ []
insert_index i (j ∷ js) = if leb i j then i ∷ j ∷ js else j ∷ insert_index i js

-- `slices.Sorted`
unfoldable pub sort_indices : List ℕ → List ℕ
unfolding insert_index
sort_indices [] = []
sort_indices (i ∷ is) = insert_index i (sort_indices is)

-- A `targetSet`: its keys with their indices, `none` for the nil slice of a whole command.
abbrev pub TargetSet : Type 0
TargetSet = List (String × Option (List ℕ))

unfoldable pub whole : List String → TargetSet
whole [] = []
whole (name ∷ names) = (name, none) ∷ whole names

unfoldable pub narrowed : List String → List (String × List ℕ) → TargetSet
narrowed every [] = []
narrowed every ((name, indices) ∷ rest) =
    let later = narrowed every rest in
    if contains every name then later else (name, some (sort_indices indices)) ∷ later

-- The last loops, over the keys of both maps.
unfoldable pub target_set : Picks → TargetSet
target_set p = whole p.every ++ narrowed p.every p.picked

abbrev pub no_names : List String → Bool
no_names [] = true
no_names (x ∷ xs) = false

-- The nil set is the empty one.
unfoldable pub resolve_targets : List Target → (String → Option ℕ) → Result TargetError TargetSet
resolve_targets [] replicas = ok []
resolve_targets (t ∷ ts) replicas =
    let unknown = collect_unknown replicas (t ∷ ts) [] in
    let set =
      pick_all replicas (t ∷ ts) (record { every = []; picked = [] }) >>= λ p. ok (target_set p) in
    if no_names unknown then set else err (unknown_commands (sort unknown))

-- `ts[name]` with its `ok`.
abbrev pub find_target : TargetSet → String → Option (Option (List ℕ))
find_target [] name = none
find_target ((key, indices) ∷ rest) name =
    let later = find_target rest name in if str_eq key name then some indices else later

-- `slices.Contains` on the selected indices.
abbrev pub has_index : List ℕ → ℤ → Bool
has_index indices (pos n) = elem n indices
has_index indices (negsuc n) = false

-- `indices == nil || slices.Contains(indices, scaleIndex)`, a missing key reading as nil.
abbrev pub covered : Option (Option (List ℕ)) → ℤ → Bool
covered (some (some indices)) index = has_index indices index
covered _ index = true

unfoldable pub covers : TargetSet → String → ℤ → Bool
covers set command scale_index = covered (find_target set command) scale_index

-- `_, ok := ts[name]; ok && ts.covers(name, index)`
unfoldable pub selects : TargetSet → String → ℤ → Bool
unfolding covers
selects set command scale_index =
    not (is_none (find_target set command)) && covers set command scale_index

unfoldable pub filter_entries : TargetSet → List Entry → List Entry
filter_entries set [] = []
filter_entries set (e ∷ es) =
    let rest = filter_entries set es in
    if selects set (command_name_of e) (scale_index_of e) then e ∷ rest else rest

unfoldable pub filter : TargetSet → List Entry → List Entry
filter [] entries = entries
filter (x ∷ set) entries = filter_entries (x ∷ set) entries

unfoldable pub replica_scoped : TargetSet → Bool
replica_scoped [] = false
replica_scoped ((name, none) ∷ rest) = replica_scoped rest
replica_scoped ((name, some indices) ∷ rest) = true

-- `max(c.Scale, 1)` for every command; the last command of a name wins, as in the Go map.
unfoldable pub declared_replicas : List Command → (String → Option ℕ) → String → Option ℕ
declared_replicas [] counts = counts
declared_replicas (c ∷ cs) counts =
    declared_replicas cs (λ name. if str_eq c.name name then some (max c.scale 1) else counts name)

abbrev pub larger : ℕ → ℤ → ℕ
larger count (pos n) = max count n
larger count (negsuc n) = count

-- The body of the loop over the entries; `has_spec` is `spec != nil`.
unfoldable pub store_replica : Bool → Entry → (String → Option ℕ) → String → Option ℕ
store_replica has_spec e counts =
    let name = command_name_of e in
    if str_eq name "" || (has_spec && is_none (counts name)) then counts else λ key.
    if str_eq name key
    then some (larger (count_of (counts name)) (scale_index_of e))
    else counts key

unfoldable pub store_replicas : Bool → List Entry → (String → Option ℕ) → String → Option ℕ
store_replicas has_spec [] counts = counts
store_replicas has_spec (e ∷ es) counts =
    store_replicas has_spec es (store_replica has_spec e counts)

-- `out[c.Name] = 0` for the commands of the spec.
unfoldable pub zero_replicas : List Command → String → Option ℕ
zero_replicas [] name = none
zero_replicas (c ∷ cs) name = if str_eq c.name name then some 0 else zero_replicas cs name

unfoldable pub stored_replicas : Option (List Command) → List Entry → String → Option ℕ
stored_replicas none es = store_replicas false es (λ name. none)
stored_replicas (some commands) es = store_replicas true es (zero_replicas commands)

abbrev keys : TargetSet → List String
keys [] = []
keys ((key, indices) ∷ rest) = key ∷ keys rest

unfoldable pub target_names : TargetSet → List String
target_names set = sort (keys set)
