-- ===== src/Compose/Target/Meaning.antt =====
-- cmdman/compose/target.go: a resolved set selects what the targets name, and targets resolve exactly
-- when each of them names a replica that exists.
use cmdman.Prelude.{
  ℕ, zero, suc, ◌≡◌, ◌≢◌, inl, inr, refl, ◌∙◌, Bool, true, false, ◌&&◌, ◌||◌, List, [], ◌∷◌, ◌++◌,
  Option, none, some, if◌then◌else◌, ◌==◌, Bool-cases, arith,
}
use cmdman.Prelude.Text.{String, str_eq, str_eq_iff, str_eq_self, contains}
use cmdman.Prelude.Int.{ℤ, pos, negsuc}
use cmdman.Prelude.Results.{ok, >>=-ok}
use cmdman.Compose.Target.{
  Target, collect_unknown, Picks, elem, pick, pick_target, pick_all, insert_index, sort_indices,
  TargetSet, whole, narrowed, target_set, no_names, resolve_targets, find_target, has_index, covers,
  selects,
}

abbrev same_index : ℤ → ℤ → Bool
same_index (pos m) (pos n) = m == n
same_index (negsuc m) (negsuc n) = m == n
same_index _ _ = false

-- A target names a replica: one of its command, with its index if it has one.
abbrev pub names_replica : Target → String → ℤ → Bool
names_replica t command index =
    str_eq t.command command && (same_index t.scale_index (pos 0) || same_index t.scale_index index)

abbrev pub any_names : List Target → String → ℤ → Bool
any_names [] command index = false
any_names (t ∷ ts) command index = names_replica t command index || any_names ts command index

elem-insert_index :
    (i : ℕ) (js : List ℕ) (k : ℕ) → elem k (insert_index i js) ≡ (i == k || elem k js)
unfolding insert_index
elem-insert_index i [] k = ground arith
elem-insert_index i (j ∷ js) k = ground (arith, elem-insert_index i js k)

elem-sort_indices : (is : List ℕ) (k : ℕ) → elem k (sort_indices is) ≡ elem k is
unfolding sort_indices
elem-sort_indices [] k = refl
elem-sort_indices (i ∷ is) k =
    ground (arith, elem-insert_index i (sort_indices is) k, elem-sort_indices is k)

-- What the map of picked indices holds for a command.
abbrev picked_has : List (String × List ℕ) → String → ℤ → Bool
picked_has [] command index = false
picked_has ((key, js) ∷ rest) command index =
    let later = picked_has rest command index in
    if str_eq key command then has_index js index else later

abbrev picks_has : Picks → String → ℤ → Bool
picks_has p command index = contains p.every command || picked_has p.picked command index

has_index-add :
    (n : ℕ) (js : List ℕ) (index : ℤ)
    → has_index (if elem n js then js else n ∷ js) index
      ≡ (has_index js index || same_index (pos n) index)
has_index-add n js (pos k) = ground arith
has_index-add n js (negsuc k) = ground arith

has_index-single : (n : ℕ) (index : ℤ) → has_index (n ∷ []) index ≡ same_index (pos n) index
has_index-single n (pos k) = ground arith
has_index-single n (negsuc k) = refl

picked_has-pick :
    (name : String) (n : ℕ) (ps : List (String × List ℕ)) (command : String) (index : ℤ)
    → picked_has (pick name n ps) command index
      ≡ (picked_has ps command index || (str_eq name command && same_index (pos n) index))
unfolding pick
picked_has-pick name n [] command index = ground (arith, has_index-single n index)
picked_has-pick name n ((key, js) ∷ rest) command index = elim (Bool-cases (str_eq key name)) [
  | inl q ↦
      let same : key ≡ name = (str_eq_iff key name).0 q in
      rw (q, same) (ground (arith, has_index-add n js index))
  | inr q ↦ ground (
    arith,
    q,
    picked_has-pick name n rest command index,
    str_eq_iff key command,
    str_eq_iff name command,
    str_eq_iff key name,
  )
]

find-whole :
    (names : List String) (rest : TargetSet) (command : String)
    → find_target (whole names ++ rest) command
      ≡ (if contains names command then some none else find_target rest command)
unfolding whole
find-whole [] rest command = refl
find-whole (x ∷ names) rest command = ground (arith, find-whole names rest command)

-- What an answer of the map selects.
abbrev selected : Option (Option (List ℕ)) → ℤ → Bool
selected none index = false
selected (some none) index = true
selected (some (some indices)) index = has_index indices index

selects-find_target :
    (set : TargetSet) (command : String) (index : ℤ)
    → selects set command index ≡ selected (find_target set command) index
unfolding selects covers
selects-find_target set command index = from_found (find_target set command) refl
  where
    from_found :
        (o : Option (Option (List ℕ)))
        → find_target set command ≡ o
        → selects set command index ≡ selected (find_target set command) index
    from_found none e = rw e refl
    from_found (some none) e = rw e refl
    from_found (some (some indices)) e = rw e refl

has_index-sort_indices :
    (is : List ℕ) (index : ℤ) → has_index (sort_indices is) index ≡ has_index is index
has_index-sort_indices is (pos k) = elem-sort_indices is k
has_index-sort_indices is (negsuc k) = refl

find-narrowed :
    (every : List String) (ps : List (String × List ℕ)) (command : String) (index : ℤ)
    → contains every command ≡ false
    → selected (find_target (narrowed every ps) command) index ≡ picked_has ps command index
unfolding narrowed
find-narrowed every [] command index h = refl
find-narrowed every ((key, js) ∷ rest) command index h = elim (Bool-cases (str_eq key command)) [
  | inl q ↦
      let same : key ≡ command = (str_eq_iff key command).0 q in
      rw (same, h, str_eq_self command) (has_index-sort_indices js index)
  | inr q ↦ elim (Bool-cases (contains every key)) [
    | inl k ↦ rw (q, k) (find-narrowed every rest command index h)
    | inr k ↦ rw (q, k, q) (find-narrowed every rest command index h)
  ]
]

selects-target_set :
    (p : Picks) (command : String) (index : ℤ)
    → selects (target_set p) command index ≡ picks_has p command index
unfolding target_set
selects-target_set p command index = selects-find_target (target_set p) command index ∙ by_every
  where
    by_every : selected (find_target (target_set p) command) index ≡ picks_has p command index
    by_every = elim (Bool-cases (contains p.every command)) [
      | inl q ↦ rw (find-whole p.every (narrowed p.every p.picked) command, q) refl
      | inr q ↦
          rw (find-whole p.every (narrowed p.every p.picked) command, q)
            (find-narrowed p.every p.picked command index q)
    ]

pick_target-picks_has :
    (replicas : String → Option ℕ) (t : Target) (p : Picks) {p' : Picks} (command : String)
    (index : ℤ)
    → pick_target replicas t p ≡ ok p'
    → picks_has p' command index ≡ (picks_has p command index || names_replica t command index)
unfolding pick_target
pick_target-picks_has replicas t p {p'} command index h = by_index t.scale_index refl
  where
    by_index :
        (k : ℤ)
        → t.scale_index ≡ k
        → picks_has p' command index ≡ (picks_has p command index || names_replica t command index)
    by_index (pos zero) e = let h' = rw e at h in ground (arith, e, str_eq_iff t.command command)
    by_index (pos (suc n)) e =
        let h' = rw e at h in
        ground (arith, e, picked_has-pick t.command (suc n) p.picked command index)
    by_index (negsuc n) e = let h' = rw e at h in cc

pick_all-picks_has :
    (replicas : String → Option ℕ) (ts : List Target) (p : Picks) {p' : Picks} (command : String)
    (index : ℤ)
    → pick_all replicas ts p ≡ ok p'
    → picks_has p' command index ≡ (picks_has p command index || any_names ts command index)
unfolding pick_all
pick_all-picks_has replicas [] p command index h = ground arith
pick_all-picks_has replicas (t ∷ ts) p command index h =
    let (q, e, r) = >>=-ok (pick_target replicas t p) (pick_all replicas ts) h in
    ground (
      arith,
      pick_target-picks_has replicas t p command index e,
      pick_all-picks_has replicas ts q command index r,
    )

-- When targets resolve, at least one of them, the set selects a replica exactly when a target names
-- it: the command is the target's, and the target has no index or the index of the replica.
pub resolve_targets-selects :
    (ts : List Target) (replicas : String → Option ℕ) (set : TargetSet)
    → ts ≢ []
    → resolve_targets ts replicas ≡ ok set
    → (command : String) (index : ℤ) → selects set command index ≡ any_names ts command index
unfolding resolve_targets
resolve_targets-selects [] replicas set some_target h command index = absurd (some_target refl)
resolve_targets-selects (t ∷ ts) replicas set some_target h command index =
    elim (Bool-cases (no_names (collect_unknown replicas (t ∷ ts) []))) [
      | inr q ↦ let h' = rw q at h in cc
      | inl q ↦
          let (p, e, r) = >>=-ok (pick_all replicas (t ∷ ts) no_picks) _ (rw q at h) in
          let same : target_set p ≡ set = ground arith in
          rw (← same) (
            selects-target_set p command index
            ∙ pick_all-picks_has replicas (t ∷ ts) no_picks command index e)
    ]
  where
    no_picks : Picks
    no_picks = record { every = []; picked = [] }
