-- ===== src/Compose/Plan/Members.antt =====
-- cmdman/compose/plan.go: the members of the lists in a plan.
use mathlib.Core.List.{Memᴰ}
use cmdman.Prelude.{
  ℕ, zero, suc, ◌+◌, ◌≤◌, ◌<◌, ◌≡◌, ◌⊎◌, inl, inr, refl, sym, ap, subst, ◌∙◌, true, ◌&&◌, List, [],
  ◌∷◌, ◌++◌, Option, some, Bool-cases, Option-cases, arith,
}
use cmdman.Prelude.Text.{String, str_eq_self, contains, Distinct}
use cmdman.Prelude.Int.{ℤ, pos}
use cmdman.Compose.Spec.{Command}
use cmdman.Compose.Entry.{Entry}
use cmdman.Compose.Graph.{names}
use cmdman.Compose.Graph.Degrees.{contains-name}
use cmdman.Compose.Plan.{CommandAction, is_instance, replica_action, replica_count, command_by_name}
use cmdman.Compose.Plan.Instances.{latest, has_config}
use cmdman.Compose.Plan.Actions.{replica_actions, hash_of, named_actions}

pub command_by_name-name :
    (cs : List Command) (c : Command)
    → Distinct (names cs)
    → Memᴰ c cs
    → command_by_name cs c.name ≡ c
unfolding command_by_name
command_by_name-name (x ∷ cs) c d (Memᴰ.head e) = rw (e, d.0, str_eq_self x.name) refl
command_by_name-name (x ∷ cs) c d (Memᴰ.tail m) =
    rw (contains-name cs c m) (command_by_name-name cs c d.1 m)
command_by_name-name [] c d m = absurd (elim m [ ])

-- An entry with a config and a key is found, as itself or as a later one.
pub latest_found :
    (name : String) (index : ℤ) (es : List Entry) (e : Entry)
    → Memᴰ e es
    → has_config e ≡ true
    → is_instance name index e ≡ true
    → (found : Entry) × (latest name index es ≡ some found)
latest_found name index [] e m c h = absurd (elim m [ ])
latest_found name index (x ∷ es) e (Memᴰ.head q) c h = elim (Option-cases (latest name index es)) [
  | inl p ↦ (x, rw (p, ← q, c, h) refl)
  | inr (y, p) ↦ (y, rw p refl)
]
latest_found name index (x ∷ es) e (Memᴰ.tail m) c h =
    let (y, p) = latest_found name index es e m c h in (y, rw p refl)

pub latest-Mem :
    (name : String) (index : ℤ) (es : List Entry) (found : Entry)
    → latest name index es ≡ some found
    → Memᴰ found es × (is_instance name index found ≡ true)
latest-Mem name index [] found h = cc
latest-Mem name index (x ∷ es) found h = elim (Option-cases (latest name index es)) [
  | inr (y, p) ↦
      let same : y ≡ found = ground (arith, rw p at h) in
      let (m, q) = latest-Mem name index es found (p ∙ ap some same) in (Memᴰ.tail m, q)
  | inl p ↦ elim (Bool-cases (has_config x && is_instance name index x)) [
    | inl q ↦
        let same : x ≡ found = ground (arith, rw (p, q) at h) in
        (
          Memᴰ.head (sym same),
          subst (λ e. is_instance name index e ≡ true) same (ground (arith, q)),
        )
    | inr q ↦ let no = rw (p, q) at h in cc
  ]
]

pub Mem-append {ℓ} :
    {A : Type ℓ} (xs ys : List A) (a : A) → Memᴰ a (xs ++ ys) → Memᴰ a xs ⊎ Memᴰ a ys
Mem-append [] ys a m = inr m
Mem-append (x ∷ xs) ys a (Memᴰ.head e) = inl (Memᴰ.head e)
Mem-append (x ∷ xs) ys a (Memᴰ.tail m) = elim (Mem-append xs ys a m) [
  | inl k ↦ inl (Memᴰ.tail k)
  | inr k ↦ inr k
]

pub append-Mem {ℓ} :
    {A : Type ℓ} (xs ys : List A) (a : A) → Memᴰ a xs ⊎ Memᴰ a ys → Memᴰ a (xs ++ ys)
append-Mem [] ys a (inl m) = absurd (elim m [ ])
append-Mem [] ys a (inr m) = m
append-Mem (x ∷ xs) ys a (inl (Memᴰ.head e)) = Memᴰ.head e
append-Mem (x ∷ xs) ys a (inl (Memᴰ.tail m)) = Memᴰ.tail (append-Mem xs ys a (inl m))
append-Mem (x ∷ xs) ys a (inr m) = Memᴰ.tail (append-Mem xs ys a (inr m))

-- An action is one for a replica of a named command.
pub Mem-named_actions :
    (hash : Command → Option String) (commands : List Command) (layered : List String)
    (lookup : String → ℤ → Option Entry) (a : CommandAction)
    → Memᴰ a (named_actions hash commands layered lookup)
    → (name : String) × (index : ℕ) × (contains layered name ≡ true)
      × (1 ≤ index)
      × (index < 1 + replica_count (command_by_name commands name))
      × (a
          ≡ replica_action
              (command_by_name commands name)
              (hash_of hash (command_by_name commands name))
              index
              (lookup name (pos index)))
Mem-named_actions hash commands [] lookup a m = absurd (elim m [ ])
Mem-named_actions hash commands (x ∷ xs) lookup a m =
    elim (Mem-append (replica_actions (command_by_name commands x) _ 1 _ (lookup x)) _ a m) [
      | inl k ↦
          let (index, low, high, e) = of_replica 1 (replica_count (command_by_name commands x)) k in
          (x, index, rw (str_eq_self x) refl, low, high, e)
      | inr k ↦
          let (name, index, c, low, high, e) = Mem-named_actions hash commands xs lookup a k in
          (name, index, ground (arith, c), low, high, e)
    ]
  where
    of_replica :
        (from count : ℕ)
        → Memᴰ a (
            replica_actions
              (command_by_name commands x)
              (hash_of hash (command_by_name commands x))
              from
              count
              (lookup x))
        → (index : ℕ) × (from ≤ index)
          × (index < from + count)
          × (a
              ≡ replica_action
                  (command_by_name commands x)
                  (hash_of hash (command_by_name commands x))
                  index
                  (lookup x (pos index)))
    of_replica from zero k = absurd (elim k [ ])
    of_replica from (suc count) (Memᴰ.head e) = (from, omega arith, omega arith, e)
    of_replica from (suc count) (Memᴰ.tail k) =
        let (index, low, high, e) = of_replica (suc from) count k in
        (index, omega (arith, low), omega (arith, high), e)
