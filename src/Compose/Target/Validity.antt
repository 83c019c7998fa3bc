-- ===== src/Compose/Target/Validity.antt =====
-- cmdman/compose/target.go: which targets resolve, and which are reported as unknown.
use cmdman.Prelude.{
  ℕ, zero, suc, ◌≡◌, ◌≢◌, inl, inr, refl, ap, ◌∙◌, Bool, true, false, not, ◌&&◌, ◌||◌, List, [],
  ◌∷◌, ◌++◌, Option, leb, Bool-cases, arith,
}
use cmdman.Prelude.Text.{
  String, str_eq, str_eq_iff, str_eq_self, contains, contains-append, contains-sort, sort,
}
use cmdman.Prelude.Int.{ℤ, pos, negsuc}
use cmdman.Prelude.Results.{Result, ok, err, ◌>>=◌, >>=-err}
use cmdman.Compose.Target.{
  Target, unknown_commands, is_none, collect_unknown, Picks, count_of, pick_target, pick_all,
  target_set, no_names, resolve_targets,
}

-- 0, or an index that a command with `count` replicas has.
abbrev pub in_range : ℤ → ℕ → Bool
in_range (pos n) count = leb n count
in_range (negsuc n) count = false

-- A target that can be resolved: its command is known, and its index is 0 or one of the command's.
abbrev pub exists : (String → Option ℕ) → Target → Bool
exists replicas t =
    not (is_none (replicas t.command)) && in_range t.scale_index (count_of (replicas t.command))

abbrev pub all_exist : (String → Option ℕ) → List Target → Bool
all_exist replicas [] = true
all_exist replicas (t ∷ ts) = exists replicas t && all_exist replicas ts

abbrev all_known : (String → Option ℕ) → List Target → Bool
all_known replicas [] = true
all_known replicas (t ∷ ts) = not (is_none (replicas t.command)) && all_known replicas ts

abbrev all_in_range : (String → Option ℕ) → List Target → Bool
all_in_range replicas [] = true
all_in_range replicas (t ∷ ts) =
    in_range t.scale_index (count_of (replicas t.command)) && all_in_range replicas ts

all_exist_lem :
    (replicas : String → Option ℕ) (ts : List Target)
    → all_exist replicas ts ≡ (all_known replicas ts && all_in_range replicas ts)
all_exist_lem replicas [] = refl
all_exist_lem replicas (t ∷ ts) = ground (arith, all_exist_lem replicas ts)

no_names-append : (xs : List String) (x : String) → no_names (xs ++ (x ∷ [])) ≡ false
no_names-append [] x = refl
no_names-append (y ∷ xs) x = refl

no_names-collect_unknown :
    (replicas : String → Option ℕ) (ts : List Target) (unknown : List String)
    → no_names (collect_unknown replicas ts unknown) ≡ (no_names unknown && all_known replicas ts)
unfolding collect_unknown
no_names-collect_unknown replicas [] unknown = ground arith
no_names-collect_unknown replicas (t ∷ ts) [] = ground (
  arith,
  no_names-collect_unknown replicas ts [],
  no_names-collect_unknown replicas ts (t.command ∷ []),
)
no_names-collect_unknown replicas (t ∷ ts) (x ∷ unknown) = ground (
  arith,
  no_names-collect_unknown replicas ts (x ∷ unknown),
  no_names-collect_unknown replicas ts (x ∷ unknown ++ (t.command ∷ [])),
)

-- Only ranges decide whether the second loop ends.
abbrev pub is_ok {ℓ} : {E : Type 0} {A : Type ℓ} → Result E A → Bool
is_ok (ok a) = true
is_ok (err e) = false

is_ok->>= {ℓ κ} :
    {E : Type 0} {A : Type ℓ} {B : Type κ} (first : Result E A) (rest : A → Result E B) (b : Bool)
    → ((a : A) → is_ok (rest a) ≡ b)
    → is_ok (first >>= rest) ≡ (is_ok first && b)
is_ok->>= (ok a) rest b h = h a
is_ok->>= (err e) rest b h = refl

is_ok-pick_target :
    (replicas : String → Option ℕ) (t : Target) (p : Picks)
    → is_ok (pick_target replicas t p) ≡ in_range t.scale_index (count_of (replicas t.command))
unfolding pick_target
is_ok-pick_target replicas t p = by_index t.scale_index refl
  where
    by_index :
        (k : ℤ)
        → t.scale_index ≡ k
        → is_ok (pick_target replicas t p) ≡ in_range t.scale_index (count_of (replicas t.command))
    by_index (pos zero) e = rw e (ground arith)
    by_index (pos (suc n)) e = rw e (ground arith)
    by_index (negsuc n) e = rw e refl

is_ok-pick_all :
    (replicas : String → Option ℕ) (ts : List Target) (p : Picks)
    → is_ok (pick_all replicas ts p) ≡ all_in_range replicas ts
unfolding pick_all
is_ok-pick_all replicas [] p = refl
is_ok-pick_all replicas (t ∷ ts) p =
    is_ok->>= (pick_target replicas t p) (pick_all replicas ts) (all_in_range replicas ts)
      (λ q. is_ok-pick_all replicas ts q)
    ∙ ap (λ b. b && all_in_range replicas ts) (is_ok-pick_target replicas t p)

-- Targets resolve exactly when the command of each of them is known and its index is 0 or between 1
-- and the count of the command.
pub is_ok-resolve_targets :
    (ts : List Target) (replicas : String → Option ℕ)
    → is_ok (resolve_targets ts replicas) ≡ all_exist replicas ts
unfolding resolve_targets
is_ok-resolve_targets [] replicas = refl
is_ok-resolve_targets (t ∷ ts) replicas =
    let p : Picks = record { every = []; picked = [] } in
    let second : is_ok (pick_all replicas (t ∷ ts) p >>= λ p. ok (target_set p))
        ≡ (is_ok (pick_all replicas (t ∷ ts) p) && true) =
      is_ok->>= (pick_all replicas (t ∷ ts) p) _ true (λ q. refl) in
    ground (
      arith,
      no_names-collect_unknown replicas (t ∷ ts) [],
      all_exist_lem replicas (t ∷ ts),
      is_ok-pick_all replicas (t ∷ ts) p,
      second,
    )

abbrev pub targeted : List Target → String → Bool
targeted [] command = false
targeted (t ∷ ts) command = str_eq t.command command || targeted ts command

contains-collect_unknown :
    (replicas : String → Option ℕ) (ts : List Target) (unknown : List String) (s : String)
    → contains (collect_unknown replicas ts unknown) s
      ≡ (contains unknown s || (targeted ts s && is_none (replicas s)))
unfolding collect_unknown
contains-collect_unknown replicas [] unknown s = ground arith
contains-collect_unknown replicas (t ∷ ts) unknown s = elim (Bool-cases (str_eq t.command s)) [
  | inl q ↦
      let same : t.command ≡ s = (str_eq_iff t.command s).0 q in
      rw (same, str_eq_self s)
        (ground (
          arith,
          str_eq_self s,
          contains-collect_unknown replicas ts unknown s,
          contains-collect_unknown replicas ts (unknown ++ (s ∷ [])) s,
          contains-append unknown (s ∷ []) s,
        ))
  | inr q ↦ ground (
    arith,
    q,
    contains-collect_unknown replicas ts unknown s,
    contains-collect_unknown replicas ts (unknown ++ (t.command ∷ [])) s,
    contains-append unknown (t.command ∷ []) s,
  )
]

pick_target-known :
    (replicas : String → Option ℕ) (t : Target) (p : Picks) (names : List String)
    → pick_target replicas t p ≢ err (unknown_commands names)
unfolding pick_target
pick_target-known replicas t p names = by_index t.scale_index refl
  where
    by_index : (k : ℤ) → t.scale_index ≡ k → pick_target replicas t p ≢ err (unknown_commands names)
    by_index (pos zero) e h = let h' = rw e at h in cc
    by_index (pos (suc n)) e h = let h' = rw e at h in ground arith
    by_index (negsuc n) e h = let h' = rw e at h in cc

pick_all-known :
    (replicas : String → Option ℕ) (ts : List Target) (p : Picks) (names : List String)
    → pick_all replicas ts p ≢ err (unknown_commands names)
unfolding pick_all
pick_all-known replicas [] p names h = cc
pick_all-known replicas (t ∷ ts) p names h =
    elim (>>=-err (pick_target replicas t p) (pick_all replicas ts) h) [
      | inl e ↦ pick_target-known replicas t p names e
      | inr (q, e, r) ↦ pick_all-known replicas ts q names r
    ]

-- When unknown commands are reported, they are all the commands of targets that are not known, and
-- no others.
pub resolve_targets_unknown :
    (ts : List Target) (replicas : String → Option ℕ) (names : List String)
    → resolve_targets ts replicas ≡ err (unknown_commands names)
    → (s : String) → contains names s ≡ (targeted ts s && is_none (replicas s))
unfolding resolve_targets
resolve_targets_unknown [] replicas names h s = cc
resolve_targets_unknown (t ∷ ts) replicas names h s =
    elim (Bool-cases (no_names (collect_unknown replicas (t ∷ ts) []))) [
      | inl q ↦ elim (>>=-err (pick_all replicas (t ∷ ts) no_picks) _ (rw q at h)) [
        | inl e ↦ absurd (pick_all-known replicas (t ∷ ts) no_picks names e)
        | inr (p, e, r) ↦ cc
      ]
      | inr q ↦
          let same : sort (collect_unknown replicas (t ∷ ts) []) ≡ names =
            ground (arith, rw q at h) in
          rw (← same) (
            contains-sort (collect_unknown replicas (t ∷ ts) []) s
            ∙ contains-collect_unknown replicas (t ∷ ts) [] s)
    ]
  where
    no_picks : Picks
    no_picks = record { every = []; picked = [] }
