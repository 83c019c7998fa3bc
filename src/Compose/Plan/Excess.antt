-- ===== src/Compose/Plan/Excess.antt =====
-- cmdman/compose/plan.go: the surplus replicas that `ComputePlan` reports.
use mathlib.Core.List.{Memᴰ}
use cmdman.Prelude.{
  ◌≡◌, ◌↔◌, refl, sym, ap, subst, ◌∙◌, Bool, true, false, List, [], ◌∷◌, Option, some, arith, ◌⊎◌,
  inl, inr, Bool-cases,
}
use cmdman.Prelude.Text.{String, str_eq, str_eq_iff, str_eq_self, contains, Distinct}
use cmdman.Prelude.Results.{ok}
use cmdman.Compose.Spec.{Command}
use cmdman.Compose.Entry.{Entry, command_name_of, scale_index_of}
use cmdman.Compose.Graph.{names}
use cmdman.Compose.Graph.Order.{flatten}
use cmdman.Compose.Plan.{
  Plan, replica_count, command_by_name, sort_by_name, insert_by_name, name_leb, compute_plan,
}
use cmdman.Compose.Plan.Keys.{find_instance-Mem, Tidy, Tidy-find_instance}
use cmdman.Compose.Plan.Instances.{latest}
use cmdman.Compose.Plan.Actions.{leave, in_span, is_planned}
use cmdman.Compose.Plan.Planned.{is_planned-other}
use cmdman.Compose.Plan.Outcome.{Steps, find-latest, compute_plan-Steps}

Mem-leave :
    (test : Entry → Bool) (es : List Entry) (e : Entry)
    → Memᴰ e (leave test es)
    → Memᴰ e es × (test e ≡ false)
Mem-leave test [] e m = absurd (elim m [ ])
Mem-leave test (x ∷ es) e m = elim (Bool-cases (test x)) [
  | inl q ↦
      let at_rest : Memᴰ e (leave test es) = rw q at m in
      let (k, p) = Mem-leave test es e at_rest in (Memᴰ.tail k, p)
  | inr q ↦ kept q (Mem-leave test es e) (rw q at m)
]
  where
    kept :
        test x ≡ false
        → (Memᴰ e (leave test es) → Memᴰ e es × (test e ≡ false))
        → Memᴰ e (x ∷ leave test es)
        → Memᴰ e (x ∷ es) × (test e ≡ false)
    kept q rest (Memᴰ.head p) = (Memᴰ.head p, rw p q)
    kept q rest (Memᴰ.tail k) = let (n, p) = rest k in (Memᴰ.tail n, p)

leave-Mem :
    (test : Entry → Bool) (es : List Entry) (e : Entry)
    → Memᴰ e es
    → test e ≡ false
    → Memᴰ e (leave test es)
leave-Mem test [] e m q = absurd (elim m [ ])
leave-Mem test (x ∷ es) e (Memᴰ.head p) q =
    let shut : test x ≡ false = rw (← p) q in rw shut (Memᴰ.head p)
leave-Mem test (x ∷ es) e (Memᴰ.tail m) q = elim (Bool-cases (test x)) [
  | inl t ↦ rw t (leave-Mem test es e m q)
  | inr t ↦ rw t (Memᴰ.tail (leave-Mem test es e m q))
]

Mem-insert :
    (x : Entry) (es : List Entry) (e : Entry) → Memᴰ e (insert_by_name x es) ↔ (e ≡ x ⊎ Memᴰ e es)
unfolding insert_by_name
Mem-insert x [] e = (
  λ m. elim m [ Memᴰ.head p ↦ inl p | Memᴰ.tail k ↦ absurd (elim k [ ]) ],
  λ s. elim s [ inl p ↦ Memᴰ.head p | inr k ↦ absurd (elim k [ ]) ],
)
Mem-insert x (y ∷ es) e = elim (Bool-cases (name_leb x y)) [
  | inl q ↦ rw q (
    λ m. elim m [ Memᴰ.head p ↦ inl p | Memᴰ.tail k ↦ inr k ],
    λ s. elim s [ inl p ↦ Memᴰ.head p | inr k ↦ Memᴰ.tail k ],
  )
  | inr q ↦ rw q (away (Mem-insert x es e), back (Mem-insert x es e))
]
  where
    away :
        (Memᴰ e (insert_by_name x es) ↔ (e ≡ x ⊎ Memᴰ e es))
        → Memᴰ e (y ∷ insert_by_name x es)
        → (e ≡ x ⊎ Memᴰ e (y ∷ es))
    away h (Memᴰ.head p) = inr (Memᴰ.head p)
    away h (Memᴰ.tail k) = elim (h.0 k) [ inl p ↦ inl p | inr n ↦ inr (Memᴰ.tail n) ]

    back :
        (Memᴰ e (insert_by_name x es) ↔ (e ≡ x ⊎ Memᴰ e es))
        → (e ≡ x ⊎ Memᴰ e (y ∷ es))
        → Memᴰ e (y ∷ insert_by_name x es)
    back h (inl p) = Memᴰ.tail (h.1 (inl p))
    back h (inr (Memᴰ.head p)) = Memᴰ.head p
    back h (inr (Memᴰ.tail k)) = Memᴰ.tail (h.1 (inr k))

Mem-sort : (es : List Entry) (e : Entry) → Memᴰ e (sort_by_name es) ↔ Memᴰ e es
unfolding sort_by_name
Mem-sort [] e = (λ m. m, λ m. m)
Mem-sort (x ∷ es) e = (away (Mem-sort es e), back (Mem-sort es e))
  where
    away :
        (Memᴰ e (sort_by_name es) ↔ Memᴰ e es)
        → Memᴰ e (insert_by_name x (sort_by_name es))
        → Memᴰ e (x ∷ es)
    away h m = elim ((Mem-insert x (sort_by_name es) e).0 m) [
      | inl p ↦ Memᴰ.head p
      | inr k ↦ Memᴰ.tail (h.0 k)
    ]

    back :
        (Memᴰ e (sort_by_name es) ↔ Memᴰ e es)
        → Memᴰ e (x ∷ es)
        → Memᴰ e (insert_by_name x (sort_by_name es))
    back h (Memᴰ.head p) = (Mem-insert x (sort_by_name es) e).1 (inl p)
    back h (Memᴰ.tail k) = (Mem-insert x (sort_by_name es) e).1 (inr (h.1 k))

-- The index is that of a desired replica of the entry's command.
abbrev pub is_desired : List Command → Entry → Bool
is_desired commands e =
    in_span 1 (replica_count (command_by_name commands (command_name_of e))) (scale_index_of e)

is_planned-is_desired :
    (commands : List Command) (layered : List String) (e : Entry)
    → contains layered (command_name_of e) ≡ true
    → is_planned commands layered e ≡ is_desired commands e
is_planned-is_desired commands [] e h = cc
is_planned-is_desired commands (x ∷ xs) e h = elim (Bool-cases (str_eq x (command_name_of e))) [
  | inl q ↦
      let same : x ≡ command_name_of e = (str_eq_iff x (command_name_of e)).0 q in
      rw (same, str_eq_self (command_name_of e))
        (elim (Bool-cases (contains xs (command_name_of e))) [
          | inl m ↦ rw (is_planned-is_desired commands xs e m) (ground arith)
          | inr m ↦
              rw
                (is_planned-other commands xs (command_name_of e) e m
                  (str_eq_self (command_name_of e)))
                (ground arith)
        ])
  | inr q ↦
      rw (is_planned-is_desired commands xs e (ground (arith, h, q)))
        (ground (arith, q, str_eq_iff x (command_name_of e), str_eq_iff (command_name_of e) x))
]

pub command_with_name :
    (cs : List Command) (s : String)
    → contains (names cs) s ≡ true
    → (c : Command) × Memᴰ c cs × (c.name ≡ s)
command_with_name [] s h = cc
command_with_name (x ∷ cs) s h = elim (Bool-cases (str_eq x.name s)) [
  | inl q ↦ (x, Memᴰ.head refl, (str_eq_iff x.name s).0 q)
  | inr q ↦ let (c, m, p) = command_with_name cs s (ground (arith, h, q)) in (c, Memᴰ.tail m, p)
]

-- When the names of the commands are distinct and a plan is computed, its surplus replicas are just
-- the stored entries that name a command, are the last of their name and index, and have an index
-- that is not from 1 to the command's max(scale, 1).
pub compute_plan-is_desired :
    (hash : Command → Option String) (file : String) (commands : List Command)
    (existing : List Entry) (plan : Plan)
    → Distinct (names commands)
    → compute_plan hash file commands existing ≡ ok plan
    → (e : Entry)
    → Memᴰ e plan.excess_replicas
      ↔ (contains (names commands) (command_name_of e) ≡ true)
        × (latest (command_name_of e) (scale_index_of e) existing ≡ some e)
        × (is_desired commands e ≡ false)
compute_plan-is_desired hash file commands existing plan d h e = (away, back)
  where
    s : Steps hash file commands existing plan
    s = compute_plan-Steps hash file commands existing plan d h

    tidy : Tidy (names commands) s.indexed.instances
    tidy = s.indexes.tidy tt

    left_eq : s.left ≡ leave (is_planned commands (flatten s.layers)) s.indexed.instances
    left_eq = s.plans.remaining

    layered :
        contains (names commands) (command_name_of e) ≡ true
        → contains (flatten s.layers) (command_name_of e) ≡ true
    layered w =
        let (c, m, p) = command_with_name commands (command_name_of e) w in
        ap (contains (flatten s.layers)) (sym p) ∙ s.covers c m

    away :
        Memᴰ e plan.excess_replicas
        → (contains (names commands) (command_name_of e) ≡ true)
          × (latest (command_name_of e) (scale_index_of e) existing ≡ some e)
          × (is_desired commands e ≡ false)
    away m =
        let m1 : Memᴰ e s.left = (Mem-sort s.left e).0 (subst (Memᴰ e) s.excess m) in
        let (m2, q) = Mem-leave _ s.indexed.instances e (subst (Memᴰ e) left_eq m1) in
        let (w, f) = Tidy-find_instance (names commands) s.indexed.instances e tidy m2 in
        (
          w,
          sym (find-latest file (names commands) existing s.indexed s.indexes _ _ w) ∙ f,
          sym (is_planned-is_desired commands (flatten s.layers) e (layered w)) ∙ q,
        )

    back :
        (contains (names commands) (command_name_of e) ≡ true)
          × (latest (command_name_of e) (scale_index_of e) existing ≡ some e)
          × (is_desired commands e ≡ false)
        → Memᴰ e plan.excess_replicas
    back (w, f, q) =
        let found =
          find_instance-Mem (command_name_of e) (scale_index_of e) s.indexed.instances e
            (find-latest file (names commands) existing s.indexed s.indexes _ _ w ∙ f) in
        let m1 : Memᴰ e s.left = subst (Memᴰ e) (sym left_eq) (
          leave-Mem _ s.indexed.instances e found.0
            (is_planned-is_desired commands (flatten s.layers) e (layered w) ∙ q)) in
        subst (Memᴰ e) (sym s.excess) ((Mem-sort s.left e).1 m1)
