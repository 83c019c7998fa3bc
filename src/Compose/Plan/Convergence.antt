-- ===== src/Compose/Plan/Convergence.antt =====
-- cmdman/compose/plan.go and service_create.go: a plan against the entries that the creates of a plan
-- leave in the store.
use mathlib.Core.List.{Memᴰ}
use cmdman.Prelude.{
  ℕ, ◌+◌, ◌≤◌, ◌<◌, ◌^◌, ◌≡◌, refl, sym, ap, subst, ◌∙◌, true, false, List, [], ◌∷◌, Option, some,
  none, arith,
}
use cmdman.Prelude.Text.{String, str_eq_iff, str_eq_self, contains, Distinct}
use cmdman.Prelude.Int.{pos}
use cmdman.Prelude.Results.{ok}
use cmdman.Compose.Spec.{AfterSpec, Command}
use cmdman.Compose.Entry.{Entry, command_name_of}
use cmdman.Compose.Graph.{names, validate_dag}
use cmdman.Compose.Graph.Degrees.{contains-name}
use cmdman.Compose.Graph.Order.{flatten}
use cmdman.Compose.Labels.{ProjectSpec}
use cmdman.Compose.Plan.{
  Plan, CommandAction, action_unchanged, replica_action, replica_count, stored_hash,
  command_by_name, compute_plan,
}
use cmdman.Compose.Plan.Keys.{same_int_self}
use cmdman.Compose.Plan.Instances.{latest, orphans_of, first_foreign}
use cmdman.Compose.Plan.Actions.{in_span, hash_of}
use cmdman.Compose.Plan.Outcome.{compute_plan-orphans_of, compute_plan-named_actions}
use cmdman.Compose.Graph.Answers.{topo_layers_sound}
use cmdman.Compose.Plan.Totality.{compute_plan_total}
use cmdman.Compose.Plan.Excess.{is_desired, compute_plan-is_desired}
use cmdman.Compose.Plan.Layered.{IsLayering-known}
use cmdman.Compose.Plan.Excess.{command_with_name}
use cmdman.Compose.Plan.Members.{command_by_name-name, latest_found, latest-Mem, Mem-named_actions}
use cmdman.Compose.Plan.Created.{
  created, created_all, Mem-created_all, created_all-Mem, created_identity,
}

no_members {ℓ} : {A : Type ℓ} (xs : List A) → ((a : A) → Memᴰ a xs → ⊥) → xs ≡ []
no_members [] h = refl
no_members (x ∷ xs) h = absurd (h x (Memᴰ.head refl))

no_orphans :
    (wanted : List String) (es : List Entry)
    → ((e : Entry) → Memᴰ e es → contains wanted (command_name_of e) ≡ true)
    → orphans_of wanted es ≡ []
no_orphans wanted [] h = refl
no_orphans wanted (e ∷ es) h =
    ground (arith, h e (Memᴰ.head refl), no_orphans wanted es (λ x m. h x (Memᴰ.tail m)))

no_foreign :
    (file : String) (es : List Entry)
    → ((e : Entry) → Memᴰ e es → first_foreign file (e ∷ []) ≡ none)
    → first_foreign file es ≡ none
no_foreign file [] h = refl
no_foreign file (e ∷ es) h =
    ground (arith, h e (Memᴰ.head refl), no_foreign file es (λ x m. h x (Memᴰ.tail m)))

in_span-pos : (count n : ℕ) → 1 ≤ n → n < 1 + count → in_span 1 count (pos n) ≡ true
in_span-pos count n low high = ground (arith, low, high)

module _ {ℓ} {Hook : Type ℓ} (marshal_after : List AfterSpec → String)
    (marshal_hooks : List Hook → String) (spec : ProjectSpec)
    (user_labels : Command → String → String) (hooks : Command → List Hook)
    (hash : Command → Option String) (commands : List Command) (d : Distinct (names commands))
    (bounded : (c : Command) → Memᴰ c commands → c.scale < 2 ^ 63) where
  abbrev existing : List Entry
  existing = created_all marshal_after marshal_hooks spec user_labels hooks hash commands

  -- A member of the created entries, by what is read back from it.
  identity :
      (e : Entry)
      → Memᴰ e existing
      → (c : Command) × Memᴰ c commands
        × (command_name_of e ≡ c.name)
        × (is_desired commands e ≡ true)
        × (stored_hash e ≡ hash_of hash c)
        × (first_foreign spec.compose_file (e ∷ []) ≡ none)
  identity e m =
      let (c, index, n, low, high, q) =
        Mem-created_all marshal_after marshal_hooks spec user_labels hooks hash commands e m in
      let (name, at, digest, file) =
        created_identity marshal_after marshal_hooks spec user_labels hooks hash c index
          (bounded c n) high in
      (
        c,
        n,
        ap command_name_of q ∙ name,
        ap (is_desired commands) q
            ∙ rw (name, at, command_by_name-name commands c d n)
                (in_span-pos (replica_count c) index low high),
        ap stored_hash q ∙ digest,
        ap (λ x. first_foreign spec.compose_file (x ∷ [])) q ∙ file,
      )

  -- The last entry of a desired replica has the hash of the command.
  latest-unchanged :
      (c : Command) (index : ℕ)
      → Memᴰ c commands
      → 1 ≤ index
      → index < 1 + replica_count c
      → (replica_action c (hash_of hash c) index (latest c.name (pos index) existing)).kind
        ≡ action_unchanged
  unfolding replica_action
  latest-unchanged c index m low high =
      let (name, at, digest, file) =
        created_identity marshal_after marshal_hooks spec user_labels hooks hash c index
          (bounded c m) high in
      let (found, p) =
        latest_found c.name (pos index) existing
          (created marshal_after marshal_hooks spec user_labels hooks hash c index)
          (created_all-Mem marshal_after marshal_hooks spec user_labels hooks hash commands c index
            m low high)
          refl (rw (name, at, str_eq_self c.name, same_int_self (pos index)) refl) in
      let (n, q) = latest-Mem c.name (pos index) existing found p in
      let (c', m', name', desired', digest', file') = identity found n in
      let same_name : c'.name ≡ c.name =
        sym name' ∙ (str_eq_iff (command_name_of found) c.name).0 (ground (arith, q)) in
      let same : c' ≡ c =
        sym (command_by_name-name commands c' d m')
        ∙ ap (command_by_name commands) same_name
        ∙ command_by_name-name commands c d m in
      let hashed : stored_hash found ≡ hash_of hash c = digest' ∙ ap (hash_of hash) same in
      rw (p, hashed, str_eq_self (hash_of hash c)) refl

  -- A plan that is computed against the created entries changes nothing.
  changes_nothing :
      (plan : Plan)
      → compute_plan hash spec.compose_file commands existing ≡ ok plan
      → (plan.orphans ≡ [])
        × (plan.excess_replicas ≡ [])
        × ((a : CommandAction) → Memᴰ a plan.actions → a.kind ≡ action_unchanged)
  changes_nothing plan h = (
    compute_plan-orphans_of hash spec.compose_file commands existing plan d h
        ∙ no_orphans (names commands) existing (λ e m.
          let (c, n, name, on, digest, file) = identity e m in
          ap (contains (names commands)) name ∙ contains-name commands c n),
    no_members plan.excess_replicas (λ e m.
        let (w, l, off) =
          (compute_plan-is_desired hash spec.compose_file commands existing plan d h e).0 m in
        let (k, q) = latest-Mem _ _ existing e l in
        let (c, n, name, on, digest, file) = identity e k in cc (on, off)),
    unchanged,
  )
    where
      unchanged : (a : CommandAction) → Memᴰ a plan.actions → a.kind ≡ action_unchanged
      unchanged a m =
          let (owned, orphaned, (layers, are_layers, q)) =
            compute_plan-named_actions hash spec.compose_file commands existing plan d h in
          let (name, index, layered, low, high, e) =
            Mem-named_actions hash commands (flatten layers) _ a (subst (Memᴰ a) q m) in
          let layering = (topo_layers_sound commands layers d are_layers).0 in
          let (c, m', p) =
            command_with_name commands name
              (IsLayering-known commands (λ _. false) layers layering name layered).0 in
          let is_c : command_by_name commands name ≡ c =
            ap (command_by_name commands) (sym p) ∙ command_by_name-name commands c d m' in
          let high_c : index < 1 + replica_count c =
            subst (λ x. index < 1 + replica_count x) is_c high in
          ap (λ (x : CommandAction). x.kind) e
          ∙ ap
              (λ (x : Command).
                (replica_action x (hash_of hash x) index (latest name (pos index) existing)).kind)
              is_c
          ∙ ap
              (λ (n : String).
                (replica_action c (hash_of hash c) index (latest n (pos index) existing)).kind)
              (sym p)
          ∙ latest-unchanged c index m' low high_c

  -- When the names of the commands are distinct, their scales are below 2 ^ 63, the dependency graph is
  -- valid and every command can be hashed, a plan against the entries that creating every replica
  -- leaves in the store is computed, and it leaves everything as it is: it has no orphans and no surplus
  -- replicas, and each of its actions is "unchanged".
  pub compute_plan-created_all :
      validate_dag commands ≡ ok tt
      → ((c : Command) → (digest : String) × (hash c ≡ some digest))
      → (plan : Plan) × (compute_plan hash spec.compose_file commands existing ≡ ok plan)
        × (plan.orphans ≡ [])
        × (plan.excess_replicas ≡ [])
        × ((a : CommandAction) → Memᴰ a plan.actions → a.kind ≡ action_unchanged)
  compute_plan-created_all valid total =
      let owned =
        no_foreign spec.compose_file existing
          (λ e m. let (c, n, name, on, digest, file) = identity e m in file) in
      let (plan, p) =
        compute_plan_total hash spec.compose_file commands existing d valid owned total in
      let (orphans, excess, unchanged) = changes_nothing plan p in
      (plan, p, orphans, excess, unchanged)
