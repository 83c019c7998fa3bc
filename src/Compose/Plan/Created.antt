-- ===== src/Compose/Plan/Created.antt =====
-- cmdman/compose/service_create.go: the entries that creating every replica of a project leaves in the
-- store, with what `buildCreateRequest` puts in.
use mathlib.Core.List.{Memᴰ}
use cmdman.Prelude.{
  ℕ, zero, suc, ◌+◌, ◌≤◌, ◌<◌, ◌^◌, ◌≡◌, inl, inr, refl, sym, ap, subst, List, [], ◌∷◌, ◌++◌,
  Option, some, none, Bool-cases, ◌==◌, ==_iff, arith,
}
use cmdman.Prelude.Text.{String, str_eq_self}
use cmdman.Prelude.Int.{ℤ, pos}
use cmdman.Compose.Spec.{AfterSpec, Command}
use cmdman.Compose.Entry.{Entry, command_name_of, scale_index_of}
use cmdman.Compose.Labels.{ProjectSpec, build_labels}
use cmdman.Compose.Labels.RoundTrip.{scale_of-build_labels}
use cmdman.Compose.Plan.{replica_count, stored_hash, instance_name}
use cmdman.Compose.Plan.Instances.{first_foreign}
use cmdman.Compose.Plan.Actions.{hash_of}
use cmdman.Compose.Plan.Members.{Mem-append, append-Mem}

module _ {ℓ} {Hook : Type ℓ} (marshal_after : List AfterSpec → String)
    (marshal_hooks : List Hook → String) (spec : ProjectSpec)
    (user_labels : Command → String → String) (hooks : Command → List Hook)
    (hash : Command → Option String) where
  -- The name and the labels of the request that creates a replica, as the store lists them.
  abbrev pub created : Command → ℕ → Entry
  created c index = record {
    name = instance_name c.generated_name index;
    labels = some (
        build_labels marshal_after marshal_hooks spec c (user_labels c) (hooks c) (hash_of hash c)
          index);
  }

  abbrev pub created_from : Command → ℕ → ℕ → List Entry
  created_from c index zero = []
  created_from c index (suc count) = created c index ∷ created_from c (suc index) count

  -- Every replica of every command.
  abbrev pub created_all : List Command → List Entry
  created_all [] = []
  created_all (c ∷ cs) = created_from c 1 (replica_count c) ++ created_all cs

  Mem-created_from :
      (c : Command) (from count : ℕ) (e : Entry)
      → Memᴰ e (created_from c from count)
      → (index : ℕ) × (from ≤ index) × (index < from + count) × (e ≡ created c index)
  Mem-created_from c from zero e m = absurd (elim m [ ])
  Mem-created_from c from (suc count) e (Memᴰ.head q) = (from, omega arith, omega arith, q)
  Mem-created_from c from (suc count) e (Memᴰ.tail m) =
      let (index, low, high, q) = Mem-created_from c (suc from) count e m in
      (index, omega (arith, low), omega (arith, high), q)

  created_from-Mem :
      (c : Command) (from count index : ℕ)
      → from ≤ index
      → index < from + count
      → Memᴰ (created c index) (created_from c from count)
  created_from-Mem c from zero index low high = absurd (omega (arith, low, high))
  created_from-Mem c from (suc count) index low high = elim (Bool-cases (from == index)) [
    | inl q ↦
        let same : from ≡ index = (==_iff from index).0 q in Memᴰ.head (ap (created c) (sym same))
    | inr q ↦ Memᴰ.tail (
        created_from-Mem c (suc from) count index (ground (arith, low, q, ==_iff from index))
          (omega (arith, high)))
  ]

  pub Mem-created_all :
      (cs : List Command) (e : Entry)
      → Memᴰ e (created_all cs)
      → (c : Command) × (index : ℕ) × Memᴰ c cs
        × (1 ≤ index)
        × (index < 1 + replica_count c)
        × (e ≡ created c index)
  Mem-created_all [] e m = absurd (elim m [ ])
  Mem-created_all (x ∷ cs) e m = elim (Mem-append (created_from x 1 (replica_count x)) _ e m) [
    | inl k ↦
        let (index, low, high, q) = Mem-created_from x 1 (replica_count x) e k in
        (x, index, Memᴰ.head refl, low, high, q)
    | inr k ↦
        let (c, index, n, low, high, q) = Mem-created_all cs e k in
        (c, index, Memᴰ.tail n, low, high, q)
  ]

  pub created_all-Mem :
      (cs : List Command) (c : Command) (index : ℕ)
      → Memᴰ c cs
      → 1 ≤ index
      → index < 1 + replica_count c
      → Memᴰ (created c index) (created_all cs)
  created_all-Mem [] c index m low high = absurd (elim m [ ])
  created_all-Mem (x ∷ cs) c index (Memᴰ.head e) low high = append-Mem _ _ _ (
      inl (
        subst (λ y. Memᴰ (created c index) (created_from y 1 (replica_count y))) e
          (created_from-Mem c 1 (replica_count c) index low high)))
  created_all-Mem (x ∷ cs) c index (Memᴰ.tail m) low high =
      append-Mem _ _ _ (inr (created_all-Mem cs c index m low high))

  -- What is read back from a created entry.
  pub created_identity :
      (c : Command) (index : ℕ)
      → c.scale < 2 ^ 63
      → index < 1 + replica_count c
      → (command_name_of (created c index) ≡ c.name)
        × (scale_index_of (created c index) ≡ pos index)
        × (stored_hash (created c index) ≡ hash_of hash c)
        × (first_foreign spec.compose_file (created c index ∷ []) ≡ none)
  unfolding command_name_of scale_index_of
  created_identity c index s h =
      let (name, digest, file, scale) =
        scale_of-build_labels marshal_after marshal_hooks spec c (user_labels c) (hooks c)
          (hash_of hash c) index (omega (arith, s, h)) s in
      (
        name,
        ap (λ (p : ℤ × ℤ). p.0) scale,
        digest,
        ground (arith, file, str_eq_self spec.compose_file),
      )
