-- ===== src/Compose/Graph/Rounds.antt =====
-- cmdman/compose/graph.go: one round of the main loop keeps the in-degrees equal to the numbers of
-- dependencies still open.
use mathlib.Core.List.{Memᴰ}
use mathlib.Core.Path.{fun_ext}
use cmdman.Prelude.{
  ℕ, ◌+◌, ◌≡◌, refl, sym, ap, subst, ◌∙◌, inl, inr, Bool, true, false, ◌||◌, List, [], ◌∷◌, arith,
  Bool-cases,
}
use cmdman.Prelude.Text.{String, str_eq, str_eq_iff, str_eq_self, contains, Distinct, update}
use cmdman.Compose.Spec.{AfterSpec, Command}
use cmdman.Prelude.Int.{ℤ, pos, negsuc, decrement}
use cmdman.Compose.Graph.{Links, release, place}
use cmdman.Compose.Graph.Order.{AllPlaced, IsReady, placed_with, open_deps, AllPlaced-open_deps}
use cmdman.Compose.Graph.Degrees.{count, count_deps, AreLinks}

or_false : (a : Bool) → a ≡ (a || false)
or_false true = refl
or_false false = refl

or_true : (a : Bool) → (a || true) ≡ true
or_true true = refl
or_true false = refl

or_assoc : (a b c : Bool) → ((a || b) || c) ≡ (a || (b || c))
or_assoc true b c = refl
or_assoc false b c = refl

-- A release takes each occurrence off once.
release_lem :
    (deps : List String) (deg : String → ℤ) (j : String) (m : ℕ)
    → deg j ≡ pos (count j deps + m)
    → release deps deg j ≡ pos m
unfolding release
release_lem [] deg j m e = rw e (ap pos (omega arith))
release_lem (d ∷ deps) deg j m e = elim (Bool-cases (str_eq d j)) [
  | inl q ↦
      release_lem deps (update deg d (decrement (deg d))) j m (ground (arith, e, str_eq_iff d j))
  | inr q ↦ release_lem deps (update deg d (decrement (deg d))) j m (ground arith)
]

release_other :
    (deps : List String) (deg : String → ℤ) (j : String)
    → count j deps ≡ 0
    → release deps deg j ≡ deg j
unfolding release
release_other [] deg j e = refl
release_other (d ∷ deps) deg j e =
    ground (arith, release_other deps (update deg d (decrement (deg d))) j)

abbrev placed_one : (String → Bool) → String → String → Bool
placed_one placed name s = placed s || str_eq name s

open_deps-placed_one :
    (placed : String → Bool) (name : String) (deps : List AfterSpec)
    → placed name ≡ false
    → open_deps placed deps ≡ count_deps name deps + open_deps (placed_one placed name) deps
open_deps-placed_one placed name [] h = omega arith
open_deps-placed_one placed name (d ∷ deps) h =
    ground (
      arith,
      str_eq_iff name d.name,
      str_eq_iff d.name name,
      open_deps-placed_one placed name deps h,
    )

AllPlaced-placed_one :
    (placed : String → Bool) (name : String) (deps : List AfterSpec)
    → AllPlaced placed deps
    → AllPlaced (placed_one placed name) deps
AllPlaced-placed_one placed name [] h = tt
AllPlaced-placed_one placed name (d ∷ deps) h =
    (ground arith, AllPlaced-placed_one placed name deps h.1)

-- Placing another name leaves a ready name ready.
IsReady-placed_one :
    (commands : List Command) (placed : String → Bool) (name s : String)
    → str_eq name s ≡ false
    → IsReady commands placed s
    → IsReady commands (placed_one placed name) s
IsReady-placed_one commands placed name s h r = record {
  known = r.known;
  unplaced = ground (arith, r.unplaced);
  deps_placed = λ c m e. AllPlaced-placed_one placed name c.after (r.deps_placed c m e);
}

module _ (commands : List Command) (l : Links) (links : AreLinks commands l) where
  -- A placed command is at -1 and all its dependencies are placed; another is at the number of its
  -- open dependencies.
  pub record Tracks (placed : String → Bool) (deg : String → ℤ) : Type 0 where
    pub done :
        (c : Command)
        → Memᴰ c commands
        → placed c.name ≡ true
        → (deg c.name ≡ negsuc 0) × (open_deps placed c.after ≡ 0)
    pub waiting :
        (c : Command)
        → Memᴰ c commands
        → placed c.name ≡ false
        → deg c.name ≡ pos (open_deps placed c.after)

  place_one : String → (String → ℤ) → String → ℤ
  place_one name deg = release (l.dependents name) (update deg name (negsuc 0))

  place_one-Tracks :
      (placed : String → Bool) (deg : String → ℤ) (name : String)
      → Tracks placed deg
      → IsReady commands placed name
      → Tracks (placed_one placed name) (place_one name deg)
  unfolding place_one
  place_one-Tracks placed deg name t r = record {
    done = λ c m h. elim (Bool-cases (str_eq name c.name)) [
      | inl q ↦
          let ready : open_deps placed c.after ≡ 0 =
            AllPlaced-open_deps placed c.after
              (r.deps_placed c m (sym ((str_eq_iff name c.name).0 q))) in
          (
            release_other (l.dependents name) (update deg name (negsuc 0)) c.name
                  (omega (arith, users c m, split c))
                ∙ (rw q refl),
            omega (arith, split c),
          )
      | inr q ↦
          let (deg_done, none_open) = t.done c m (ground arith) in
          (
            release_other (l.dependents name) (update deg name (negsuc 0)) c.name
                  (omega (arith, users c m, split c))
                ∙ (rw q deg_done),
            omega (arith, split c),
          )
    ];
    waiting = λ c m h.
        let other : str_eq name c.name ≡ false = ground arith in
        let before : deg c.name ≡ pos (open_deps placed c.after) = t.waiting c m (ground arith) in
        release_lem (l.dependents name) (update deg name (negsuc 0)) c.name
          (open_deps (placed_one placed name) c.after)
          (rw other (before ∙ ap pos (omega (arith, users c m, split c))));
  }
    where
      users :
          (c : Command)
          → Memᴰ c commands
          → count c.name (l.dependents name) ≡ count_deps name c.after
      users c m = links.users name c m

      split :
          (c : Command)
          → open_deps placed c.after
            ≡ count_deps name c.after + open_deps (placed_one placed name) c.after
      split c = open_deps-placed_one placed name c.after r.unplaced

  pub place-Tracks :
      (layer : List String) (placed : String → Bool) (deg : String → ℤ)
      → Tracks placed deg
      → Distinct layer
      → ((s : String) → contains layer s ≡ true → IsReady commands placed s)
      → Tracks (placed_with placed layer) (place layer l.dependents deg)
  unfolding place place_one
  place-Tracks [] placed deg t d r =
      subst (λ p. Tracks p deg) (fun_ext (λ s. or_false (placed s))) t
  place-Tracks (name ∷ layer) placed deg t d r =
      let first : Tracks (placed_one placed name) (place_one name deg) =
        place_one-Tracks placed deg name t (r name (rw (str_eq_self name) refl)) in
      let rest : Tracks (placed_with (placed_one placed name) layer)
          (place (name ∷ layer) l.dependents deg) =
        place-Tracks layer (placed_one placed name) (place_one name deg) first d.1 (λ s h.
          IsReady-placed_one commands placed name s (differs s h)
            (r s (rw h (or_true (str_eq name s))))) in
      subst (λ p. Tracks p (place (name ∷ layer) l.dependents deg))
        (fun_ext (λ s. or_assoc (placed s) (str_eq name s) (contains layer s))) rest
    where
      differs : (s : String) → contains layer s ≡ true → str_eq name s ≡ false
      differs s h = elim (Bool-cases (str_eq name s)) [
        | inr q ↦ q
        | inl q ↦ let e : contains layer name ≡ true = rw ((str_eq_iff name s).0 q) h in cc (d.0)
      ]
