-- ===== src/Mux/Cycle/Position.antt =====
-- cmdman/mux/cycle_scale.go: the position that a dashboard shows next.
use native.Mathlib.Nat.{mod-lt, mod-add-mod}
use cmdman.Prelude.{
  ℕ, zero, suc, ◌+◌, ◌-◌, ◌%◌, ◌<◌, ◌≤◌, ◌≡◌, ◌⊎◌, inl, inr, refl, sym, ap, ◌∙◌, true, false, List,
  ◌==◌, Bool-cases, arith,
}
use cmdman.Prelude.Int.{ℤ, pos, negsuc}
use cmdman.Prelude.Results.{ok}
use cmdman.Mux.Cycle.{pinned, advance, compute_target_position}

-- The position `k` places behind the one after `cur`, from 1 to `n` in a circle.
abbrev pub behind : ℕ → ℕ → ℕ → ℕ
behind cur n k = (cur + k) % n + 1

-- The first position after `cur` that is not pinned.
pub record IsNext (cur n : ℕ) (indices : List ℕ) (p : ℕ) : Type 0 where
  pub steps : ℕ
  pub few : steps < n
  pub there : p ≡ behind cur n steps
  pub free : pinned indices p ≡ false
  pub skipped : (k : ℕ) → k < steps → pinned indices (behind cur n k) ≡ true

candidate_eq : (cur n k : ℕ) → (cur % n + 1 - 1 + k) % n + 1 ≡ behind cur n k
candidate_eq cur n k =
    let whole : cur % n + 1 - 1 + k ≡ cur % n + k = omega arith in
    ap (λ x. x % n + 1) whole ∙ ap (λ x. x + 1) (mod-add-mod cur n k)

advance-IsNext :
    (cur n : ℕ) (indices : List ℕ) (i count p : ℕ)
    → i + count ≤ n
    → ((k : ℕ) → k < i → pinned indices (behind cur n k) ≡ true)
    → advance (cur % n + 1) n indices i count ≡ ok p
    → IsNext cur n indices p
unfolding advance
advance-IsNext cur n indices i zero p h before q = cc
advance-IsNext cur n indices i (suc count) p h before q =
    elim (Bool-cases (pinned indices (behind cur n i))) [
      | inr free ↦
          let answer = rw (advance, candidate_eq cur n i, free) at q in
          let same : behind cur n i ≡ p = ground (arith, answer) in
          record {
            steps = i;
            few = omega (arith, h);
            there = sym same;
            free = rw (← same) free;
            skipped = before;
          }
      | inl taken ↦
          advance-IsNext cur n indices (suc i) count p (omega (arith, h))
            (λ k l. elim (Bool-cases (k == i)) [
              | inl e ↦ let same : k ≡ i = ground (arith, e) in rw same taken
              | inr e ↦ before k (ground (arith, l, e))
            ])
            (rw (advance, candidate_eq cur n i, taken) at q)
    ]

-- A position that is answered is from 1 to `n` and not pinned; it is the requested one, or none was
-- requested and it is the first position behind the current one, in a circle, that is not pinned.
pub compute_target_position-IsNext :
    (cur n : ℕ) (explicit : ℤ) (indices : List ℕ) (p : ℕ)
    → compute_target_position cur explicit n indices ≡ ok p
    → (1 ≤ p)
      × (p ≤ n)
      × (pinned indices p ≡ false)
      × ((explicit ≡ pos p) ⊎ ((explicit ≡ pos 0) × IsNext cur n indices p))
unfolding compute_target_position
compute_target_position-IsNext cur n (negsuc k) indices p q = cc
compute_target_position-IsNext cur n (pos zero) indices p q =
    let next =
      advance-IsNext cur n indices 0 n p (omega arith) (λ k l. absurd (omega (arith, l))) q in
    let below : (cur + next.steps) % n < n = mod-lt (cur + next.steps) (omega (arith, next.few)) in
    (omega (arith, next.there), omega (arith, next.there, below), next.free, inr (refl, next))
compute_target_position-IsNext cur n (pos (suc k)) indices p q =
    (ground (arith, q), ground (arith, q), ground (arith, q), inl (ap pos (ground (arith, q))))
