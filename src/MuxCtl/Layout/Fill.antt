-- ===== src/MuxCtl/Layout/Fill.antt =====
-- pkg/muxctl/layout.go: the cells of the children fill the parent.
use native.Mathlib.Nat.{mul-div-le, le_of_mul-le-mul_left, mul-add, mul_comm}
use cmdman.Prelude.{
  ℕ, zero, suc, ◌+◌, ◌-◌, ◌*◌, ◌/◌, ◌≤◌, ◌<◌, ◌≡◌, ◌≢◌, inl, inr, refl, ap, ◌∙◌, List, [], ◌∷◌,
  none, some, if◌then◌else◌, ◌==◌, length, Bool-cases, Option-cases, arith,
}
use cmdman.MuxCtl.Spec.{Size}
use cmdman.MuxCtl.Layout.{
  reserve, sum_splits, Filled, fill, add_at, top_up, leftover, compute_child_cells,
}

abbrev pub sum : List ℕ → ℕ
sum [] = 0
sum (c ∷ cells) = c + sum cells

sum-add_at :
    (cells : List ℕ) (i more : ℕ) → i < length cells → sum (add_at cells i more) ≡ sum cells + more
unfolding add_at
sum-add_at [] i more h = omega arith
sum-add_at (c ∷ cells) zero more h = omega arith
sum-add_at (c ∷ cells) (suc i) more h = ground (arith, sum-add_at cells i more)

length-fill :
    (parent left weight i : ℕ) (splits : List Size)
    → length (fill parent left weight i splits).cells ≡ length splits
unfolding fill
length-fill parent left weight i [] = refl
length-fill parent left weight i (s ∷ splits) =
    ground (arith, length-fill parent left weight (suc i) splits)

sum-fill :
    (parent left weight i : ℕ) (splits : List Size)
    → sum (fill parent left weight i splits).cells
      ≡ (sum_splits parent splits).reserved + (fill parent left weight i splits).assigned
unfolding fill sum_splits reserve
sum-fill parent left weight i [] = refl
sum-fill parent left weight i (s ∷ splits) =
    ground (arith, sum-fill parent left weight (suc i) splits)

-- The shares of the weights do not exceed what is shared.
assigned-fill :
    (parent left weight i : ℕ) (splits : List Size)
    → weight * (fill parent left weight i splits).assigned
      ≤ left * (sum_splits parent splits).weight
unfolding fill sum_splits
assigned-fill parent left weight i [] = omega arith
assigned-fill parent left weight i (s ∷ splits) =
    let rest = (fill parent left weight (suc i) splits).assigned in
    ground (
      arith,
      assigned-fill parent left weight (suc i) splits,
      mul-add left s.n (sum_splits parent splits).weight,
      mul-add weight (left * s.n / weight) rest,
      mul-div-le (left * s.n) weight,
    )

last-fill :
    (parent left weight i : ℕ) (splits : List Size) (j : ℕ)
    → (fill parent left weight i splits).last_weighted ≡ some j
    → (i ≤ j) × (j < i + length splits)
unfolding fill
last-fill parent left weight i [] j h = cc
last-fill parent left weight i (s ∷ splits) j h =
    elim (Option-cases (fill parent left weight (suc i) splits).last_weighted) [
      | inl none_later ↦ ground (arith, h)
      | inr (k, later) ↦
          let same : k ≡ j = ground (arith, h) in
          let bounds = last-fill parent left weight (suc i) splits j (later ∙ ap some same) in
          omega (arith, bounds.0, bounds.1)
    ]

none-fill :
    (parent left weight i : ℕ) (splits : List Size)
    → weight ≢ 0
    → (fill parent left weight i splits).last_weighted ≡ none
    → (sum_splits parent splits).weight ≡ 0
unfolding fill sum_splits
none-fill parent left weight i [] w h = refl
none-fill parent left weight i (s ∷ splits) w h =
    elim (Option-cases (fill parent left weight (suc i) splits).last_weighted) [
      | inl later ↦ ground (arith, h, none-fill parent left weight (suc i) splits w)
      | inr (k, later) ↦ ground (arith, h)
    ]

unweighted-fill :
    (parent left i : ℕ) (splits : List Size)
    → ((fill parent left 0 i splits).last_weighted ≡ none)
      × ((fill parent left 0 i splits).assigned ≡ 0)
unfolding fill
unweighted-fill parent left i [] = (refl, refl)
unweighted-fill parent left i (s ∷ splits) =
    ground (arith, unweighted-fill parent left (suc i) splits)

sum-top_up-none :
    (f : Filled) (left : ℕ) → f.last_weighted ≡ none → sum (top_up f left) ≡ sum f.cells
unfolding top_up
sum-top_up-none f left h = rw h refl

sum-top_up-some :
    (f : Filled) (left j : ℕ)
    → f.last_weighted ≡ some j
    → j < length f.cells
    → f.assigned ≤ left
    → sum (top_up f left) ≡ sum f.cells + (left - f.assigned)
unfolding top_up
sum-top_up-some f left j h inside below =
    rw h (ground (arith, sum-add_at f.cells j (left - f.assigned) inside))

-- The cells that the children get add up to what is reserved for absolute and percentage sizes and,
-- if any child has a weight above 0, to all that is left over of the parent: no cell is lost to
-- rounding.
pub sum-compute_child_cells :
    (parent : ℕ) (splits : List Size)
    → sum (compute_child_cells parent splits)
      ≡ (sum_splits parent splits).reserved
        + (if (sum_splits parent splits).weight == 0 then 0 else leftover parent splits)
unfolding compute_child_cells
sum-compute_child_cells parent splits = elim (Bool-cases (weight == 0)) [
  | inl q ↦
      let no_weight : weight ≡ 0 = ground (arith, q) in
      let (unshared, none_assigned) = unweighted-fill parent left 0 splits in
      let total = sum-fill parent left 0 0 splits in
      rw (q, no_weight)
        (sum-top_up-none (fill parent left 0 0 splits) left unshared
          ∙ omega (arith, total, none_assigned))
  | inr q ↦ elim (Option-cases filled.last_weighted) [
    | inl unshared ↦ absurd (
        ground
          (arith, q, none-fill parent left weight 0 splits (λ w. ground (arith, w, q)) unshared))
    | inr (j, shared) ↦
        let (low, high) = last-fill parent left weight 0 splits j shared in
        let within : filled.assigned ≤ left =
          le_of_mul-le-mul_left {k = weight}
            (grind (arith, assigned-fill parent left weight 0 splits, mul_comm weight left))
            (ground (arith, q)) in
        rw q (
          sum-top_up-some filled left j shared
            (ground (arith, high, length-fill parent left weight 0 splits)) within
          ∙ omega (arith, within, sum-fill parent left weight 0 splits))
  ]
]
  where
    weight : ℕ
    weight = (sum_splits parent splits).weight

    left : ℕ
    left = leftover parent splits

    filled : Filled
    filled = fill parent left weight 0 splits
