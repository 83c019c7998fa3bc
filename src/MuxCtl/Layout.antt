-- ===== src/MuxCtl/Layout.antt =====
-- pkg/muxctl/layout.go: the cells that the children of a split get. The last loop of the source sets
-- cells below 1 to 0, which changes nothing where cells are not negative.
pub mod Fill
use cmdman.Prelude.{
  ℕ, zero, suc, ◌+◌, ◌-◌, ◌*◌, ◌/◌, Bool, true, false, ◌||◌, List, [], ◌∷◌, Option, none, some,
  if◌then◌else◌, ltb, ◌==◌, length,
}
use cmdman.MuxCtl.Spec.{Size}

-- The two sums of the first loop.
pub record Sums : Type 0 where
  pub reserved : ℕ
  pub weight : ℕ

-- `reserved[i]`, 0 for a weighted child.
unfoldable pub reserve : ℕ → Size → ℕ
reserve parent s = if s.absolute then s.n else if s.percent then parent * s.n / 100 else 0

unfoldable pub sum_splits : ℕ → List Size → Sums
unfolding reserve
sum_splits parent [] = record { reserved = 0; weight = 0 }
sum_splits parent (s ∷ splits) =
    let rest = sum_splits parent splits in
    record {
      reserved = reserve parent s + rest.reserved;
      weight = (if s.absolute || s.percent then 0 else s.n) + rest.weight;
    }

-- What the second loop computes: the cells, the sum of those of weighted children, and the index of
-- the last weighted child (-1 is `none`).
pub record Filled : Type 0 where
  pub cells : List ℕ
  pub assigned : ℕ
  pub last_weighted : Option ℕ

abbrev pub or_else : Option ℕ → ℕ → Option ℕ
or_else none i = some i
or_else (some j) i = some j

-- The second loop from the index `i` on.
unfoldable pub fill : ℕ → ℕ → ℕ → ℕ → List Size → Filled
unfolding reserve
fill parent leftover weight i [] = record { cells = []; assigned = 0; last_weighted = none }
fill parent leftover weight i (s ∷ splits) =
    let rest = fill parent leftover weight (suc i) splits in
    if s.absolute || s.percent
    then record rest { cells = reserve parent s ∷ rest.cells }
    else if weight == 0
    then record rest { cells = 0 ∷ rest.cells }
    else record {
      cells = (leftover * s.n / weight) ∷ rest.cells;
      assigned = leftover * s.n / weight + rest.assigned;
      last_weighted = or_else rest.last_weighted i;
    }

-- `cells[i] += more`
unfoldable pub add_at : List ℕ → ℕ → ℕ → List ℕ
add_at [] i more = []
add_at (c ∷ cells) zero more = (c + more) ∷ cells
add_at (c ∷ cells) (suc i) more = c ∷ add_at cells i more

unfoldable pub top_up : Filled → ℕ → List ℕ
unfolding add_at
top_up f leftover = elim (f.last_weighted) [
  | none ↦ f.cells
  | some i ↦ if ltb f.assigned leftover then add_at f.cells i (leftover - f.assigned) else f.cells
]

-- `max(parent - sumReserved - separators, 0)`, where a difference on ℕ is never negative.
unfoldable pub leftover : ℕ → List Size → ℕ
unfolding sum_splits
leftover parent splits = parent - (sum_splits parent splits).reserved - (length splits - 1)

unfoldable pub compute_child_cells : ℕ → List Size → List ℕ
unfolding sum_splits fill top_up leftover
compute_child_cells parent splits =
    top_up (fill parent (leftover parent splits) (sum_splits parent splits).weight 0 splits)
      (leftover parent splits)
