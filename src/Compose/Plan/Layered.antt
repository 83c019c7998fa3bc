-- ===== src/Compose/Plan/Layered.antt =====
-- cmdman/compose/plan.go: the names in the layers of `TopoLayers` are those of the commands, each once,
-- so the loop over the layers plans each command once.
use cmdman.Prelude.{
  ◌≡◌, ◌∙◌, Bool, true, false, List, [], ◌∷◌, ◌++◌, Option, arith, inl, inr, Bool-cases,
}
use cmdman.Prelude.Text.{String, str_eq_self, contains, contains-append, Distinct}
use cmdman.Prelude.Results.{ok, >>=-ok}
use cmdman.Compose.Spec.{Command}
use cmdman.Compose.Entry.{Entry}
use cmdman.Compose.Graph.{names}
use cmdman.Compose.Graph.Order.{IsLayering, placed_with, flatten}
use cmdman.Compose.Plan.{CommandAction, plan_names, plan_layers}
use cmdman.Compose.Plan.Planned.{
  Planned, Planned-append, no_names-Planned, plan_names-Planned, subst-Planned,
}

Distinct-append :
    (xs ys : List String)
    → Distinct xs
    → Distinct ys
    → ((s : String) → contains ys s ≡ true → contains xs s ≡ false)
    → Distinct (xs ++ ys)
Distinct-append [] ys d e apart = e
Distinct-append (x ∷ xs) ys d e apart = (
  contains-append xs ys x ∙ ground (arith, d.0, not_later),
  Distinct-append xs ys d.1 e (λ s m. ground (arith, apart s m)),
)
  where
    not_later : contains ys x ≡ false
    not_later = elim (Bool-cases (contains ys x)) [
      | inr q ↦ q
      | inl q ↦ let no = apart x q in ground (arith, no, str_eq_self x)
    ]

-- A name in the layers is that of a command, and was not placed before.
pub IsLayering-known :
    (commands : List Command) (placed : String → Bool) (layers : List (List String))
    → IsLayering commands placed layers
    → (s : String) → contains (flatten layers) s ≡ true
    → (contains (names commands) s ≡ true) × (placed s ≡ false)
IsLayering-known commands placed [] l s m = cc
IsLayering-known commands placed (layer ∷ layers) l s m = elim (Bool-cases (contains layer s)) [
  | inl q ↦ let ready = l.1.1.0 s q in (ready.known, ready.unplaced)
  | inr q ↦
      let (k, p) =
        IsLayering-known commands (placed_with placed layer) layers l.1.1.1 s
          (ground (arith, m, q, contains-append layer (flatten layers) s)) in
      (k, ground (arith, p))
]

-- A name of a later layer is in no earlier one.
later-apart :
    (commands : List Command) (placed : String → Bool) (layer : List String)
    (layers : List (List String))
    → IsLayering commands (placed_with placed layer) layers
    → (s : String) → contains (flatten layers) s ≡ true
    → contains layer s ≡ false
later-apart commands placed layer layers l s m =
    ground (arith, (IsLayering-known commands (placed_with placed layer) layers l s m).1)

pub IsLayering-Distinct :
    (commands : List Command) (placed : String → Bool) (layers : List (List String))
    → IsLayering commands placed layers
    → Distinct (flatten layers)
IsLayering-Distinct commands placed [] l = tt
IsLayering-Distinct commands placed (layer ∷ layers) l =
    Distinct-append layer (flatten layers) l.1.0
      (IsLayering-Distinct commands (placed_with placed layer) layers l.1.1.1)
      (later-apart commands placed layer layers l.1.1.1)

pub plan_layers-Planned :
    (hash : Command → Option String) (commands : List Command) (placed : String → Bool)
    (layers : List (List String)) (es : List Entry) (actions : List CommandAction)
    (left : List Entry)
    → IsLayering commands placed layers
    → plan_layers hash commands layers es ≡ ok (actions, left)
    → Planned hash commands (flatten layers) es actions left
unfolding plan_layers
plan_layers-Planned hash commands placed [] es actions left l h =
    subst-Planned hash commands [] es [] actions es left h (no_names-Planned hash commands es)
plan_layers-Planned hash commands placed (layer ∷ layers) es actions left l h =
    let ((as1, left1), p, q) = >>=-ok (plan_names hash commands layer es) _ h in
    let ((more, last), r, e) = >>=-ok (plan_layers hash commands layers left1) _ q in
    subst-Planned hash commands (layer ++ flatten layers) es (as1 ++ more) actions last left e (
      Planned-append hash commands layer (flatten layers) es as1 left1 more last
        (later-apart commands placed layer layers l.1.1.1)
        (plan_names-Planned hash commands layer es as1 left1 l.1.0 p)
        (plan_layers-Planned hash commands (placed_with placed layer) layers left1 more last l.1.1.1
          r))
