-- ===== src/Compose/Lifecycle.antt =====
-- cmdman/compose/lifecycle.go: lifecycle events, and the check of a resource's events.
pub mod Resources
use cmdman.Prelude.{
  ℕ, Bool, true, false, not, ◌&&◌, ◌||◌, List, [], ◌∷◌, if◌then◌else◌, ltb, ◌==◌, length,
}
use cmdman.Prelude.Results.{Result, ok, err, ◌>>=◌}

pub data LifecycleEvent : Type 0 where
  create_pre create_post start_pre start_post stop_pre stop_post remove_pre remove_post :
      LifecycleEvent

abbrev pub lifecycle_events : List LifecycleEvent
lifecycle_events =
    create_pre ∷ create_post ∷ start_pre ∷ start_post ∷ stop_pre ∷ stop_post ∷ remove_pre
    ∷ remove_post ∷ []

abbrev pub acquires : LifecycleEvent → Bool
acquires create_pre = true
acquires create_post = true
acquires start_pre = true
acquires start_post = true
acquires stop_pre = false
acquires stop_post = false
acquires remove_pre = false
acquires remove_post = false

abbrev pub releases : LifecycleEvent → List LifecycleEvent
releases create_pre = remove_pre ∷ remove_post ∷ []
releases create_post = remove_pre ∷ remove_post ∷ []
releases start_pre = stop_pre ∷ stop_post ∷ []
releases start_post = stop_pre ∷ stop_post ∷ []
releases stop_pre = []
releases stop_post = []
releases remove_pre = []
releases remove_post = []

pub data ResourceError : Type 0 where
  no_acquire : ResourceError
  many_acquires many_releases : List LifecycleEvent → ResourceError
  cannot_release : (release acquire : LifecycleEvent) → ResourceError

-- The first loop, for the events of one of the two kinds. `set` is `_, ok := h.Events[ev]`.
unfoldable pub collect : (LifecycleEvent → Bool) → Bool → List LifecycleEvent → List LifecycleEvent
collect set kind [] = []
collect set true (ev ∷ evs) =
    let rest = collect set true evs in if set ev && acquires ev then ev ∷ rest else rest
collect set false (ev ∷ evs) =
    let rest = collect set false evs in if set ev && not (acquires ev) then ev ∷ rest else rest

abbrev pub number : LifecycleEvent → ℕ
number create_pre = 0
number create_post = 1
number start_pre = 2
number start_post = 3
number stop_pre = 4
number stop_post = 5
number remove_pre = 6
number remove_post = 7

-- `slices.Contains`
abbrev pub has_event : List LifecycleEvent → LifecycleEvent → Bool
has_event [] ev = false
has_event (e ∷ evs) ev = same_event e ev || has_event evs ev
  where
    same_event : LifecycleEvent → LifecycleEvent → Bool
    same_event a b = number a == number b

-- The second loop.
unfoldable pub check_releases :
    LifecycleEvent → List LifecycleEvent → Result ResourceError (Unit {0})
check_releases acquire [] = ok tt
check_releases acquire (ev ∷ evs) =
    let rest = check_releases acquire evs in
    if has_event (releases acquire) ev then rest else err (cannot_release ev acquire)

-- What follows the `switch` when one event acquires.
unfoldable pub check_pair : LifecycleEvent → List LifecycleEvent → Result ResourceError (Unit {0})
unfolding check_releases
check_pair acquire evs = check_releases acquire evs >>= λ _.
    (if ltb 1 (length evs) then err (many_releases evs) else ok tt)

unfoldable pub check_acquires :
    List LifecycleEvent → List LifecycleEvent → Result ResourceError (Unit {0})
unfolding check_pair
check_acquires [] evs = err no_acquire
check_acquires (acquire ∷ []) evs = check_pair acquire evs
check_acquires (a ∷ b ∷ more) evs = err (many_acquires (a ∷ b ∷ more))

unfoldable pub validate_resource_events : (LifecycleEvent → Bool) → Result ResourceError (Unit {0})
unfolding collect check_acquires
validate_resource_events set =
    check_acquires (collect set true lifecycle_events) (collect set false lifecycle_events)
