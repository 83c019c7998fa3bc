-- ===== src/Compose/Lifecycle/Resources.antt =====
-- cmdman/compose/lifecycle.go: the events of an accepted resource.
use mathlib.Core.List.{Memᴰ}
use cmdman.Prelude.{
  ◌≡◌, inl, inr, refl, sym, ◌∙◌, Bool, true, false, not, ◌&&◌, List, [], ◌∷◌, if◌then◌else◌, ltb,
  length, Bool-cases, arith,
}
use cmdman.Prelude.Results.{ok, >>=-ok}
use cmdman.Compose.Lifecycle.{
  LifecycleEvent, create_pre, create_post, start_pre, start_post, stop_pre, stop_post, remove_pre,
  remove_post, lifecycle_events, acquires, releases, collect, has_event, check_releases, check_pair,
  check_acquires, validate_resource_events,
}

-- Events by which a resource is used: one acquires it, and what else is set is one event that may
-- release it.
pub record IsResource (set : LifecycleEvent → Bool) : Type 0 where
  pub acquire : LifecycleEvent
  pub acquires_it : acquires acquire ≡ true
  pub is_set : set acquire ≡ true
  pub only_acquire : (e : LifecycleEvent) → set e ≡ true → acquires e ≡ true → e ≡ acquire
  pub only_releases :
      (e : LifecycleEvent)
      → set e ≡ true
      → acquires e ≡ false
      → has_event (releases acquire) e ≡ true
  pub one_release :
      (d e : LifecycleEvent)
      → set d ≡ true
      → set e ≡ true
      → acquires d ≡ false
      → acquires e ≡ false
      → d ≡ e

every_event : (e : LifecycleEvent) → Memᴰ e lifecycle_events
every_event create_pre = Memᴰ.head refl
every_event create_post = Memᴰ.tail (Memᴰ.head refl)
every_event start_pre = Memᴰ.tail (Memᴰ.tail (Memᴰ.head refl))
every_event start_post = Memᴰ.tail (Memᴰ.tail (Memᴰ.tail (Memᴰ.head refl)))
every_event stop_pre = Memᴰ.tail (Memᴰ.tail (Memᴰ.tail (Memᴰ.tail (Memᴰ.head refl))))
every_event stop_post = Memᴰ.tail (Memᴰ.tail (Memᴰ.tail (Memᴰ.tail (Memᴰ.tail (Memᴰ.head refl)))))
every_event remove_pre =
    Memᴰ.tail (Memᴰ.tail (Memᴰ.tail (Memᴰ.tail (Memᴰ.tail (Memᴰ.tail (Memᴰ.head refl))))))
every_event remove_post =
    Memᴰ.tail
      (Memᴰ.tail (Memᴰ.tail (Memᴰ.tail (Memᴰ.tail (Memᴰ.tail (Memᴰ.tail (Memᴰ.head refl)))))))

-- The test of the first loop.
abbrev taken : (LifecycleEvent → Bool) → Bool → LifecycleEvent → Bool
taken set true e = set e && acquires e
taken set false e = set e && not (acquires e)

collect_eq :
    (set : LifecycleEvent → Bool) (kind : Bool) (x : LifecycleEvent) (evs : List LifecycleEvent)
    → collect set kind (x ∷ evs)
      ≡ (if taken set kind x then x ∷ collect set kind evs else collect set kind evs)
unfolding collect
collect_eq set true x evs = refl
collect_eq set false x evs = refl

collect_all :
    (set : LifecycleEvent → Bool) (kind : Bool) (evs : List LifecycleEvent) (e : LifecycleEvent)
    → taken set kind e ≡ true
    → Memᴰ e evs
    → Memᴰ e (collect set kind evs)
collect_all set kind [] e h m = elim m [ ]
collect_all set kind (x ∷ evs) e h (Memᴰ.head q) =
    rw (collect_eq set kind x evs, ← q, h) (Memᴰ.head refl)
collect_all set kind (x ∷ evs) e h (Memᴰ.tail m) = elim (Bool-cases (taken set kind x)) [
  | inl t ↦ rw (collect_eq set kind x evs, t) (Memᴰ.tail (collect_all set kind evs e h m))
  | inr t ↦ rw (collect_eq set kind x evs, t) (collect_all set kind evs e h m)
]

collect_only :
    (set : LifecycleEvent → Bool) (kind : Bool) (evs : List LifecycleEvent) (e : LifecycleEvent)
    → Memᴰ e (collect set kind evs)
    → taken set kind e ≡ true
unfolding collect
collect_only set true [] e m = elim m [ ]
collect_only set false [] e m = elim m [ ]
collect_only set kind (x ∷ evs) e m = elim (Bool-cases (taken set kind x)) [
  | inl t ↦ first t (rw (collect_eq set kind x evs, t) at m) (λ k. collect_only set kind evs e k)
  | inr t ↦ collect_only set kind evs e (rw (collect_eq set kind x evs, t) at m)
]
  where
    first :
        taken set kind x ≡ true
        → Memᴰ e (x ∷ collect set kind evs)
        → (Memᴰ e (collect set kind evs) → taken set kind e ≡ true)
        → taken set kind e ≡ true
    first t (Memᴰ.head q) rest = rw q t
    first t (Memᴰ.tail k) rest = rest k

check_releases-ok :
    (acquire : LifecycleEvent) (evs : List LifecycleEvent) (e : LifecycleEvent)
    → check_releases acquire evs ≡ ok tt
    → Memᴰ e evs
    → has_event (releases acquire) e ≡ true
unfolding check_releases
check_releases-ok acquire [] e h m = elim m [ ]
check_releases-ok acquire (x ∷ evs) e h (Memᴰ.head q) = rw q (ground arith)
check_releases-ok acquire (x ∷ evs) e h (Memᴰ.tail m) =
    check_releases-ok acquire evs e (ground arith) m

at_most_one :
    (evs : List LifecycleEvent) (d e : LifecycleEvent)
    → ltb 1 (length evs) ≡ false
    → Memᴰ d evs
    → Memᴰ e evs
    → d ≡ e
at_most_one [] d e h m k = elim m [ ]
at_most_one (x ∷ []) d e h (Memᴰ.head p) (Memᴰ.head q) = p ∙ sym q
at_most_one (x ∷ []) d e h (Memᴰ.head p) (Memᴰ.tail k) = elim k [ ]
at_most_one (x ∷ []) d e h (Memᴰ.tail m) k = elim m [ ]
at_most_one (x ∷ y ∷ evs) d e h m k = ground arith

check_pair-ok :
    (acquire : LifecycleEvent) (evs : List LifecycleEvent)
    → check_pair acquire evs ≡ ok tt
    → (check_releases acquire evs ≡ ok tt) × (ltb 1 (length evs) ≡ false)
unfolding check_pair
check_pair-ok acquire evs h =
    let (u, p, q) = >>=-ok (check_releases acquire evs) _ h in (p, ground (arith, q))

check_acquires-ok :
    (acquired evs : List LifecycleEvent)
    → check_acquires acquired evs ≡ ok tt
    → (a : LifecycleEvent) × (acquired ≡ a ∷ []) × (check_pair a evs ≡ ok tt)
unfolding check_acquires
check_acquires-ok [] evs h = cc
check_acquires-ok (a ∷ []) evs h = (a, refl, h)
check_acquires-ok (a ∷ b ∷ more) evs h = cc

-- When the events of a resource hook are accepted, exactly one of them acquires the resource, and
-- what else is set is at most one event, which may release a resource that was acquired there.
pub validate_resource_events-IsResource :
    (set : LifecycleEvent → Bool) → validate_resource_events set ≡ ok tt → IsResource set
unfolding validate_resource_events
validate_resource_events-IsResource set h =
    let (a, one, pair) =
      check_acquires-ok (collect set true lifecycle_events) (collect set false lifecycle_events)
        h in
    let (allowed, short) = check_pair-ok a (collect set false lifecycle_events) pair in
    let a_taken : (set a && acquires a) ≡ true =
      collect_only set true lifecycle_events a (rw one (Memᴰ.head refl)) in
    record {
      acquire = a;
      acquires_it = ground arith;
      is_set = ground arith;
      only_acquire = λ e s q.
          single e
            (rw one at (collect_all set true lifecycle_events e (rw (s, q) refl) (every_event e)));
      only_releases = λ e s q.
          check_releases-ok a (collect set false lifecycle_events) e allowed
            (collect_all set false lifecycle_events e (rw (s, q) refl) (every_event e));
      one_release = λ d e s t p q.
          at_most_one (collect set false lifecycle_events) d e short
            (collect_all set false lifecycle_events d (rw (s, p) refl) (every_event d))
            (collect_all set false lifecycle_events e (rw (t, q) refl) (every_event e));
    }
  where
    single : {a : LifecycleEvent} (e : LifecycleEvent) → Memᴰ e (a ∷ []) → e ≡ a
    single e (Memᴰ.head q) = q
    single e (Memᴰ.tail m) = elim m [ ]
