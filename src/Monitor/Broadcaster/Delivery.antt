-- ===== src/Monitor/Broadcaster/Delivery.antt =====
-- cmdman/monitor/broadcaster.go: what a subscriber gets of what is sent.
use mathlib.Core.List.{Sublist, nil-sublist}
use mathlib.Core.List.Sublist
use cmdman.Prelude.{
  ℕ, ◌+◌, ◌<◌, ◌≤◌, ◌≡◌, refl, sym, ap, ap₂, subst, ◌∙◌, true, List, [], ◌∷◌, ◌++◌, append-nil,
  Option, some, none, ltb, length, length-append, Bool-cases, arith, inl, inr,
}
use cmdman.Monitor.Broadcaster.{
  Broadcaster, subscribed, capacity, new_broadcaster, Event, subscribes, unsubscribes, sends,
  closes, receives, step, run,
}
use cmdman.Monitor.Broadcaster.Invariant.{IsSafe, new_broadcaster-IsSafe}
use cmdman.Monitor.Broadcaster.Steps.{StepsTo, step-StepsTo}
use cmdman.Monitor.Broadcaster.Traffic.{
  all_sent, all_taken, kept_by, all_kept, Delivers, run_step, kept_step, step-queued, sent_by,
  all_sent_cons, step-lossless,
}

module _ {ℓ} {A : Type ℓ} where
  run-Delivers :
      (i : ℕ) (es : List (Event A)) (b : Broadcaster A)
      → IsSafe b
      → i < b.next_id
      → (b' : Broadcaster A) × Delivers i es b b'
  unfolding run
  run-Delivers i [] b s h = (
    b,
    record {
      ran = refl;
      safe = s;
      queued = sym (append-nil _);
      gone = λ q. q;
      lossless = λ k q. refl;
    },
  )
  run-Delivers i (e ∷ es) b s h =
      let (b1, one) = step-StepsTo e b s in
      let (b', more) = run-Delivers i es b1 one.safe (omega (arith, h, one.later)) in
      (
        b',
        record {
          ran = run_step e es b b1 one.stepped ∙ more.ran;
          safe = more.safe;
          queued = step-queued i e es b b1 b' one.stepped (one.queued i h) more.queued;
          gone = λ q. more.gone (one.gone i h q);
          lossless = λ k q. keeps b1 b' one more k q;
        },
      )
    where
      keeps :
          (b1 b' : Broadcaster A)
          → StepsTo e b b1
          → Delivers i es b1 b'
          → length (b.channels i).queue + length (all_sent (e ∷ es)) ≤ capacity
          → subscribed b'.subscribers i ≡ true
          → all_kept i (e ∷ es) b ≡ all_sent (e ∷ es)
      keeps b1 b' one more k q =
          let was_later : subscribed b1.subscribers i ≡ true =
            elim (Bool-cases (subscribed b1.subscribers i)) [
              | inl t ↦ t
              | inr t ↦ let no = more.gone t in cc
            ] in
          let was : subscribed b.subscribers i ≡ true =
            elim (Bool-cases (subscribed b.subscribers i)) [
              | inl t ↦ t
              | inr t ↦ let no = one.gone i h t in cc
            ] in
          let sum : length (all_sent (e ∷ es)) ≡ length (sent_by e) + length (all_sent es) =
            ap length (all_sent_cons e es) ∙ length-append (sent_by e) (all_sent es) in
          let (kept, room) =
            step-lossless i e b (length (all_sent es)) (omega (arith, k, sum)) was in
          let later = more.lossless (omega (arith, room, ap length (one.queued i h))) q in
          kept_step i e es b b1 one.stepped
          ∙ ap₂ (λ (xs ys : List A). xs ++ ys) kept later
          ∙ sym (all_sent_cons e es)

  all_kept-sublist :
      (i : ℕ) (es : List (Event A)) (b : Broadcaster A) → Sublist (all_kept i es b) (all_sent es)
  unfolding sent_by
  all_kept-sublist i [] b = nil-sublist []
  all_kept-sublist i (e ∷ es) b =
      rw (all_sent_cons e es)
        (Sublist.append (one e) (rest (step e b) (λ b'. all_kept-sublist i es b')))
    where
      one : (e : Event A) → Sublist (kept_by i e b) (sent_by e)
      one (sends v) = elim (Bool-cases (subscribed b.subscribers i)) [
        | inr q ↦ rw q (nil-sublist _)
        | inl q ↦ rw q (elim (Bool-cases (ltb (length (b.channels i).queue) capacity)) [
          | inl r ↦ rw r (Sublist.refl _)
          | inr r ↦ rw r (nil-sublist _)
        ])
      ]
      one subscribes = nil-sublist []
      one (unsubscribes j) = nil-sublist []
      one closes = nil-sublist []
      one (receives j) = nil-sublist []

      rest :
          (o : Option (Broadcaster A))
          → ((b' : Broadcaster A) → Sublist (all_kept i es b') (all_sent es))
          → Sublist (elim o [ none ↦ [] | some b' ↦ all_kept i es b' ]) (all_sent es)
      rest none h = nil-sublist _
      rest (some b') h = h b'

-- The broadcasters that operations make of a new one.
abbrev pub IsReached {ℓ} : {A : Type ℓ} → Broadcaster A → Type ℓ
IsReached {A} b = (before : List (Event A)) × (run before new_broadcaster ≡ some b)

module _ {ℓ} {A : Type ℓ} where
  -- The invariant holds after a run, which is one that does not panic.
  run-IsSafe :
      (es : List (Event A)) (b : Broadcaster A)
      → IsSafe b
      → (b' : Broadcaster A) × (run es b ≡ some b') × IsSafe b'
  unfolding run
  run-IsSafe [] b s = (b, refl, s)
  run-IsSafe (e ∷ es) b s =
      let (b1, one) = step-StepsTo e b s in
      let (b', p, t) = run-IsSafe es b1 one.safe in (b', run_step e es b b1 one.stepped ∙ p, t)

  -- No sequence of operations on a new broadcaster panics: none sends on a closed channel or closes one
  -- again, and the subscribers that are left have different ids and open channels, none of them when
  -- the broadcaster is closed.
  pub run_total :
      (es : List (Event A)) → (b : Broadcaster A) × (run es new_broadcaster ≡ some b) × IsSafe b
  run_total es = run-IsSafe es new_broadcaster new_broadcaster-IsSafe

  -- Whatever operations follow, on a broadcaster that operations made, for a channel that was made
  -- before: what is received from it, followed by what is left in its queue, is what its queue had,
  -- followed by a part of what is sent from now on, in order. It is all of that, when the id still is a
  -- subscriber's in the end and the queue has room for all that is sent.
  pub run-delivers :
      (b : Broadcaster A) (i : ℕ) (es : List (Event A))
      → IsReached b
      → i < b.next_id
      → (b' : Broadcaster A) × (run es b ≡ some b')
        × ((kept : List A) × (all_taken i es b ++ (b'.channels i).queue
              ≡ (b.channels i).queue ++ kept)
            × Sublist kept (all_sent es)
            × (length (b.channels i).queue + length (all_sent es) ≤ capacity
                → subscribed b'.subscribers i ≡ true
                → kept ≡ all_sent es))
  run-delivers b i es (before, p) h =
      let (b0, q, s) = run_total before in
      let same : b0 ≡ b = ground (arith, p, q) in
      let (b', d) = run-Delivers i es b (subst IsSafe same s) h in
      (b', d.ran, (all_kept i es b, d.queued, all_kept-sublist i es b, d.lossless))
