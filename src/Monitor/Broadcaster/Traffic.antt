-- ===== src/Monitor/Broadcaster/Traffic.antt =====
-- cmdman/monitor/broadcaster.go: what is sent, what a channel keeps of it and what is taken from the channel.
use cmdman.Prelude.{
  ℕ, ◌+◌, ◌≤◌, ◌≡◌, refl, sym, ap, ◌∙◌, true, false, List, [], ◌∷◌, ◌++◌, append_assoc, append-nil,
  some, none, if◌then◌else◌, ◌==◌, ltb, length, length-append, Bool-cases, arith, inl, inr,
}
use cmdman.Monitor.Broadcaster.{
  Broadcaster, subscribed, capacity, tail_of, Event, subscribes, unsubscribes, sends, closes,
  receives, step, run,
}
use cmdman.Monitor.Broadcaster.Invariant.{IsSafe}
use cmdman.Monitor.Broadcaster.Steps.{queue_after}

module _ {ℓ} {A : Type ℓ} where
  -- What is sent, in order.
  abbrev pub all_sent : List (Event A) → List A
  all_sent [] = []
  all_sent (sends v ∷ es) = v ∷ all_sent es
  all_sent (subscribes ∷ es) = all_sent es
  all_sent (unsubscribes j ∷ es) = all_sent es
  all_sent (closes ∷ es) = all_sent es
  all_sent (receives j ∷ es) = all_sent es

  -- What a receive on the channel takes out of it.
  abbrev pub head_of : List A → List A
  head_of [] = []
  head_of (v ∷ vs) = v ∷ []

  abbrev pub taken_by : ℕ → Event A → Broadcaster A → List A
  taken_by i (receives j) b = if j == i then head_of (b.channels i).queue else []
  taken_by i (sends v) b = []
  taken_by i subscribes b = []
  taken_by i (unsubscribes j) b = []
  taken_by i closes b = []

  -- What is received from the channel, in order.
  abbrev pub all_taken : ℕ → List (Event A) → Broadcaster A → List A
  all_taken i [] b = []
  all_taken i (e ∷ es) b =
      taken_by i e b ++ (elim (step e b) [ none ↦ [] | some b' ↦ all_taken i es b' ])

  -- What one step adds to the channel.
  abbrev pub kept_by : ℕ → Event A → Broadcaster A → List A
  kept_by i (sends v) b =
      if subscribed b.subscribers i
      then if ltb (length (b.channels i).queue) capacity then v ∷ [] else []
      else []
  kept_by i (receives j) b = []
  kept_by i subscribes b = []
  kept_by i (unsubscribes j) b = []
  kept_by i closes b = []

  -- A step only appends to the queue and takes from its front.
  step-queue :
      (i : ℕ) (e : Event A) (b : Broadcaster A)
      → taken_by i e b ++ queue_after i e b ≡ (b.channels i).queue ++ kept_by i e b
  step-queue i subscribes b = sym (append-nil _)
  step-queue i (unsubscribes j) b = sym (append-nil _)
  step-queue i closes b = sym (append-nil _)
  step-queue i (sends v) b = ground (arith, append-nil (b.channels i).queue)
  step-queue i (receives j) b = elim (Bool-cases (j == i)) [
    | inl q ↦ rw q (front (b.channels i).queue)
    | inr q ↦ rw q (sym (append-nil _))
  ]
    where
      front : (vs : List A) → head_of vs ++ tail_of vs ≡ vs ++ []
      front [] = refl
      front (v ∷ vs) = sym (append-nil (v ∷ vs))

  abbrev pub all_kept : ℕ → List (Event A) → Broadcaster A → List A
  all_kept i [] b = []
  all_kept i (e ∷ es) b =
      kept_by i e b ++ (elim (step e b) [ none ↦ [] | some b' ↦ all_kept i es b' ])

  -- What a run makes of a channel that was made before.
  pub record Delivers (i : ℕ) (es : List (Event A)) (b b' : Broadcaster A) : Type ℓ where
    pub ran : run es b ≡ some b'
    pub safe : IsSafe b'
    pub queued : all_taken i es b ++ (b'.channels i).queue ≡ (b.channels i).queue ++ all_kept i es b
    pub gone : subscribed b.subscribers i ≡ false → subscribed b'.subscribers i ≡ false
    pub lossless :
        length (b.channels i).queue + length (all_sent es) ≤ capacity
        → subscribed b'.subscribers i ≡ true
        → all_kept i es b ≡ all_sent es

  pub run_step :
      (e : Event A) (es : List (Event A)) (b b' : Broadcaster A)
      → step e b ≡ some b'
      → run (e ∷ es) b ≡ run es b'
  unfolding run
  run_step e es b b' h = rw (run, h) refl

  pub taken_step :
      (i : ℕ) (e : Event A) (es : List (Event A)) (b b' : Broadcaster A)
      → step e b ≡ some b'
      → all_taken i (e ∷ es) b ≡ taken_by i e b ++ all_taken i es b'
  taken_step i e es b b' h = rw h refl

  pub kept_step :
      (i : ℕ) (e : Event A) (es : List (Event A)) (b b' : Broadcaster A)
      → step e b ≡ some b'
      → all_kept i (e ∷ es) b ≡ kept_by i e b ++ all_kept i es b'
  kept_step i e es b b' h = rw h refl

  pub step-queued :
      (i : ℕ) (e : Event A) (es : List (Event A)) (b b1 b' : Broadcaster A)
      → step e b ≡ some b1
      → (b1.channels i).queue ≡ queue_after i e b
      → all_taken i es b1 ++ (b'.channels i).queue ≡ (b1.channels i).queue ++ all_kept i es b1
      → all_taken i (e ∷ es) b ++ (b'.channels i).queue
        ≡ (b.channels i).queue ++ all_kept i (e ∷ es) b
  step-queued i e es b b1 b' h q later =
      ap (λ (vs : List A). vs ++ (b'.channels i).queue) (taken_step i e es b b1 h)
      ∙ append_assoc (taken_by i e b) (all_taken i es b1) (b'.channels i).queue
      ∙ ap (λ (vs : List A). taken_by i e b ++ vs)
          (later ∙ ap (λ (vs : List A). vs ++ all_kept i es b1) q)
      ∙ sym (append_assoc (taken_by i e b) (queue_after i e b) (all_kept i es b1))
      ∙ ap (λ (vs : List A). vs ++ all_kept i es b1) (step-queue i e b)
      ∙ append_assoc (b.channels i).queue (kept_by i e b) (all_kept i es b1)
      ∙ ap (λ (vs : List A). (b.channels i).queue ++ vs) (sym (kept_step i e es b b1 h))

  -- The values of one event.
  unfoldable pub sent_by : Event A → List A
  sent_by (sends v) = v ∷ []
  sent_by subscribes = []
  sent_by (unsubscribes j) = []
  sent_by closes = []
  sent_by (receives j) = []

  pub all_sent_cons :
      (e : Event A) (es : List (Event A)) → all_sent (e ∷ es) ≡ sent_by e ++ all_sent es
  unfolding sent_by
  all_sent_cons (sends v) es = refl
  all_sent_cons subscribes es = refl
  all_sent_cons (unsubscribes j) es = refl
  all_sent_cons closes es = refl
  all_sent_cons (receives j) es = refl

  -- With room for all that is sent, a step keeps what is sent to a subscriber.
  pub step-lossless :
      (i : ℕ) (e : Event A) (b : Broadcaster A) (rest : ℕ)
      → length (b.channels i).queue + (length (sent_by e) + rest) ≤ capacity
      → subscribed b.subscribers i ≡ true
      → (kept_by i e b ≡ sent_by e) × (length (queue_after i e b) + rest ≤ capacity)
  unfolding sent_by
  step-lossless i (sends v) b rest h s =
      (ground (arith, h, s), ground (arith, h, s, length-append (b.channels i).queue (v ∷ [])))
  step-lossless i subscribes b rest h s = (refl, omega (arith, h))
  step-lossless i (unsubscribes j) b rest h s = (refl, omega (arith, h))
  step-lossless i closes b rest h s = (refl, omega (arith, h))
  step-lossless i (receives j) b rest h s = (
    refl,
    elim (Bool-cases (j == i)) [
      | inl q ↦ rw q (shorter (b.channels i).queue h)
      | inr q ↦ rw q (omega (arith, h))
    ],
  )
    where
      shorter :
          (vs : List A) → length vs + (0 + rest) ≤ capacity → length (tail_of vs) + rest ≤ capacity
      shorter [] k = omega (arith, k)
      shorter (v ∷ vs) k = omega (arith, k)
