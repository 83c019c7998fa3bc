-- ===== src/Mux/Window/Written.antt =====
-- cmdman/mux/cycle_scale.go: when a window's position is written, and what is.
use cmdman.Prelude.{
  ℕ, ◌≤◌, ◌≡◌, ◌⊎◌, inl, inr, refl, sym, ap, subst, ◌∙◌, true, false, List, some, none,
  Option-cases, arith,
}
use cmdman.Prelude.Int.{ℤ}
use cmdman.Prelude.Numbers.{codes}
use cmdman.Prelude.Text.{String}
use cmdman.Prelude.Results.{Result, ok, err}
use cmdman.Mux.Cycle.{
  PositionError, pinned, find_unpinned_leaf, pinned_scale_indices, compute_target_position,
  wrap_position,
}
use cmdman.Mux.Cycle.Position.{compute_target_position-IsNext}
use cmdman.Mux.ScaleCodec.{look, decode_scale_positions, write_scale_position}
use cmdman.Mux.Window.{
  Layout, Window, Server, CycleScaleOptions, CycleOutcome, current_layout, at_least_one,
  position_or_one, write_position, respawn_leaf, show_replica, cycle_layout, cycle_scale_window,
}

Result-cases {ℓ} :
    {E : Type 0} {A : Type ℓ} (r : Result E A) → ((e : E) × (r ≡ err e)) ⊎ ((a : A) × (r ≡ ok a))
Result-cases (err e) = inl (e, refl)
Result-cases (ok a) = inr (a, refl)

-- A shown pane was respawned.
abbrev pub IsShown : CycleOutcome → Type 0
IsShown o = o.visible ≡ true → (pane : String) × (o.respawned ≡ some pane)

module _ (server : Server) (opts : CycleScaleOptions) (text : List ℕ) where
  -- The text is written for the position of the outcome before, without an error.
  record Wrote (base out : CycleOutcome) : Type 0 where
    raw : List ℕ
    was_read : server.read_state ≡ ok raw
    is_text : text ≡ write_scale_position (codes opts.command) base.new_position raw
    at_position : out.new_position ≡ base.new_position
    no_error : base.error ≡ none → out.error ≡ none
    shown : IsShown out

  write_position-Wrote :
      (base : CycleOutcome)
      → base.written ≡ none
      → IsShown base
      → (write_position server opts base).written ≡ some text
      → Wrote base (write_position server opts base)
  unfolding write_position
  write_position-Wrote base w s h = elim (Result-cases server.read_state) [
    | inl (e, q) ↦ let no = rw (write_position, q) at h in cc (w, no)
    | inr (raw, q) ↦
        elim (Option-cases
          (server.write_state (write_scale_position (codes opts.command) base.new_position raw))) [
            | inr (e, p) ↦ let no = rw (write_position, q, p) at h in cc (w, no)
            | inl p ↦
                let done : CycleOutcome = record base {
                  written = some (write_scale_position (codes opts.command) base.new_position raw);
                } in
                let same : write_position server opts base ≡ done = ground (arith, q, p) in
                subst (Wrote base) (sym same) (record {
                  raw = raw;
                  was_read = q;
                  is_text = ground (arith, sym (ap (λ (o : CycleOutcome). o.written) same) ∙ h);
                  at_position = refl;
                  no_error = λ n. n;
                  shown = s;
                })
          ]
  ]

  respawn_leaf-Wrote :
      (layout : Layout) (id pane : String) (base : CycleOutcome)
      → base.written ≡ none
      → (respawn_leaf server opts layout id pane base).written ≡ some text
      → Wrote base (respawn_leaf server opts layout id pane base)
  unfolding respawn_leaf
  respawn_leaf-Wrote layout id pane base w h =
      elim (Option-cases (find_unpinned_leaf opts.command layout.root)) [
        | inl q ↦ let no = rw (respawn_leaf, q) at h in cc (w, no)
        | inr (leaf, q) ↦ elim (Option-cases (server.respawn pane id)) [
          | inr (e, p) ↦ let no = rw (respawn_leaf, q, p) at h in cc (w, no)
          | inl p ↦
              let done : CycleOutcome =
                write_position server opts (record base { respawned = some pane }) in
              let same : respawn_leaf server opts layout id pane base ≡ done =
                ground (arith, q, p) in
              let wrote : Wrote (record base { respawned = some pane }) done =
                write_position-Wrote (record base { respawned = some pane }) w (λ v. (pane, refl))
                  (sym (ap (λ (o : CycleOutcome). o.written) same) ∙ h) in
              subst (Wrote base) (sym same) (record {
                raw = wrote.raw;
                was_read = wrote.was_read;
                is_text = wrote.is_text;
                at_position = wrote.at_position;
                no_error = wrote.no_error;
                shown = wrote.shown;
              })
        ]
      ]

  show_replica-Wrote :
      (layout : Layout) (id : String) (base : CycleOutcome)
      → base.written ≡ none
      → base.visible ≡ false
      → (show_replica server opts layout id base).written ≡ some text
      → Wrote base (show_replica server opts layout id base)
  unfolding show_replica
  show_replica-Wrote layout id base w v h = elim (Result-cases server.open_window) [
    | inl (e, q) ↦ let no = rw (show_replica, q) at h in cc (w, no)
    | inr (false, q) ↦ let no = rw (show_replica, q) at h in cc (w, no)
    | inr (true, q) ↦ elim (Result-cases server.find_pane) [
      | inl (e, p) ↦ let no = rw (show_replica, q, p) at h in cc (w, no)
      | inr ((pane, false), p) ↦
          let same : show_replica server opts layout id base ≡ write_position server opts base =
            ground (arith, q, p) in
          subst (Wrote base) (sym same) (
            write_position-Wrote base w (λ shown. cc (v, shown))
              (sym (ap (λ (o : CycleOutcome). o.written) same) ∙ h))
      | inr ((pane, true), p) ↦
          let seen : CycleOutcome = record base { visible = true } in
          let done : CycleOutcome = respawn_leaf server opts layout id pane seen in
          let same : show_replica server opts layout id base ≡ done = ground (arith, q, p) in
          let wrote : Wrote seen done =
            respawn_leaf-Wrote layout id pane seen w
              (sym (ap (λ (o : CycleOutcome). o.written) same) ∙ h) in
          subst (Wrote base) (sym same) (record {
            raw = wrote.raw;
            was_read = wrote.was_read;
            is_text = wrote.is_text;
            at_position = wrote.at_position;
            no_error = wrote.no_error;
            shown = wrote.shown;
          })
    ]
  ]

-- What is known when a position was written in a window.
pub record IsCycled (server : Server) (opts : CycleScaleOptions) (layout : Layout) (text : List ℕ)
    (o : CycleOutcome) : Type 0 where
  pub no_error : o.error ≡ none
  -- The position is at most the count, or 1 where that is lower, and no pane of the layout is
  -- pinned to it.
  pub count : ℤ
  pub counted : opts.replicas ≡ ok count
  pub in_range : (1 ≤ o.new_position) × (o.new_position ≤ at_least_one count)
  pub unpinned : pinned (pinned_scale_indices layout.root opts.command) o.new_position ≡ false
  -- A pane that is visible was respawned before.
  pub shown : IsShown o
  -- It was written into what the window had.
  pub raw : List ℕ
  pub was_read : server.read_state ≡ ok raw
  pub is_text : text ≡ write_scale_position (codes opts.command) o.new_position raw

module _ (server : Server) (opts : CycleScaleOptions) (text : List ℕ) where
  cycle_layout-IsCycled :
      (window : Window) (layout : Layout) (base : CycleOutcome)
      → base.written ≡ none
      → base.visible ≡ false
      → base.error ≡ none
      → (cycle_layout server opts window layout base).written ≡ some text
      → IsCycled server opts layout text (cycle_layout server opts window layout base)
  unfolding cycle_layout
  cycle_layout-IsCycled window layout base w v e h = elim (Result-cases opts.replicas) [
    | inl (x, q) ↦ let no = rw (cycle_layout, q) at h in cc (w, no)
    | inr (n, q) ↦ elim (Result-cases (target n)) [
      | inl (x, p) ↦ let no = rw (cycle_layout, q, p) at h in cc (w, no)
      | inr (t, p) ↦ elim (Result-cases (opts.resolver t)) [
        | inl (x, r) ↦ let no = rw (cycle_layout, q, p, r) at h in cc (w, no)
        | inr (id, r) ↦
            let before : CycleOutcome = record base { old_position = cur n; new_position = t } in
            let done : CycleOutcome = show_replica server opts layout id before in
            let same : cycle_layout server opts window layout base ≡ done =
              ground (arith, q, p, r) in
            let wrote : Wrote server opts text before done =
              show_replica-Wrote server opts text layout id before w v
                (sym (ap (λ (o : CycleOutcome). o.written) same) ∙ h) in
            let (low, high, free, why) =
              compute_target_position-IsNext (cur n) (at_least_one n) opts.position _ t p in
            subst (IsCycled server opts layout text) (sym same) (record {
              no_error = wrote.no_error e;
              count = n;
              counted = q;
              in_range =
                  (omega (arith, low, wrote.at_position), omega (arith, high, wrote.at_position));
              unpinned =
                  ap (pinned (pinned_scale_indices layout.root opts.command)) wrote.at_position
                  ∙ free;
              shown = wrote.shown;
              raw = wrote.raw;
              was_read = wrote.was_read;
              is_text =
                  wrote.is_text
                  ∙ ap (λ k. write_scale_position (codes opts.command) k wrote.raw)
                      (sym wrote.at_position);
            })
      ]
    ]
  ]
    where
      cur : ℤ → ℕ
      cur n =
          wrap_position
            (position_or_one (look (codes opts.command) (decode_scale_positions window.state)))
            (at_least_one n)

      target : ℤ → Result PositionError ℕ
      target n =
          compute_target_position (cur n) opts.position (at_least_one n)
            (pinned_scale_indices layout.root opts.command)

  -- When a position is written in a window, the window's marker names a layout and there is no error;
  -- the position is from 1 to the greater of 1 and the count of replicas, and no pane of the layout is
  -- pinned to it; a pane that is visible was respawned; and what is written is the text that was read,
  -- with the position of the command changed.
  pub cycle_scale_window-IsCycled :
      (window : Window)
      → (cycle_scale_window server opts window).written ≡ some text
      → (layout : Layout) × (current_layout opts.layouts window.marker ≡ some layout)
        × IsCycled server opts layout text (cycle_scale_window server opts window)
  unfolding cycle_scale_window
  cycle_scale_window-IsCycled window h =
      elim (Option-cases (current_layout opts.layouts window.marker)) [
        | inl q ↦ let no = rw (cycle_scale_window, q) at h in cc
        | inr (layout, q) ↦
            let base : CycleOutcome = record {
              layout_name = layout.name;
              old_position = 0;
              new_position = 0;
              visible = false;
              error = none;
              respawned = none;
              written = none;
            } in
            let done : CycleOutcome = cycle_layout server opts window layout base in
            let same : cycle_scale_window server opts window ≡ done = ground (arith, q) in
            (
              layout,
              q,
              subst (IsCycled server opts layout text) (sym same) (
                  cycle_layout-IsCycled window layout base refl refl refl
                    (sym (ap (λ (o : CycleOutcome). o.written) same) ∙ h)),
            )
      ]
