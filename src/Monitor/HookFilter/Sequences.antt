-- ===== src/Monitor/HookFilter/Sequences.antt =====
-- cmdman/monitor/hook_filter.go: what the filter does with one whole OSC sequence, whichever byte
-- its verdict falls on.
use cmdman.Prelude.{
  ℕ, ◌-◌, ◌≡◌, refl, sym, ap, ap₂, ◌∙◌, ◌≢◌, ◌⊎◌, inl, inr, Bool, true, false, not, ◌&&◌, List, [],
  ◌∷◌, ◌++◌, arith, ltb, if◌then◌else◌, length, take, drop, length-append, take-append, drop-append,
  Bool-cases, append-nil, append_assoc,
}
use cmdman.Monitor.HookFilter.Verdicts.{
  decide_osc-terminated, decide_osc-early, decide_osc-open_short,
}
use cmdman.Monitor.HookFilter.{
  HookBlocks, HookFilter, FilterState, in_ground, in_osc_id, in_osc_pass, in_osc_drop, osc_data,
  osc_end, osc_esc, osc_abort, classify_osc_byte, osc_id, osc_id_next, decide_osc, step, filter,
}

-- A byte of an OSC string that does not end it.
abbrev pub IsData : ℕ → Type 0
IsData b = classify_osc_byte b ≡ osc_data

abbrev pub AllData : List ℕ → Type 0
AllData [] = Unit {0}
AllData (b ∷ bs) = IsData b × AllData bs

-- What ends an OSC string: BEL, the one-byte ST, CAN or SUB, or the two bytes of ST.
pub data IsTerminator (ts : List ℕ) : Type 0 where
  dispatch : (t : ℕ) → ts ≡ t ∷ [] → classify_osc_byte t ≡ osc_end → IsTerminator ts
  abort : (t : ℕ) → ts ≡ t ∷ [] → classify_osc_byte t ≡ osc_abort → IsTerminator ts
  string_terminator : ts ≡ 0x1b ∷ 0x5c ∷ [] → IsTerminator ts

-- A filter between two ESCs, by what a sequence changes of it.
abbrev pub at : HookBlocks → ℕ → FilterState → List ℕ → ℕ → HookFilter
at bl u s held n = record {
  blocks = bl;
  state = s;
  pending = held;
  prefix_len = n;
  utf8_rest = u;
  esc_carry = 0;
}

-- The filter at ground, with nothing held. The two numbers are left over from earlier bytes.
abbrev pub resting : HookBlocks → ℕ → ℕ → HookFilter
resting bl u n = at bl u in_ground [] n

either_part :
    (c : Bool) (xs ys : List ℕ)
    → ((if c then [] else xs) ++ (if c then [] else ys)) ≡ (if c then [] else xs ++ ys)
either_part true xs ys = refl
either_part false xs ys = refl

snoc-ne-nil : (xs : List ℕ) (b : ℕ) → xs ++ (b ∷ []) ≢ []
snoc-ne-nil [] b e = cc
snoc-ne-nil (x ∷ xs) b e = cc

module _ (bl : HookBlocks) (u n : ℕ) where
  end_pass :
      (ts : List ℕ) → IsTerminator ts → filter (at bl u in_osc_pass [] n) ts ≡ (resting bl u n, ts)
  unfolding filter step
  end_pass ts (dispatch t e c) = rw e (ground arith)
  end_pass ts (abort t e c) = rw e (ground arith)
  end_pass ts (string_terminator e) = rw e (unfold classify_osc_byte in refl)

  end_drop :
      (ts : List ℕ) → IsTerminator ts → filter (at bl u in_osc_drop [] n) ts ≡ (resting bl u n, [])
  unfolding filter step
  end_drop ts (dispatch t e c) = rw e (ground arith)
  end_drop ts (abort t e c) = rw e (ground arith)
  end_drop ts (string_terminator e) = rw e (unfold classify_osc_byte in refl)

  pass_rest :
      (body ts : List ℕ)
      → AllData body
      → IsTerminator ts
      → filter (at bl u in_osc_pass [] n) (body ++ ts) ≡ (resting bl u n, body ++ ts)
  unfolding filter step
  pass_rest [] ts d e = end_pass ts e
  pass_rest (b ∷ body) ts d e = ground (arith, pass_rest body ts d.1 e)

  drop_rest :
      (body ts : List ℕ)
      → AllData body
      → IsTerminator ts
      → filter (at bl u in_osc_drop [] n) (body ++ ts) ≡ (resting bl u n, [])
  unfolding filter step
  drop_rest [] ts d e = end_drop ts e
  drop_rest (b ∷ body) ts d e = ground (arith, drop_rest body ts d.1 e)

  -- The body, as `osc_id` cuts it from what is held.
  body-held :
      (intro done : List ℕ) (b : ℕ)
      → n ≡ length intro
      → drop n ((intro ++ done) ++ (b ∷ [])) ≡ done ++ (b ∷ [])
  body-held intro done b e =
      ap (drop n) (append_assoc intro done (b ∷ [])) ∙ drop-append 0 n intro _ (omega arith)

  body-ended :
      (intro done : List ℕ) (b : ℕ)
      → n ≡ length intro
      → (let body = drop n ((intro ++ done) ++ (b ∷ [])) in take (length body - 1) body) ≡ done
  body-ended intro done b e =
      ap (λ (l : List ℕ). take (length l - 1) l) (body-held intro done b e)
      ∙ take-append 0 _ done (b ∷ []) (omega (arith, length-append done (b ∷ [])))
      ∙ append-nil done

  -- The filter while a sequence is not identified: `done` of its body has come.
  abbrev reading : List ℕ → List ℕ → HookFilter
  reading intro done = at bl u in_osc_id (intro ++ done) n

  id_data :
      (intro done : List ℕ) (b : ℕ)
      → n ≡ length intro
      → IsData b
      → osc_id (reading intro done) b ≡ (
          let v = decide_osc bl (done ++ (b ∷ [])) false in
          if not v.decided && ltb (length (done ++ (b ∷ []))) 32
          then (reading intro (done ++ (b ∷ [])), [])
          else (
            at bl u (osc_id_next osc_data v.block) [] n,
            if v.block then [] else intro ++ (done ++ (b ∷ [])),
          ))
  unfolding osc_id
  id_data intro done b e d =
      rw (d, osc_id)
        (rw (body-held intro done b e, append_assoc intro done (b ∷ [])) (ground arith))

  id_end :
      (intro done : List ℕ) (t : ℕ)
      → n ≡ length intro
      → (classify_osc_byte t ≡ osc_end) ⊎ (classify_osc_byte t ≡ osc_abort)
      → osc_id (reading intro done) t ≡ (
        resting bl u n,
        if (decide_osc bl done true).block then [] else intro ++ (done ++ (t ∷ [])),
      )
  unfolding osc_id
  id_end intro done t e (inl c) =
      rw (c, osc_id)
        (rw (body-ended intro done t e, append_assoc intro done (t ∷ []))
          (ground (arith, decide_osc-terminated bl done)))
  id_end intro done t e (inr c) =
      rw (c, osc_id)
        (rw (body-ended intro done t e, append_assoc intro done (t ∷ []))
          (ground (arith, decide_osc-terminated bl done)))

  id_esc :
      (intro done : List ℕ)
      → n ≡ length intro
      → osc_id (reading intro done) 0x1b ≡ (
          let block = (decide_osc bl done true).block in
          (at bl u (osc_id_next osc_esc block) [] n, if block then [] else intro ++ done))
  unfolding osc_id classify_osc_byte
  id_esc intro done e =
      rw (drop-append 0 n intro done (omega arith)) (ground (arith, decide_osc-terminated bl done))

  -- What a whole sequence leaves of itself.
  abbrev shown : List ℕ → List ℕ → List ℕ → List ℕ
  shown intro body ts = if (decide_osc bl body true).block then [] else intro ++ (body ++ ts)

  step-reading :
      (intro done : List ℕ) (b : ℕ) → step (reading intro done) b ≡ osc_id (reading intro done) b
  unfolding step
  step-reading intro done b = refl

  one_step :
      (f : HookFilter) (b : ℕ) (bs : List ℕ) {g h : HookFilter} {out rest : List ℕ}
      → step f b ≡ (g, out)
      → filter g bs ≡ (h, rest)
      → filter f (b ∷ bs) ≡ (h, out ++ rest)
  unfolding filter
  one_step f b bs p q = cc

  last_step :
      (f : HookFilter) (b : ℕ) {g : HookFilter} {out : List ℕ}
      → step f b ≡ (g, out)
      → filter f (b ∷ []) ≡ (g, out)
  unfolding filter
  last_step f b {g} {out} p = rw p (ap (λ (l : List ℕ). (g, l)) (append-nil out))

  -- The ST behind a sequence: its ESC was taken, the backslash is next.
  backslash :
      (block : Bool)
      → filter (at bl u (osc_id_next osc_esc block) [] n) (0x5c ∷ [])
        ≡ (resting bl u n, if block then [] else (0x1b ∷ 0x5c ∷ []))
  unfolding filter step osc_id_next
  backslash true = refl
  backslash false = refl

  read_end :
      (intro done ts : List ℕ)
      → n ≡ length intro
      → IsTerminator ts
      → filter (reading intro done) ts ≡ (resting bl u n, shown intro done ts)
  read_end intro done ts e (dispatch t q c) =
      rw q (last_step _ _ (step-reading intro done t ∙ id_end intro done t e (inl c)))
  read_end intro done ts e (abort t q c) =
      rw q (last_step _ _ (step-reading intro done t ∙ id_end intro done t e (inr c)))
  read_end intro done ts e (string_terminator q) = rw q (
      one_step _ _ _ (step-reading intro done 0x1b ∙ id_esc intro done e) (backslash block)
      ∙ ap (λ (l : List ℕ). (resting bl u n, l))
          (either_part block (intro ++ done) (0x1b ∷ 0x5c ∷ [])
            ∙ ap (if◌then◌else◌ block []) (append_assoc intro done (0x1b ∷ 0x5c ∷ []))))
    where
      block : Bool
      block = (decide_osc bl done true).block

  -- Behind the verdict the filter passes or drops all of the rest.
  rest_of :
      (block : Bool) (body ts : List ℕ)
      → AllData body
      → IsTerminator ts
      → filter (at bl u (osc_id_next osc_data block) [] n) (body ++ ts)
        ≡ (resting bl u n, if block then [] else body ++ ts)
  unfolding osc_id_next
  rest_of true body ts d q = drop_rest body ts d q
  rest_of false body ts d q = pass_rest body ts d q

  data VerdictAt (intro done : List ℕ) (b : ℕ) : Type 0 where
    undecided :
        osc_id (reading intro done) b ≡ (reading intro (done ++ (b ∷ [])), [])
        → VerdictAt intro done b
    decided :
        (decide_osc bl (done ++ (b ∷ [])) false).decided ≡ true
        → (let v = decide_osc bl (done ++ (b ∷ [])) false in
            osc_id (reading intro done) b ≡ (
              at bl u (osc_id_next osc_data v.block) [] n,
              if v.block then [] else intro ++ (done ++ (b ∷ [])),
            ))
        → VerdictAt intro done b

  verdict_at : (intro done : List ℕ) (b : ℕ) → n ≡ length intro → IsData b → VerdictAt intro done b
  verdict_at intro done b e d = elim (Bool-cases (decide_osc bl (done ++ (b ∷ [])) false).decided) [
    | inl y ↦ decided y (id_data intro done b e d ∙ (rw y refl))
    | inr y ↦
        let short : ltb (length (done ++ (b ∷ []))) 32 ≡ true =
          ground (arith, decide_osc-open_short bl (done ++ (b ∷ [])) y) in
        undecided (id_data intro done b e d ∙ (rw (y, short) refl))
  ]

  read_rest :
      (intro done body ts : List ℕ)
      → n ≡ length intro
      → AllData body
      → IsTerminator ts
      → filter (reading intro done) (body ++ ts) ≡ (resting bl u n, shown intro (done ++ body) ts)
  read_rest intro done [] ts e d q = rw (append-nil done) (read_end intro done ts e q)
  read_rest intro done (b ∷ body) ts e d q = elim (verdict_at intro done b e d.0) [
    | undecided p ↦
        one_step _ _ _ (step-reading intro done b ∙ p)
          (read_rest intro (done ++ (b ∷ [])) body ts e d.1 q)
        ∙ ap (λ (l : List ℕ). (resting bl u n, shown intro l ts)) (append_assoc done (b ∷ []) body)
    | decided y p ↦
        let v = decide_osc bl (done ++ (b ∷ [])) false in
        one_step _ _ _ (step-reading intro done b ∙ p) (rest_of v.block body ts d.1 q)
        ∙ ap (λ (l : List ℕ). (resting bl u n, l))
            (either_part v.block (intro ++ (done ++ (b ∷ []))) (body ++ ts)
              ∙ ap₂ (λ c l. if c then [] else l) (settled y) regroup)
  ]
    where
      settled :
          (decide_osc bl (done ++ (b ∷ [])) false).decided ≡ true
          → (decide_osc bl (done ++ (b ∷ [])) false).block
            ≡ (decide_osc bl (done ++ b ∷ body) true).block
      settled y =
          sym (decide_osc-early bl (done ++ (b ∷ [])) body (snoc-ne-nil done b) y)
          ∙ ap (λ (l : List ℕ). (decide_osc bl l true).block) (append_assoc done (b ∷ []) body)

      regroup : (intro ++ (done ++ (b ∷ []))) ++ (body ++ ts) ≡ intro ++ ((done ++ b ∷ body) ++ ts)
      regroup = simp append_assoc

-- How an OSC sequence begins: `ESC ]`, or the single byte for it.
pub data IsIntroducer (intro : List ℕ) : Type 0 where
  escaped : intro ≡ 0x1b ∷ b']' ∷ [] → IsIntroducer intro
  single : intro ≡ 0x9d ∷ [] → IsIntroducer intro

-- A filter at ground that is given one whole OSC sequence, with any introducer, any body free of
-- terminators and any terminator, is back at ground with nothing held, and has let through either
-- nothing or every byte of the sequence: nothing exactly when the whole body is judged blocked.
pub filter-osc :
    (bl : HookBlocks) (u n : ℕ) (intro body ts : List ℕ)
    → IsIntroducer intro
    → AllData body
    → IsTerminator ts
    → filter (resting bl u n) (intro ++ (body ++ ts)) ≡ (
      resting bl u (length intro),
      if (decide_osc bl body true).block then [] else intro ++ (body ++ ts),
    )
unfolding filter step
filter-osc bl u n intro body ts (escaped e) d q =
    rw e (rw (read_rest bl u 2 (0x1b ∷ b']' ∷ []) [] body ts refl d q) refl)
filter-osc bl u n intro body ts (single e) d q =
    rw e (rw (read_rest bl u 1 (0x9d ∷ []) [] body ts refl d q) refl)
