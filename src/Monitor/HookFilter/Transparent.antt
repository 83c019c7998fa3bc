-- ===== src/Monitor/HookFilter/Transparent.antt =====
-- cmdman/monitor/hook_filter.go: a filter that blocks nothing would change nothing, which is why
-- `newHookFilter` can answer nil for it.
use cmdman.Prelude.{
  ℕ, ◌≡◌, refl, sym, ap, ◌∙◌, Bool, true, false, not, List, [], ◌∷◌, ◌++◌, arith, drop, append-nil,
  append_assoc, replicate-add_one, none,
}
use cmdman.Prelude.Bytes.{cut}
use cmdman.Monitor.HookFilter.{
  HookBlocks, HookFilter, FilterState, in_ground, in_esc, in_utf8, in_osc_id, in_osc_pass,
  in_osc_drop, in_osc_drop_esc, classify_osc_byte, decide_osc, decide_osc9, decide_osc777,
  ground_byte, esc, osc_id, dispatch, step, filter, fresh, any, new_hook_filter, filter_viewer,
  is_data, body_of, held_with,
}
use cmdman.Monitor.HookFilter.Account.{
  held, held_in, IsValid, classify_esc, escs, dispatch-IsValid, fresh-IsValid,
}

osc9-unblocked :
    (bl : HookBlocks) (rest : List ℕ) (t : Bool)
    → any bl ≡ false
    → (decide_osc9 bl rest t).block ≡ false
unfolding decide_osc9 any
osc9-unblocked bl [] t h = ground arith
osc9-unblocked bl (c ∷ []) t h = ground arith
osc9-unblocked bl (c ∷ d ∷ rest) t h = ground arith

osc777-unblocked :
    (bl : HookBlocks) (rest : List ℕ) (t : Bool)
    → any bl ≡ false
    → (decide_osc777 bl rest t).block ≡ false
unfolding decide_osc777 any
osc777-unblocked bl rest t h = ground arith

unblocked :
    (bl : HookBlocks) (body : List ℕ) (t : Bool)
    → any bl ≡ false
    → (decide_osc bl body t).block ≡ false
unfolding decide_osc any
unblocked bl body t h =
    let rest = (cut b';' body).after in
    ground (arith, osc9-unblocked bl rest t, osc777-unblocked bl rest t)

-- Not inside a sequence that is being dropped.
abbrev is_open : FilterState → Bool
is_open in_osc_drop = false
is_open in_osc_drop_esc = false
is_open _ = true

-- The byte came through or is held, in its place, and the filter still blocks nothing.
record Kept (before : List ℕ) (b : ℕ) (r : HookFilter × List ℕ) : Type 0 where
  all_there : r.1 ++ held r.0 ≡ before ++ (b ∷ [])
  open_still : is_open r.0.state ≡ true
  none_blocked : any r.0.blocks ≡ false

ground-Kept :
    (f : HookFilter) (b : ℕ)
    → f.state ≡ in_ground
    → f.esc_carry ≡ 0
    → any f.blocks ≡ false
    → Kept [] b (ground_byte f b)
unfolding ground_byte any
ground-Kept f b s c h = rw (c, ground_byte) (ground arith)

esc-Kept :
    (f : HookFilter) (b : ℕ)
    → f.state ≡ in_esc
    → any f.blocks ≡ false
    → Kept (escs f.esc_carry ++ (0x1b ∷ [])) b (esc f b)
unfolding esc
esc-Kept f b s h = ground (
  arith,
  append_assoc (escs f.esc_carry) (0x1b ∷ []) (b ∷ []),
  append-nil (escs f.esc_carry ++ (0x1b ∷ b ∷ [])),
  replicate-add_one {A = ℕ} f.esc_carry 0x1b,
)

osc_id-Kept :
    (f : HookFilter) (b : ℕ)
    → f.state ≡ in_osc_id
    → f.esc_carry ≡ 0
    → any f.blocks ≡ false
    → Kept f.pending b (osc_id f b)
unfolding osc_id
osc_id-Kept f b s c h =
    let class = classify_osc_byte b in
    let body = body_of class (drop f.prefix_len (held_with class f.pending b)) in
    ground (
      arith,
      classify_esc b,
      unblocked f.blocks body (not (is_data class)) h,
      append-nil (f.pending ++ (b ∷ [])),
      append-nil f.pending,
    )

dispatch-Kept :
    (s : FilterState) (f : HookFilter) (b : ℕ)
    → f.state ≡ s
    → IsValid f
    → is_open s ≡ true
    → any f.blocks ≡ false
    → Kept (held_in s f.pending f.esc_carry) b (dispatch s f b)
unfolding dispatch
dispatch-Kept in_ground f b e v o h = ground-Kept f b e (ground arith) h
dispatch-Kept in_esc f b e v o h = esc-Kept f b e h
dispatch-Kept in_utf8 f b e v o h = ground arith
dispatch-Kept in_osc_id f b e v o h = osc_id-Kept f b e (ground arith) h
dispatch-Kept in_osc_pass f b e v o h = ground (arith, classify_esc b)
dispatch-Kept in_osc_drop f b e v o h = cc
dispatch-Kept in_osc_drop_esc f b e v o h = cc

filter-keeps :
    (f : HookFilter) (bs : List ℕ)
    → IsValid f
    → is_open f.state ≡ true
    → any f.blocks ≡ false
    → (filter f bs).1 ++ held (filter f bs).0 ≡ held f ++ bs
unfolding filter step
filter-keeps f [] v o h = sym (append-nil (held f))
filter-keeps f (b ∷ bs) v o h =
    let k = dispatch-Kept f.state f b refl v o h in
    let (f', out) = dispatch f.state f b in
    let (g, rest) = filter f' bs in
    append_assoc out rest (held g)
    ∙ ap (◌++◌ out)
        (filter-keeps f' bs (dispatch-IsValid f.state f b refl v) k.open_still k.none_blocked)
    ∙ sym (append_assoc out (held f') bs)
    ∙ ap (λ (l : List ℕ). l ++ bs) k.all_there
    ∙ append_assoc (held f) (b ∷ []) bs

-- The filter that `newHookFilter` replaces by nil, when no kind is blocked, lets every byte through
-- in order, less an unfinished sequence at the end that it still holds.
pub filter-transparent :
    (bl : HookBlocks) (bs : List ℕ)
    → any bl ≡ false
    → (new_hook_filter bl ≡ none)
      × ((filter (fresh bl) bs).1 ++ held (filter (fresh bl) bs).0
          ≡ (filter_viewer (new_hook_filter bl) bs).1)
unfolding new_hook_filter fresh filter_viewer
filter-transparent bl bs h =
    (rw h, filter-keeps (fresh bl) bs (fresh-IsValid bl) refl h ∙ (rw h refl))
