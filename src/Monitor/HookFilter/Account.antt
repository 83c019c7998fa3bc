-- ===== src/Monitor/HookFilter/Account.antt =====
-- cmdman/monitor/hook_filter.go: every byte that comes in is let through in its place, held, or
-- dropped.
use mathlib.Core.List.{Sublist, nil-sublist, sublist-append_right}
use mathlib.Core.List.Sublist
use cmdman.Prelude.{
  ℕ, ◌≤◌, ◌≡◌, refl, ap, ◌⊎◌, inl, inr, List, [], ◌∷◌, ◌++◌, arith, ◌==◌, replicate, Bool-cases,
  append-nil, append_assoc, replicate-add_one,
}
use cmdman.Monitor.HookFilter.{
  HookBlocks, HookFilter, FilterState, in_ground, in_esc, in_utf8, in_osc_id, in_osc_pass,
  in_osc_drop, in_osc_drop_esc, osc_esc, classify_osc_byte, ground_byte, esc, utf8, osc_id,
  osc_pass, osc_drop, osc_drop_esc, step, dispatch, filter, fresh,
}

abbrev pub escs : ℕ → List ℕ
escs n = replicate n 0x1b

-- What the filter keeps back of the bytes that it has taken, by its state.
abbrev pub held_in : FilterState → List ℕ → ℕ → List ℕ
held_in in_esc pending carry = replicate carry 0x1b ++ (0x1b ∷ [])
held_in in_osc_id pending carry = pending
held_in in_osc_drop_esc pending carry = 0x1b ∷ []
held_in _ pending carry = []

abbrev pub held : HookFilter → List ℕ
held f = held_in f.state f.pending f.esc_carry

-- Superseded ESCs are carried only while another ESC is held, and the rune in flight is at most
-- four bytes long.
pub record IsValid (f : HookFilter) : Type 0 where
  pub carry_in_esc : (f.state ≡ in_esc) ⊎ (f.esc_carry ≡ 0)
  pub rune_short : f.utf8_rest ≤ 3

-- One byte: it comes through behind what was held or joins it, or goes together with it, or takes
-- the place of what is dropped.
abbrev pub Account : List ℕ → ℕ → HookFilter × List ℕ → Type 0
Account before b r =
    (r.1 ++ held r.0 ≡ before ++ (b ∷ []))
    ⊎ ((r.1 ≡ []) × (held r.0 ≡ []))
    ⊎ ((r.1 ≡ []) × (held r.0 ≡ b ∷ []))

pub classify_esc : (b : ℕ) → classify_osc_byte b ≡ osc_esc → b ≡ 0x1b
unfolding classify_osc_byte
classify_esc b h = ground arith

ground-Account :
    (f : HookFilter) (b : ℕ)
    → f.state ≡ in_ground
    → f.esc_carry ≡ 0
    → Account [] b (ground_byte f b)
unfolding ground_byte
ground-Account f b s c = rw (c, ground_byte) (ground arith)

esc-Account :
    (f : HookFilter) (b : ℕ)
    → f.state ≡ in_esc
    → Account (replicate f.esc_carry 0x1b ++ (0x1b ∷ [])) b (esc f b)
unfolding esc
esc-Account f b s = ground (
  arith,
  append_assoc (escs f.esc_carry) (0x1b ∷ []) (b ∷ []),
  append-nil (escs f.esc_carry ++ (0x1b ∷ b ∷ [])),
  replicate-add_one {A = ℕ} f.esc_carry 0x1b,
)

utf8-Account : (f : HookFilter) (b : ℕ) → f.state ≡ in_utf8 → Account [] b (utf8 f b)
unfolding utf8
utf8-Account f b s = ground arith

osc_id-Account :
    (f : HookFilter) (b : ℕ)
    → f.state ≡ in_osc_id
    → f.esc_carry ≡ 0
    → Account f.pending b (osc_id f b)
unfolding osc_id
osc_id-Account f b s c =
    ground (arith, classify_esc b, append-nil (f.pending ++ (b ∷ [])), append-nil f.pending)

osc_pass-Account :
    (f : HookFilter) (b : ℕ) → f.state ≡ in_osc_pass → f.esc_carry ≡ 0 → Account [] b (osc_pass f b)
unfolding osc_pass
osc_pass-Account f b s c = ground (arith, classify_esc b)

osc_drop-Account :
    (f : HookFilter) (b : ℕ) → f.state ≡ in_osc_drop → f.esc_carry ≡ 0 → Account [] b (osc_drop f b)
unfolding osc_drop
osc_drop-Account f b s c = ground (arith, classify_esc b)

osc_drop_esc-Account :
    (f : HookFilter) (b : ℕ)
    → f.state ≡ in_osc_drop_esc
    → f.esc_carry ≡ 0
    → Account (0x1b ∷ []) b (osc_drop_esc f b)
unfolding osc_drop_esc
osc_drop_esc-Account f b s c = elim (Bool-cases (b == 0x5c)) [
  | inl e ↦ rw e (inr (inl (refl, refl)))
  | inr e ↦ rw e (rw (ap escs c) at (esc-Account (record f { state = in_esc }) b refl))
]

dispatch-Account :
    (s : FilterState) (f : HookFilter) (b : ℕ)
    → f.state ≡ s
    → (s ≡ in_esc) ⊎ (f.esc_carry ≡ 0)
    → Account (held_in s f.pending f.esc_carry) b (dispatch s f b)
unfolding dispatch
dispatch-Account in_ground f b e v = ground-Account f b e (ground arith)
dispatch-Account in_esc f b e v = esc-Account f b e
dispatch-Account in_utf8 f b e v = utf8-Account f b e
dispatch-Account in_osc_id f b e v = osc_id-Account f b e (ground arith)
dispatch-Account in_osc_pass f b e v = osc_pass-Account f b e (ground arith)
dispatch-Account in_osc_drop f b e v = osc_drop-Account f b e (ground arith)
dispatch-Account in_osc_drop_esc f b e v = osc_drop_esc-Account f b e (ground arith)

step-Account : (f : HookFilter) (b : ℕ) → IsValid f → Account (held f) b (step f b)
unfolding step
step-Account f b v = dispatch-Account f.state f b refl v.carry_in_esc

pub dispatch-IsValid :
    (s : FilterState) (f : HookFilter) (b : ℕ)
    → f.state ≡ s
    → IsValid f
    → IsValid (dispatch s f b).0
unfolding dispatch
dispatch-IsValid in_ground f b e v = ground arith
dispatch-IsValid in_esc f b e v = ground arith
dispatch-IsValid in_utf8 f b e v = ground arith
dispatch-IsValid in_osc_id f b e v = ground arith
dispatch-IsValid in_osc_pass f b e v = ground arith
dispatch-IsValid in_osc_drop f b e v = ground arith
dispatch-IsValid in_osc_drop_esc f b e v = ground arith

step-IsValid : (f : HookFilter) (b : ℕ) → IsValid f → IsValid (step f b).0
unfolding step
step-IsValid f b v = dispatch-IsValid f.state f b refl v

-- Whatever it has been fed, a filter carries superseded ESCs only while it holds one more, and waits
-- for at most three continuation bytes.
pub filter-IsValid : (f : HookFilter) (bs : List ℕ) → IsValid f → IsValid (filter f bs).0
unfolding filter
filter-IsValid f [] v = v
filter-IsValid f (b ∷ bs) v = filter-IsValid (step f b).0 bs (step-IsValid f b v)

pub fresh-IsValid : (bl : HookBlocks) → IsValid (fresh bl)
unfolding fresh
fresh-IsValid bl = ground arith

step-sublist :
    (f : HookFilter) (b : ℕ)
    → IsValid f
    → Sublist ((step f b).1 ++ held (step f b).0) (held f ++ (b ∷ []))
step-sublist f b v = elim (step-Account f b v) [
  | inl e ↦ rw e (Sublist.refl _)
  | inr (inl (e, e')) ↦ rw (e, e') (nil-sublist _)
  | inr (inr (e, e')) ↦ rw (e, e') (sublist-append_right (held f) (b ∷ []))
]

-- Nothing is invented, repeated or reordered: what came through, followed by what is still held, is
-- what was held before followed by the input, with bytes left out.
pub filter-sublist :
    (f : HookFilter) (bs : List ℕ)
    → IsValid f
    → Sublist ((filter f bs).1 ++ held (filter f bs).0) (held f ++ bs)
unfolding filter
filter-sublist f [] v = rw (append-nil (held f)) (Sublist.refl _)
filter-sublist f (b ∷ bs) v =
    let (f', out) = step f b in
    let (g, rest) = filter f' bs in
    let later : Sublist (rest ++ held g) (held f' ++ bs) =
      filter-sublist f' bs (step-IsValid f b v) in
    let sooner : Sublist ((out ++ held f') ++ bs) ((held f ++ (b ∷ [])) ++ bs) =
      Sublist.append (step-sublist f b v) (Sublist.refl bs) in
    rw (append_assoc out rest (held g), ← append_assoc (held f) (b ∷ []) bs)
      (Sublist.trans (Sublist.append (Sublist.refl out) later)
        (rw (append_assoc out (held f') bs) at sooner))
