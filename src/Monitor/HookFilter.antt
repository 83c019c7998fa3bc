-- ===== src/Monitor/HookFilter.antt =====
-- cmdman/monitor/hook_filter.go: the filter that keeps blocked terminal sequences from a viewer.
-- A method that appends to `out` and returns it is a function to the new filter and the bytes that
-- it appends; bytes are numbers below 256.
pub mod Verdicts
pub mod Sequences
pub mod Account
pub mod Captures
pub mod Transparent
use cmdman.Prelude.{
  ℕ, ◌+◌, ◌-◌, Bool, true, false, not, ◌&&◌, ◌||◌, List, [], ◌∷◌, ◌++◌, Option, none, some,
  if◌then◌else◌, ltb, leb, ◌==◌, length, take, drop, replicate,
}
use cmdman.Prelude.Bytes.{equal, has_prefix, cut}
use cmdman.Monitor.Notification.{notify}

pub record HookBlocks : Type 0 where
  pub bell : Bool
  pub title : Bool
  pub notification : Bool

unfoldable pub any : HookBlocks → Bool
any b = b.bell || b.title || b.notification

pub data FilterState : Type 0 where
  in_ground in_esc in_utf8 in_osc_id in_osc_pass in_osc_drop in_osc_drop_esc : FilterState

pub data OscByte : Type 0 where
  osc_data osc_end osc_esc osc_abort : OscByte

unfoldable pub classify_osc_byte : ℕ → OscByte
classify_osc_byte b =
    if b == 0x07 || b == 0x9c
    then osc_end
    else if b == 0x1b
    then osc_esc
    else if b == 0x18 || b == 0x1a
    then osc_abort
    else osc_data

abbrev pub osc_decide_limit : ℕ
osc_decide_limit = 32

pub record HookFilter : Type 0 where
  pub blocks : HookBlocks
  pub state : FilterState
  pub pending : List ℕ
  pub prefix_len : ℕ
  pub utf8_rest : ℕ
  pub esc_carry : ℕ

-- The zero value of the other fields, as in `&hookFilter{blocks: blocks}`.
unfoldable pub fresh : HookBlocks → HookFilter
fresh blocks = record {
  blocks = blocks;
  state = in_ground;
  pending = [];
  prefix_len = 0;
  utf8_rest = 0;
  esc_carry = 0;
}

-- The nil filter is `none`.
unfoldable pub new_hook_filter : HookBlocks → Option HookFilter
unfolding any fresh
new_hook_filter blocks = if any blocks then some (fresh blocks) else none

unfoldable pub utf8_rune_len : ℕ → ℕ
utf8_rune_len b =
    if leb 0xc2 b && leb b 0xdf
    then 2
    else if leb 0xe0 b && leb b 0xef
    then 3
    else if leb 0xf0 b && leb b 0xf4
    then 4
    else 1

unfoldable pub begin_osc : HookFilter → List ℕ → HookFilter
begin_osc f introducer =
    let pending = replicate f.esc_carry 0x1b ++ introducer in
    record f { state = in_osc_id; pending = pending; prefix_len = length pending; esc_carry = 0 }

unfoldable pub ground_byte : HookFilter → ℕ → HookFilter × List ℕ
unfolding begin_osc utf8_rune_len
ground_byte f b =
    if b == 0x1b
    then (record f { state = in_esc }, [])
    else if b == 0x9d
    then (begin_osc f (0x9d ∷ []), [])
    else if b == 0x07 && f.blocks.bell
    then (f, [])
    else if ltb 1 (utf8_rune_len b)
    then (record f { state = in_utf8; utf8_rest = utf8_rune_len b - 1 }, b ∷ [])
    else (f, b ∷ [])

-- `utf8Rest` is at least 1 here, so the decrement is exact; at 0 both sides go to ground.
unfoldable pub utf8 : HookFilter → ℕ → HookFilter × List ℕ
utf8 f b =
    let rest = f.utf8_rest - 1 in
    (record f { utf8_rest = rest; state = if leb rest 0 then in_ground else f.state }, b ∷ [])

unfoldable pub flush_esc_carry : HookFilter → HookFilter × List ℕ
flush_esc_carry f = (record f { esc_carry = 0 }, replicate f.esc_carry 0x1b)

unfoldable pub esc : HookFilter → ℕ → HookFilter × List ℕ
unfolding begin_osc flush_esc_carry
esc f b =
    if b == b']'
    then (begin_osc f (0x1b ∷ b']' ∷ []), [])
    else if b == 0x9d
    then (begin_osc f (0x1b ∷ 0x9d ∷ []), [])
    else if b == 0x1b
    then (record f { esc_carry = f.esc_carry + 1 }, [])
    else let (f', flushed) = flush_esc_carry (record f { state = in_ground }) in
      (f', flushed ++ (0x1b ∷ b ∷ []))

unfoldable pub osc_id_next : OscByte → Bool → FilterState
osc_id_next osc_end block = in_ground
osc_id_next osc_abort block = in_ground
osc_id_next osc_esc block = if block then in_osc_drop_esc else in_esc
osc_id_next osc_data block = if block then in_osc_drop else in_osc_pass

-- A verdict on an OSC body: `(block, decided)`.
pub record Verdict : Type 0 where
  pub block : Bool
  pub decided : Bool

abbrev pub verdict : Bool → Bool → Verdict
verdict block decided = record { block = block; decided = decided }

unfoldable pub is_digits : List ℕ → Bool
is_digits [] = true
is_digits (c ∷ cs) = (leb b'0' c && leb c b'9') && is_digits cs

unfoldable pub decide_osc9 : HookBlocks → List ℕ → Bool → Verdict
decide_osc9 blocks [] terminated = if terminated then verdict false true else verdict false false
decide_osc9 blocks (c ∷ []) terminated =
    if not (c == b'4')
    then verdict blocks.notification true
    else if terminated
    then verdict false true
    else verdict false false
decide_osc9 blocks (c ∷ d ∷ rest) terminated =
    if not (c == b'4')
    then verdict blocks.notification true
    else if d == b';'
    then verdict false true
    else verdict blocks.notification true

unfoldable pub decide_osc777 : HookBlocks → List ℕ → Bool → Verdict
decide_osc777 blocks rest terminated =
    let parts = cut b';' rest in
    if not parts.found
    then (if terminated
          || ltb (length notify) (length parts.before)
          || not (has_prefix notify parts.before)
        then verdict false true
        else verdict false false)
    else if not (equal parts.before notify)
    then verdict false true
    else verdict blocks.notification true

unfoldable pub decide_osc : HookBlocks → List ℕ → Bool → Verdict
decide_osc blocks body terminated =
    let parts = cut b';' body in
    let num = parts.before in
    if length num == 0 || not (is_digits num)
    then verdict false true
    else if not parts.found
    then (if terminated || ltb 3 (length num) then verdict false true else verdict false false)
    else if equal num (b'0' ∷ []) || equal num (b'2' ∷ [])
    then verdict blocks.title true
    else if equal num (b'9' ∷ [])
    then decide_osc9 blocks parts.after terminated
    else if equal num (b'7' ∷ b'7' ∷ b'7' ∷ [])
    then decide_osc777 blocks parts.after terminated
    else verdict false true

abbrev pub is_data : OscByte → Bool
is_data osc_data = true
is_data _ = false

-- What the byte adds to the held sequence: an ESC belongs to the next one.
abbrev pub held_with : OscByte → List ℕ → ℕ → List ℕ
held_with osc_esc pending b = pending
held_with _ pending b = pending ++ (b ∷ [])

-- The body behind the introducer, less a terminator.
abbrev pub body_of : OscByte → List ℕ → List ℕ
body_of osc_end body = take (length body - 1) body
body_of osc_abort body = take (length body - 1) body
body_of _ body = body

unfoldable pub osc_id : HookFilter → ℕ → HookFilter × List ℕ
unfolding osc_id_next
osc_id f b =
    let class = classify_osc_byte b in
    let held = held_with class f.pending b in
    let body = body_of class (drop f.prefix_len held) in
    let v = decide_osc f.blocks body (not (is_data class)) in
    if not v.decided && is_data class && ltb (length body) osc_decide_limit
    then (record f { pending = held }, [])
    else (
      record f { pending = []; state = osc_id_next class v.block },
      if v.block then [] else held,
    )

unfoldable pub osc_pass : HookFilter → ℕ → HookFilter × List ℕ
osc_pass f b = elim (classify_osc_byte b) [
  | osc_esc ↦ (record f { state = in_esc }, [])
  | osc_end ↦ (record f { state = in_ground }, b ∷ [])
  | osc_abort ↦ (record f { state = in_ground }, b ∷ [])
  | osc_data ↦ (f, b ∷ [])
]

unfoldable pub osc_drop : HookFilter → ℕ → HookFilter × List ℕ
osc_drop f b = elim (classify_osc_byte b) [
  | osc_esc ↦ (record f { state = in_osc_drop_esc }, [])
  | osc_end ↦ (record f { state = in_ground }, [])
  | osc_abort ↦ (record f { state = in_ground }, [])
  | osc_data ↦ (f, [])
]

unfoldable pub osc_drop_esc : HookFilter → ℕ → HookFilter × List ℕ
osc_drop_esc f b =
    if b == 0x5c then (record f { state = in_ground }, []) else esc (record f { state = in_esc }) b

-- The `switch` of `filter` on the state.
unfoldable pub dispatch : FilterState → HookFilter → ℕ → HookFilter × List ℕ
unfolding ground_byte esc utf8 osc_id osc_pass osc_drop osc_drop_esc
dispatch in_ground f b = ground_byte f b
dispatch in_esc f b = esc f b
dispatch in_utf8 f b = utf8 f b
dispatch in_osc_id f b = osc_id f b
dispatch in_osc_pass f b = osc_pass f b
dispatch in_osc_drop f b = osc_drop f b
dispatch in_osc_drop_esc f b = osc_drop_esc f b

unfoldable pub step : HookFilter → ℕ → HookFilter × List ℕ
unfolding dispatch
step f b = dispatch f.state f b

-- The loop of `filter`.
unfoldable pub filter : HookFilter → List ℕ → HookFilter × List ℕ
filter f [] = (f, [])
filter f (b ∷ bs) = let (f', out) = step f b in let (g, rest) = filter f' bs in (g, out ++ rest)

-- `filter` on the pointer: nil passes every byte through.
unfoldable pub filter_viewer : Option HookFilter → List ℕ → Option HookFilter × List ℕ
filter_viewer none bs = (none, bs)
filter_viewer (some f) bs = let (f', out) = filter f bs in (some f', out)
