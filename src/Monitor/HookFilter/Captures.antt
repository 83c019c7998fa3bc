-- ===== src/Monitor/HookFilter/Captures.antt =====
-- cmdman/monitor/hook_filter.go against cmdman/monitor/runtime_state.go: which complete bodies the
-- filter blocks, and which of them the monitor's notification parsers accept.
use cmdman.Prelude.{
  ℕ, ◌≡◌, refl, Bool, true, false, ◌&&◌, ◌||◌, List, [], ◌∷◌, Option, none, some, arith, ◌==◌,
  length,
}
use cmdman.Prelude.Bytes.{equal, has_prefix, cut, has_prefix-cut, drop-cut, equal_iff, equal-length}
use cmdman.Monitor.Notification.{
  notify, message, parse_osc9_notification, parse_osc777_notification,
}
use cmdman.Monitor.HookFilter.{HookBlocks, is_digits, decide_osc9, decide_osc777, decide_osc}

abbrev pub is_some {ℓ} : {A : Type ℓ} → Option A → Bool
is_some none = false
is_some (some _) = true

-- Titles are OSC 0 and 2, whatever follows the number.
abbrev pub is_title : List ℕ → Bool
is_title body = has_prefix body (b'0' ∷ b';' ∷ []) || has_prefix body (b'2' ∷ b';' ∷ [])

-- The parser for 777 does not read the number before the first ";", so that is asked for beside it.
abbrev pub is_notification : List ℕ → Bool
is_notification body =
    is_some (parse_osc9_notification body)
    || (has_prefix body (b'7' ∷ b'7' ∷ b'7' ∷ b';' ∷ [])
        && is_some (parse_osc777_notification body))

osc9_block :
    (bl : HookBlocks) (rest : List ℕ)
    → (decide_osc9 bl rest true).block ≡ (bl.notification && is_some (message rest))
unfolding decide_osc9 message
osc9_block bl [] = ground arith
osc9_block bl (c ∷ []) = ground arith
osc9_block bl (c ∷ d ∷ rest) = ground arith

osc777_block :
    (bl : HookBlocks) (rest : List ℕ)
    → (decide_osc777 bl rest true).block
      ≡ (bl.notification && ((cut b';' rest).found && equal (cut b';' rest).before notify))
unfolding decide_osc777
osc777_block bl rest = ground arith

parse777 :
    (body : List ℕ)
    → (cut b';' body).found ≡ true
    → let rest = (cut b';' body).after in
      is_some (parse_osc777_notification body)
      ≡ ((cut b';' rest).found && equal (cut b';' rest).before notify)
unfolding parse_osc777_notification
parse777 body h = rw h (ground arith)

parse9 :
    (body : List ℕ)
    → is_some (parse_osc9_notification body) ≡ (
        ((cut b';' body).found && equal (cut b';' body).before (b'9' ∷ []))
        && is_some (message (cut b';' body).after))
unfolding parse_osc9_notification
parse9 body = ground (
  arith,
  has_prefix-cut b';' (b'9' ∷ []) body (refl, tt),
  equal-length (cut b';' body).before (b'9' ∷ []),
  drop-cut b';' body,
)

digits_of_hooked :
    (num : List ℕ)
    → (equal num (b'0' ∷ [])
        || equal num (b'2' ∷ [])
        || equal num (b'9' ∷ [])
        || equal num (b'7' ∷ b'7' ∷ b'7' ∷ []))
      ≡ true
    → ((length num == 0) ≡ false) × (is_digits num ≡ true)
unfolding is_digits
digits_of_hooked [] h = cc
digits_of_hooked (c ∷ []) h = ground arith
digits_of_hooked (c ∷ d ∷ []) h = ground arith
digits_of_hooked (c ∷ d ∷ e ∷ []) h = ground arith
digits_of_hooked (c ∷ d ∷ e ∷ f ∷ num) h = ground arith

-- On a complete body the filter blocks exactly the titles (OSC 0 and 2), if titles are blocked, and,
-- if notifications are blocked, the bodies that the parser for OSC 9 accepts and those that begin
-- with "777;" and that the parser for OSC 777 accepts. That parser also accepts bodies with another
-- number, such as "0777;notify;t", and these are not blocked as notifications.
pub decide_osc-captures :
    (bl : HookBlocks) (body : List ℕ)
    → (decide_osc bl body true).block
      ≡ ((bl.title && is_title body) || (bl.notification && is_notification body))
unfolding decide_osc
decide_osc-captures bl body =
    let num = (cut b';' body).before in
    let rest = (cut b';' body).after in
    rw
      (
        has_prefix-cut b';' (b'0' ∷ []) body (refl, tt),
        has_prefix-cut b';' (b'2' ∷ []) body (refl, tt),
        has_prefix-cut b';' (b'7' ∷ b'7' ∷ b'7' ∷ []) body (refl, (refl, (refl, tt))),
        parse9 body,
      )
      (ground (
        arith,
        digits_of_hooked num,
        osc9_block bl rest,
        osc777_block bl rest,
        parse777 body,
        equal_iff num (b'0' ∷ []),
        equal_iff num (b'2' ∷ []),
        equal_iff num (b'9' ∷ []),
        equal_iff num (b'7' ∷ b'7' ∷ b'7' ∷ []),
      ))
