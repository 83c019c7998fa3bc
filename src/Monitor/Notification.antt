-- ===== src/Monitor/Notification.antt =====
-- cmdman/monitor/runtime_state.go: the two notification forms that the monitor captures from an OSC
-- body.
use cmdman.Prelude.{ℕ, ◌&&◌, List, [], ◌∷◌, Option, none, some, if◌then◌else◌, ◌==◌, drop}
use cmdman.Prelude.Bytes.{equal, has_prefix, split_n}

-- "notify"
abbrev pub notify : List ℕ
notify = b'n' ∷ b'o' ∷ b't' ∷ b'i' ∷ b'f' ∷ b'y' ∷ []

-- The tests of `parseOsc9Notification` on the message behind "9;".
unfoldable pub message : List ℕ → Option (List ℕ)
message [] = none
message (c ∷ []) = if c == b'4' then none else some (c ∷ [])
message (c ∷ d ∷ rest) = if c == b'4' && d == b';' then none else some (c ∷ d ∷ rest)

unfoldable pub parse_osc9_notification : List ℕ → Option (List ℕ)
unfolding message
parse_osc9_notification body =
    if has_prefix body (b'9' ∷ b';' ∷ []) then message (drop 2 body) else none

-- The result is the title and the body.
unfoldable pub from_parts : List (List ℕ) → Option (List ℕ × List ℕ)
from_parts (number ∷ form ∷ title ∷ []) = if equal form notify then some (title, []) else none
from_parts (number ∷ form ∷ title ∷ body ∷ rest) =
    if equal form notify then some (title, body) else none
from_parts _ = none

unfoldable pub parse_osc777_notification : List ℕ → Option (List ℕ × List ℕ)
unfolding from_parts
parse_osc777_notification body = from_parts (split_n b';' 4 body)
