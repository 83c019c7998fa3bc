-- ===== src/Monitor/RingBuffer.antt =====
-- cmdman/monitor/ringbuffer.go: the scrollback ring. Each method holds the mutex for its whole body,
-- so a method is one step on the record.
pub mod Bounds
pub mod History
use cmdman.Prelude.{
  ℕ, ◌+◌, ◌-◌, ◌%◌, Bool, true, false, ◌||◌, List, [], ◌∷◌, ◌++◌, if◌then◌else◌, ltb, leb, length,
  take, drop, replicate, copy_at,
}

pub record RingBuffer : Type 0 where
  pub buf : List ℕ
  pub pos : ℕ
  pub full : Bool

-- `make([]byte, capacity)`
pub new_ring_buffer : ℕ → RingBuffer
new_ring_buffer capacity = record { buf = replicate capacity 0; pos = 0; full = false }

-- The two `copy` calls of the wrapping case, or the one of the plain case.
pub store : List ℕ → ℕ → List ℕ → List ℕ
store buf pos p =
    let remaining = length buf - pos in
    if leb (length p) remaining
    then copy_at buf pos p
    else copy_at (copy_at buf pos (take remaining p)) 0 (drop remaining p)

pub write : RingBuffer → List ℕ → RingBuffer
unfolding store
write r p =
    let p_len = length p in
    let buf_len = length r.buf in
    let pos' = (r.pos + p_len) % buf_len in
    if leb buf_len p_len
    then record { buf = copy_at r.buf 0 (drop (p_len - buf_len) p); pos = 0; full = true }
    else record { buf = store r.buf r.pos p; pos = pos'; full = r.full || ltb pos' p_len }

pub bytes : RingBuffer → List ℕ
bytes r = if r.full then drop r.pos r.buf ++ take r.pos r.buf else take r.pos r.buf

-- The monitor's use of the ring: one `Write` for each chunk of output.
pub write_all : RingBuffer → List (List ℕ) → RingBuffer
write_all r [] = r
write_all r (p ∷ ps) = write_all (write r p) ps
