-- ===== src/Monitor/RingBuffer/Bounds.antt =====
-- cmdman/monitor/ringbuffer.go: the positions stay inside the buffer.
use cmdman.Prelude.{
  ℕ, ◌-◌, ◌<◌, ◌≡◌, ◌∙◌, ◌⊎◌, inl, inr, List, arith, leb, length, take, drop, Bool-cases,
  length-copy_at, length-replicate, copy_at,
}
use cmdman.Monitor.RingBuffer.{RingBuffer, new_ring_buffer, store, write}

-- The write position is an index of the buffer, or the buffer is empty.
pub record IsValid (capacity : ℕ) (r : RingBuffer) : Type 0 where
  pub sized : length r.buf ≡ capacity
  pub inside : (r.pos < capacity) ⊎ ((r.pos ≡ 0) × (capacity ≡ 0))

pub length-store : (buf : List ℕ) (pos : ℕ) (p : List ℕ) → length (store buf pos p) ≡ length buf
unfolding store
length-store buf pos p = elim (Bool-cases (leb (length p) (length buf - pos))) [
  | inl e ↦ rw e (length-copy_at buf p pos)
  | inr e ↦ rw e (
      length-copy_at (copy_at buf pos (take remaining p)) (drop remaining p) 0
      ∙ length-copy_at buf (take remaining p) pos)
]
  where
    remaining : ℕ
    remaining = length buf - pos

pub new_ring_buffer-IsValid : (capacity : ℕ) → IsValid capacity (new_ring_buffer capacity)
unfolding new_ring_buffer
new_ring_buffer-IsValid capacity = record {
  sized = length-replicate capacity 0;
  inside = omega arith;
}

-- A write keeps the capacity of a valid ring, and its write position inside the buffer (or at 0 in an
-- empty one).
pub write-IsValid :
    (capacity : ℕ) (r : RingBuffer) (p : List ℕ) → IsValid capacity r → IsValid capacity (write r p)
unfolding write
write-IsValid capacity r p v =
    ground
      (arith, length-copy_at r.buf (drop (length p - length r.buf) p) 0, length-store r.buf r.pos p)
