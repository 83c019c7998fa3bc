-- ===== src/Monitor/RingBuffer/History.antt =====
-- cmdman/monitor/ringbuffer.go against its contract: the ring shows the last bytes of all that was
-- written, in order.
use cmdman.Prelude.{
  ℕ, ◌+◌, ◌-◌, ◌%◌, ◌≤◌, ◌<◌, ◌≡◌, refl, sym, ap, ap₂, ◌∙◌, ◌⊎◌, inl, inr, Bool, true, false, ◌||◌,
  List, [], ◌∷◌, ◌++◌, append-nil, append_assoc, arith, ltb, leb, length, take, drop, copy_at,
  if◌then◌else◌, le→leb, length-take, length-drop, length-append, take-append-drop, copy_at-append,
  copy_at-zero, drop-append, take-append, drop-append_le, drop-all, drop-nil, ◌≡⟨◌⟩◌, ◌∎,
}
use mathlib.Core.List.{flatten}
use native.Mathlib.Decide.{dec_lt}
use cmdman.Prelude.Windows.{last, last-short, last-append, last-suffix, last-last}
use cmdman.Monitor.RingBuffer.{RingBuffer, new_ring_buffer, store, write, write_all, bytes}
use cmdman.Monitor.RingBuffer.Bounds.{IsValid, new_ring_buffer-IsValid, write-IsValid}

-- What the ring shows, by the parts of the buffer before and behind the write position.
abbrev shown : Bool → List ℕ → List ℕ → List ℕ
shown full a c = if full then c ++ a else a

store-fits :
    (a c p : List ℕ) (n : ℕ)
    → n ≡ length a
    → length p ≤ length c
    → store (a ++ c) n p ≡ a ++ (p ++ drop (length p) c)
unfolding store
store-fits a c p n e h =
    let fits : leb (length p) (length (a ++ c) - n) ≡ true = ground (arith, length-append a c) in
    rw fits (copy_at-append a c p n e ∙ ap (◌++◌ a) (copy_at-zero c p h))

fill : (c p : List ℕ) → length p ≡ length c → copy_at c 0 p ≡ p
fill c p h =
    copy_at-zero c p (omega arith)
    ∙ ap (◌++◌ p) (drop-all (length p) c (omega arith))
    ∙ append-nil p

store-wraps :
    (a c p q : List ℕ) (n : ℕ)
    → n ≡ length a
    → length p ≡ length c
    → 0 < length q
    → length q ≤ length a
    → store (a ++ c) n (p ++ q) ≡ q ++ (drop (length q) a ++ p)
unfolding store
store-wraps a c p q n e h some_left fits =
    let room : length (a ++ c) - n ≡ length p = omega (arith, length-append a c) in
    let over : leb (length (p ++ q)) (length p) ≡ false = ground (arith, length-append p q) in
    rw (room, over)
      (copy_at (copy_at (a ++ c) n (take (length p) (p ++ q))) 0 (drop (length p) (p ++ q))
        ≡⟨ ap (copy_at (copy_at (a ++ c) n (take (length p) (p ++ q))) 0)
            (drop-append 0 _ p q (omega arith)) ⟩
          copy_at (copy_at (a ++ c) n (take (length p) (p ++ q))) 0 q
        ≡⟨ ap (λ l. copy_at (copy_at (a ++ c) n l) 0 q)
            (take-append 0 _ p q (omega arith) ∙ append-nil p) ⟩
          copy_at (copy_at (a ++ c) n p) 0 q
        ≡⟨ ap (λ l. copy_at l 0 q) (copy_at-append a c p n e ∙ ap (◌++◌ a) (fill c p h)) ⟩
          copy_at (a ++ p) 0 q
        ≡⟨ copy_at-zero (a ++ p) q (omega (arith, length-append a p)) ⟩
          q ++ drop (length q) (a ++ p)
        ≡⟨ ap (◌++◌ q) (drop-append_le (length q) a p fits) ⟩ q ++ (drop (length q) a ++ p) ∎)

abbrev ring : List ℕ → ℕ → Bool → RingBuffer
ring buf pos full = record { buf = buf; pos = pos; full = full }

bytes-ring :
    (a c : List ℕ) (n : ℕ) (full : Bool)
    → n ≡ length a
    → bytes (ring (a ++ c) n full) ≡ shown full a c
unfolding bytes
bytes-ring a c n false e = take-append 0 n a c (omega arith) ∙ append-nil a
bytes-ring a c n true e =
    ap₂ ◌++◌ (drop-append 0 n a c (omega arith)) (take-append 0 n a c (omega arith) ∙ append-nil a)

write-short :
    (r : RingBuffer) (p : List ℕ)
    → length p < length r.buf
    → write r p
      ≡ ring
          (store r.buf r.pos p)
          ((r.pos + length p) % length r.buf)
          (r.full || ltb ((r.pos + length p) % length r.buf) (length p))
unfolding write
write-short r p h = let e : leb (length r.buf) (length p) ≡ false = ground arith in rw e

write-long :
    (r : RingBuffer) (p xs : List ℕ)
    → length r.buf ≤ length p
    → bytes (write r p) ≡ last (length r.buf) (xs ++ p)
unfolding write
write-long r p xs h =
    let e : leb (length r.buf) (length p) ≡ true = le→leb _ _ h in
    let tail = drop (length p - length r.buf) p in
    let whole : copy_at r.buf 0 tail ≡ tail =
      fill r.buf tail (omega (arith, length-drop (length p - length r.buf) p)) in
    rw e (
      ap (λ l. bytes (ring l 0 true)) whole
      ∙ bytes-ring [] tail 0 true refl
      ∙ append-nil tail
      ∙ sym (last-suffix (length r.buf) xs p h))

-- The window over a full ring, by the part that the write pushes out.
last-full :
    (a c p : List ℕ) (k : ℕ)
    → length p ≡ length c + k
    → last (length a + length c) ((c ++ a) ++ p) ≡ drop k (a ++ p)
last-full a c p k e =
    last-append (length a + length c) (length c + k) (c ++ a) p (omega (arith, length-append c a))
    ∙ ap (drop (length c + k)) (append_assoc c a p)
    ∙ drop-append k _ c (a ++ p) refl

-- One write that is shorter than the buffer, by its effect on each field.
write-ring :
    (a c p b : List ℕ) (n : ℕ) (full full' : Bool)
    → length p < length a + length c
    → store (a ++ c) (length a) p ≡ b
    → (length a + length p) % (length a + length c) ≡ n
    → (full || ltb n (length p)) ≡ full'
    → write (ring (a ++ c) (length a) full) p ≡ ring b n full'
write-ring a c p b n full full' less stored moved filled = rw (
  write-short (ring (a ++ c) (length a) full) p (omega (arith, length-append a c)),
  length-append a c,
  stored,
  moved,
  filled,
)

write-inside :
    (a c p : List ℕ) (full : Bool)
    → length p < length c
    → bytes (write (ring (a ++ c) (length a) full) p)
      ≡ last (length a + length c) (shown full a c ++ p)
write-inside a c p full h =
    ap bytes (
      write-ring a c p ((a ++ p) ++ drop (length p) c) (length a + length p) full full (omega arith)
        (store-fits a c p (length a) refl (omega arith) ∙ sym (append_assoc a p _)) (grind arith)
        (ground arith))
    ∙ bytes-ring (a ++ p) (drop (length p) c) _ full (omega (arith, length-append a p))
    ∙ window full
  where
    window :
        (full : Bool)
        → shown full (a ++ p) (drop (length p) c) ≡ last (length a + length c) (shown full a c ++ p)
    window false = sym (last-short _ (a ++ p) (omega (arith, length-append a p)))
    window true = sym (
        last-append (length a + length c) (length p) (c ++ a) p (omega (arith, length-append c a))
        ∙ ap (drop (length p)) (append_assoc c a p)
        ∙ drop-append_le (length p) c (a ++ p) (omega arith))

write-to_end :
    (a c p : List ℕ) (full : Bool)
    → length p ≡ length c
    → 0 < length c
    → 0 < length a
    → bytes (write (ring (a ++ c) (length a) full) p)
      ≡ last (length a + length c) (shown full a c ++ p)
write-to_end a c p full e some_room some_kept =
    ap bytes (
      write-ring a c p (a ++ p) 0 full true (omega arith)
        (store-fits a c p (length a) refl (omega arith)
          ∙ ap (λ l. a ++ (p ++ l)) (drop-all (length p) c (omega arith))
          ∙ ap (◌++◌ a) (append-nil p))
        (grind arith) (ground arith))
    ∙ bytes-ring [] (a ++ p) 0 true refl
    ∙ append-nil (a ++ p)
    ∙ window full
  where
    window : (full : Bool) → a ++ p ≡ last (length a + length c) (shown full a c ++ p)
    window false = sym (last-short _ (a ++ p) (omega (arith, length-append a p)))
    window true = sym (last-full a c p 0 (omega arith))

write-wraps :
    (a c p q : List ℕ) (full : Bool)
    → length p ≡ length c
    → 0 < length c
    → 0 < length q
    → length q < length a
    → bytes (write (ring (a ++ c) (length a) full) (p ++ q))
      ≡ last (length a + length c) (shown full a c ++ (p ++ q))
write-wraps a c p q full e some_room some_left less =
    ap bytes (
      write-ring a c (p ++ q) (q ++ (drop (length q) a ++ p)) (length q) full true
        (omega (arith, length-append p q))
        (store-wraps a c p q (length a) refl e some_left (omega arith))
        (rw (length-append p q) (grind arith)) (rw (length-append p q) (ground arith)))
    ∙ bytes-ring q (drop (length q) a ++ p) (length q) true refl
    ∙ append_assoc (drop (length q) a) p q
    ∙ sym (drop-append_le (length q) a (p ++ q) (omega arith))
    ∙ window full
  where
    window :
        (full : Bool)
        → drop (length q) (a ++ (p ++ q)) ≡ last (length a + length c) (shown full a c ++ (p ++ q))
    window false =
        sym (
          last-append (length a + length c) (length q) a (p ++ q)
            (omega (arith, length-append p q)))
    window true = sym (last-full a c (p ++ q) (length q) (omega (arith, length-append p q)))

write-parts :
    (a c p : List ℕ) (full : Bool)
    → 0 < length c
    → bytes (write (ring (a ++ c) (length a) full) p)
      ≡ last (length a + length c) (shown full a c ++ p)
write-parts a c p full some_room = elim (dec_lt (length p) (length a + length c)) [
  | no long ↦ rw (← length-append a c) (
      write-long (ring (a ++ c) (length a) full) p (shown full a c)
        (omega (arith, length-append a c)))
  | yes short ↦ elim (dec_lt (length p) (length c)) [
    | yes less ↦ write-inside a c p full less
    | no over ↦ elim (dec_lt (length c) (length p)) [
      | no same ↦ write-to_end a c p full (omega arith) some_room (omega arith)
      | yes more ↦
          let halves : bytes
                (write (ring (a ++ c) (length a) full) (take (length c) p ++ drop (length c) p))
              ≡ last (length a + length c)
                  (shown full a c ++ (take (length c) p ++ drop (length c) p)) =
            write-wraps a c (take (length c) p) (drop (length c) p) full
              (omega (arith, length-take (length c) p)) some_room
              (omega (arith, length-drop (length c) p)) (omega (arith, length-drop (length c) p)) in
          rw (take-append-drop (length c) p) at halves
    ]
  ]
]

-- A write to a valid ring, of any length, leaves the ring showing the last `capacity` bytes of what
-- it showed followed by the bytes written.
pub bytes-write :
    (capacity : ℕ) (r : RingBuffer) (p : List ℕ)
    → IsValid capacity r
    → bytes (write r p) ≡ last capacity (bytes r ++ p)
bytes-write capacity r p v = split v.inside
  where
    open r use {buf, pos, full}

    kept : List ℕ
    kept = take pos buf

    split :
        (pos < capacity) ⊎ ((pos ≡ 0) × (capacity ≡ 0))
        → bytes (write r p) ≡ last capacity (bytes r ++ p)
    split (inr (_, nothing)) = rw (← v.sized) (write-long r p (bytes r) (omega (arith, v.sized)))
    split (inl inside) =
        let counted : length kept ≡ pos = omega (arith, length-take pos buf, v.sized) in
        let total : length kept + length (drop pos buf) ≡ capacity =
          omega (arith, length-drop pos buf, v.sized) in
        let whole : ring (kept ++ drop pos buf) (length kept) full ≡ r =
          λ i. ring (take-append-drop pos buf i) (counted i) full in
        ap (λ q. bytes (write q p)) (sym whole)
        ∙ write-parts kept (drop pos buf) p full (omega arith)
        ∙ ap₂ (λ n l. last n (l ++ p)) total
            (sym (bytes-ring kept (drop pos buf) (length kept) full refl) ∙ ap bytes whole)

bytes-write_all_from :
    (capacity : ℕ) (r : RingBuffer) (before : List ℕ) (ps : List (List ℕ))
    → IsValid capacity r
    → bytes r ≡ last capacity before
    → bytes (write_all r ps) ≡ last capacity (before ++ flatten ps)
unfolding write_all flatten
bytes-write_all_from capacity r before [] v e = rw (append-nil before) e
bytes-write_all_from capacity r before (p ∷ ps) v e = rw (← append_assoc before p (flatten ps)) (
    bytes-write_all_from capacity (write r p) (before ++ p) ps (write-IsValid capacity r p v) (
      bytes-write capacity r p v
      ∙ ap (λ l. last capacity (l ++ p)) e
      ∙ last-last capacity before p))

-- After any sequence of writes to a new ring of any capacity, `Bytes` is the last `capacity` bytes
-- of the concatenation of all that was written.
pub bytes-write_all :
    (capacity : ℕ) (ps : List (List ℕ))
    → bytes (write_all (new_ring_buffer capacity) ps) ≡ last capacity (flatten ps)
unfolding new_ring_buffer bytes
bytes-write_all capacity ps =
    bytes-write_all_from capacity (new_ring_buffer capacity) [] ps
      (new_ring_buffer-IsValid capacity) (start capacity)
  where
    start : (n : ℕ) → bytes (new_ring_buffer n) ≡ last n []
    start n = sym (drop-nil _)
