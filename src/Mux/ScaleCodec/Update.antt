-- ===== src/Mux/ScaleCodec/Update.antt =====
-- cmdman/mux/cycle_scale.go: `writeScalePosition` on the text that the window has, whatever that is.
use cmdman.Prelude.{
  ℕ, ◌^◌, ◌<◌, ◌≡◌, inl, inr, ◌∙◌, false, List, some, none, if◌then◌else◌, ◌==◌, Bool-cases, arith,
}
use cmdman.Prelude.Bytes.{cut, equal}
use cmdman.Mux.ScaleCodec.{
  is_empty, put, look, delete, write_scale_position, decode_scale_positions,
}
use cmdman.Mux.ScaleCodec.Words.{NoSpace}
use cmdman.Mux.ScaleCodec.RoundTrip.{look-put, look-decode_scale_positions}
use cmdman.Mux.ScaleCodec.Decoded.{
  put-Readable, put-DistinctKeys, look-delete, delete-Readable, delete-DistinctKeys,
  decode-IsDecoded,
}

-- Writing a position changes that of its command alone, whatever text the window had: from what is
-- written back, the command's position is read as the one that was written, none for 0, and every other
-- command's as it was. The command's name is not empty and has neither a space nor "=" in it, and the
-- position is below 2 ^ 63.
pub write_scale_position-look :
    (cmd : List ℕ) (position : ℕ) (raw name : List ℕ)
    → is_empty cmd ≡ false
    → NoSpace cmd
    → (cut b'=' cmd).found ≡ false
    → position < 2 ^ 63
    → look name (decode_scale_positions (write_scale_position cmd position raw)) ≡ (
        if equal cmd name
        then if position == 0 then none else some position
        else look name (decode_scale_positions raw))
unfolding write_scale_position
write_scale_position-look cmd position raw name e n c h =
    let d = decode-IsDecoded raw in
    elim (Bool-cases (position == 0)) [
      | inl q ↦ rw q (
          look-decode_scale_positions (delete cmd (decode_scale_positions raw)) name
            (delete-Readable cmd _ d.readable) (delete-DistinctKeys cmd _ d.distinct)
          ∙ look-delete name cmd (decode_scale_positions raw))
      | inr q ↦ rw q (
          look-decode_scale_positions (put cmd position (decode_scale_positions raw)) name
            (put-Readable cmd position _ (e, n, c, ground (arith, q), h, tt) d.readable)
            (put-DistinctKeys cmd position _ d.distinct)
          ∙ look-put name cmd position (decode_scale_positions raw))
    ]
