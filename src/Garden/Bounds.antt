-- ===== src/Garden/Bounds.antt =====
-- The garden's chunk bounds and block bounds.
use rustbound_server.Prelude.{◌≡◌, ap, ◌∙◌, arith, Bool, ◌&&◌}
use rustbound_server.Prelude.Int.{ℤ, pos, ◌+ℤ◌, ◌-ℤ◌, ◌*ℤ◌, leb_ℤ}
use rustbound_server.Prelude.Words.{shift_right}
use rustbound_server.Garden.{
  MapSize, tiny, small, medium, chunk_radius, from_size, contains_chunk, contains_block,
}

-- One axis: from -16r to 16r + 15 lies what shifts into -r to r.
axis :
    (size : MapSize) (x : ℤ)
    → leb_ℤ ((pos 0 -ℤ chunk_radius size) *ℤ pos 16) x
        && leb_ℤ x (chunk_radius size *ℤ pos 16 +ℤ pos 15)
      ≡ leb_ℤ (pos 0 -ℤ chunk_radius size) (shift_right x 4)
        && leb_ℤ (shift_right x 4) (chunk_radius size)
unfolding chunk_radius shift_right ◌-ℤ◌ ◌*ℤ◌ ◌+ℤ◌
axis tiny x = ground arith
axis small x = ground arith
axis medium x = ground arith

four : (a b c d : Bool) → a && (b && (c && d)) ≡ (a && b) && (c && d)
four a b c d = ground arith

-- A block column lies in the garden exactly when the chunk that holds it does, in every size preset.
pub contains_block-contains_chunk :
    (size : MapSize) (x z : ℤ)
    → contains_block (from_size size) x z
      ≡ contains_chunk (from_size size) (shift_right x 4) (shift_right z 4)
unfolding contains_block contains_chunk from_size
contains_block-contains_chunk size x z =
    let r = chunk_radius size in
    let x' = shift_right x 4 in
    let z' = shift_right z 4 in
    four _ _ (leb_ℤ ((pos 0 -ℤ r) *ℤ pos 16) z) (leb_ℤ z (r *ℤ pos 16 +ℤ pos 15))
    ∙ ap (λ b. b && (leb_ℤ ((pos 0 -ℤ r) *ℤ pos 16) z && leb_ℤ z (r *ℤ pos 16 +ℤ pos 15)))
        (axis size x)
    ∙ ap (λ b. (leb_ℤ (pos 0 -ℤ r) x' && leb_ℤ x' r) && b) (axis size z)
    ∙ ground arith
