-- ===== src/Garden/Tests.antt =====
-- The tiny garden's edges.
use rustbound_server.Prelude.{◌≡◌, refl, true}
use rustbound_server.Prelude.Int.{pos, negsuc, ◌+ℤ◌, ◌-ℤ◌, ◌*ℤ◌}
use rustbound_server.Prelude.Words.{shift_right}
use rustbound_server.Garden.{tiny, from_size, chunk_radius, contains_block, contains_chunk}
use rustbound_server.Garden.Bounds.{contains_block-contains_chunk}

last_column : contains_block (from_size tiny) (pos 79) (negsuc 63) ≡ true
unfolding contains_block from_size chunk_radius ◌+ℤ◌ ◌-ℤ◌ ◌*ℤ◌
last_column = refl

contains_block-contains_chunk_example :
    contains_block (from_size tiny) (pos 79) (negsuc 63)
    ≡ contains_chunk (from_size tiny) (shift_right (pos 79) 4) (shift_right (negsuc 63) 4)
contains_block-contains_chunk_example = contains_block-contains_chunk tiny (pos 79) (negsuc 63)
