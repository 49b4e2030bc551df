-- ===== src/World/Tests.antt =====
-- A small world: a torch over the plateau, a decoration of a map pack.
use rustbound_server.Prelude.{
  All, none, ◌≡◌, ◌≢◌, ◌⊎◌, refl, arith, ◌&&◌, if◌then◌else◌, [], ◌∷◌, length, get_elem?, some,
}
use rustbound_server.Prelude.Int.{pos, negsuc, ◌+ℤ◌, ◌-ℤ◌}
use rustbound_server.Prelude.Words.{shift_right, as_i32}
use rustbound_server.Prelude.Maps.{lookup, insert, remove, Distinct}
use rustbound_server.Garden.{
  DimensionId, overworld, nether, end, dimension_key, eqb_dimension, tiny, from_size,
}
use rustbound_server.World.{
  World, Position, position_key, eqb_position, with_garden, load_pack_blocks_for, set_block,
  get_block, blocks_of, get_client_block_deltas_for_chunk, generated_block, desired_chunks,
}
use rustbound_server.World.Blocks.{get_block-set_block}
use rustbound_server.World.Deltas.{IsMap, IsCurrent, patched, get_block-deltas, deltas-get_block}
use rustbound_server.World.View.{desired_chunks_square}
use rustbound_server.World.Portals.{
  portal_destination, portal_destination_cases, IsPortal, portal_glowstone, portal_end_stone,
}

abbrev here : Position
here = (negsuc 0, pos 64, pos 17)

abbrev world : World
world =
    set_block (load_pack_blocks_for (with_garden (from_size tiny)) nether ((here, pos 9) ∷ []))
      nether here (pos 5864)

get_block-set_block_example : get_block (set_block world overworld here (pos 1)) nether here ≡ (
    if eqb_dimension overworld nether && eqb_position here here
    then pos 1
    else get_block world nether here)
get_block-set_block_example = get_block-set_block world overworld nether here here (pos 1)

world-IsMap : IsMap world nether
unfolding set_block load_pack_blocks_for with_garden from_size blocks_of insert remove lookup
    Distinct
world-IsMap = record { overrides = (refl, tt); pack = (refl, tt) }

get_block-deltas_example :
    patched
      (get_client_block_deltas_for_chunk world nether
        (shift_right (negsuc 0) 4)
        (shift_right (pos 17) 4))
      here
      (generated_block world nether here)
    ≡ get_block world nether here
get_block-deltas_example =
    get_block-deltas world nether (negsuc 0) (pos 64) (pos 17) world-IsMap (omega arith)
      (omega arith)

deltas-get_block_example :
    Distinct (get_client_block_deltas_for_chunk world nether (negsuc 0) (pos 1))
    × All
        (IsCurrent world nether (negsuc 0) (pos 1))
        (get_client_block_deltas_for_chunk world nether (negsuc 0) (pos 1))
deltas-get_block_example = deltas-get_block world nether (negsuc 0) (pos 1) world-IsMap

desired_chunks_square_example :
    (length (desired_chunks (pos 7) (negsuc 0) (pos 2)) ≡ 25)
    × (get_elem? (desired_chunks (pos 7) (negsuc 0) (pos 2)) 9
        ≡ some (record {
          x = as_i32 (pos 7 +ℤ (pos 1 -ℤ pos 2));
          z = as_i32 (negsuc 0 +ℤ (pos 4 -ℤ pos 2));
        }))
desired_chunks_square_example =
    desired_chunks_square (pos 7) (negsuc 0) 2 1 4 (omega arith) (omega arith)

portal_destination_cases_example :
    ((portal_destination end (pos 7415) ≡ none)
      × (pos 7415 ≢ portal_glowstone)
      × ((end ≢ overworld) ⊎ (pos 7415 ≢ portal_end_stone)))
    ⊎ ((there : DimensionId) × (portal_destination end (pos 7415) ≡ some there)
        × IsPortal end there (pos 7415))
portal_destination_cases_example = portal_destination_cases end (pos 7415)
