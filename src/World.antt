-- ===== src/World.antt =====
-- crates/rustbound-server/src/world.rs: the blocks, the players and the chunk view of a world, with
-- the flat generator of chunk.rs, the fluids of fluid.rs and the portals of dimension.rs. An i32 that
-- the source adds to wraps; an f64 or f32 is its bits. The cache of generated chunk payloads is not
-- modelled.
pub mod Blocks
pub mod Deltas
pub mod View
pub mod Portals
mod Tests
use rustbound_server.Prelude.{
  ℕ, zero, suc, ◌≡◌, refl, arith, Bool, true, false, ◌&&◌, ◌||◌, if◌then◌else◌, List, [], ◌∷◌, ◌++◌,
  Option, none, some,
}
use rustbound_server.Prelude.Int.{
  ℤ, pos, negsuc, pos_part, ◌+ℤ◌, ◌-ℤ◌, ◌*ℤ◌, leb_ℤ, eqb_ℤ, eqb_ℤ_refl, eqb_ℤ→eq,
}
use rustbound_server.Prelude.Words.{as_i32}
use rustbound_server.Prelude.Maps.{Key, lookup, remove, insert, filter_keys, extend}
use rustbound_server.Protocol.Primitives.Fixed.{Uuid}
use rustbound_server.Garden.{
  DimensionId, dimension_key, overworld, nether, end, DimensionSet, GardenSpec, contains_block,
}

-- Block states.
abbrev pub air_block_state : ℤ
air_block_state = pos 0

abbrev pub stone_block_state : ℤ
stone_block_state = pos 1

abbrev pub netherrack_block_state : ℤ
netherrack_block_state = pos 5850

abbrev pub glowstone_block_state : ℤ
glowstone_block_state = pos 5864

abbrev pub end_stone_block_state : ℤ
end_stone_block_state = pos 7415

unfoldable pub plateau_block_for : DimensionId → ℤ
plateau_block_for overworld = stone_block_state
plateau_block_for nether = netherrack_block_state
plateau_block_for end = end_stone_block_state

abbrev pub flat_stone_min_y : ℤ
flat_stone_min_y = negsuc 63

abbrev pub flat_stone_max_y : ℤ
flat_stone_max_y = pos 63

-- `(low..=high).contains(&value)`.
abbrev pub in_range : ℤ → ℤ → ℤ → Bool
in_range low high value = leb_ℤ low value && leb_ℤ value high

unfoldable pub generated_flat_block : DimensionId → ℤ → ℤ → ℤ → ℤ
generated_flat_block dimension x y z =
    if in_range flat_stone_min_y flat_stone_max_y y
    then plateau_block_for dimension
    else air_block_state

abbrev pub Position : Type 0
Position = ℤ × ℤ × ℤ

abbrev pub eqb_position : Position → Position → Bool
eqb_position (x, y, z) (u, v, w) = eqb_ℤ x u && (eqb_ℤ y v && eqb_ℤ z w)

pub eqb_position_refl : (p : Position) → eqb_position p p ≡ true
eqb_position_refl (x, y, z) = ground (arith, eqb_ℤ_refl x, eqb_ℤ_refl y, eqb_ℤ_refl z)

pub eqb_position→eq : (p q : Position) → eqb_position p q ≡ true → p ≡ q
eqb_position→eq (x, y, z) (u, v, w) e = ground (arith, eqb_ℤ→eq x u, eqb_ℤ→eq y v, eqb_ℤ→eq z w)

instance abbrev pub position_key : Key Position
position_key = record { eqb = eqb_position; eqb_refl = eqb_position_refl; eqb→eq = eqb_position→eq }

instance abbrev pub entity_key : Key ℤ
entity_key = record { eqb = eqb_ℤ; eqb_refl = eqb_ℤ_refl; eqb→eq = eqb_ℤ→eq }

-- A map of block states, and one for each dimension.
abbrev pub Blocks : Type 0
Blocks = List (Position × ℤ)

abbrev pub DimensionBlocks : Type 0
DimensionBlocks = List (DimensionId × Blocks)

pub record PlayerHandle : Type 0 where
  pub entity_id : ℤ
  pub uuid : Uuid
  pub username : List ℕ
  pub x : ℕ
  pub y : ℕ
  pub z : ℕ
  pub yaw : ℕ
  pub pitch : ℕ
  pub gamemode : ℕ
  pub dimension : DimensionId

pub record World : Type 0 where
  pub players : List (ℤ × PlayerHandle)
  pub next_entity_id : ℤ
  pub spawn_x : ℕ
  pub spawn_y : ℕ
  pub spawn_z : ℕ
  pub overrides_by_dim : DimensionBlocks
  pub pack_by_dim : DimensionBlocks
  pub garden : GardenSpec
  pub enabled_dimensions : DimensionSet

-- An empty map for each of `DimensionId::all()`.
abbrev pub empty_maps : DimensionBlocks
empty_maps = (end, []) ∷ (nether, []) ∷ (overworld, []) ∷ []

-- 0.5.
abbrev pub half : ℕ
half = 0x3fe0000000000000

unfoldable pub with_garden : GardenSpec → World
with_garden garden = record {
  players = [];
  next_entity_id = pos 1;
  spawn_x = half;
  spawn_y = garden.surface_y;
  spawn_z = half;
  overrides_by_dim = empty_maps;
  pack_by_dim = empty_maps;
  garden = garden;
  enabled_dimensions = garden.dimensions;
}

unfoldable pub set_enabled_dimensions : World → DimensionSet → World
set_enabled_dimensions world dims = record world {
  enabled_dimensions = dims;
  garden = record world.garden { dimensions = dims };
}

unfoldable pub load_pack_blocks_for : World → DimensionId → Blocks → World
load_pack_blocks_for world dimension blocks = record world {
  pack_by_dim = insert dimension blocks world.pack_by_dim;
}

unfoldable pub load_block_overrides_for : World → DimensionId → Blocks → World
load_block_overrides_for world dimension overrides = record world {
  overrides_by_dim = insert dimension overrides world.overrides_by_dim;
}

-- `next_entity_id += 1`, which wraps in a release build.
unfoldable pub allocate_entity_id : World → ℤ × World
allocate_entity_id world =
    (world.next_entity_id, record world { next_entity_id = as_i32 (world.next_entity_id +ℤ pos 1) })

unfoldable pub set_spawn_point : World → ℕ → ℕ → ℕ → World
set_spawn_point world x y z = record world { spawn_x = x; spawn_y = y; spawn_z = z }

unfoldable pub add_player : World → PlayerHandle → World
add_player world player = record world { players = insert player.entity_id player world.players }

unfoldable pub remove_player : World → ℤ → Option PlayerHandle × World
remove_player world entity_id =
    (lookup entity_id world.players, record world { players = remove entity_id world.players })

unfoldable pub get_player : World → ℤ → Option PlayerHandle
get_player world entity_id = lookup entity_id world.players

-- `get(&dimension)`, and the empty map where there is none.
unfoldable pub blocks_of : DimensionBlocks → DimensionId → Blocks
blocks_of maps dimension = elim (lookup dimension maps) [ none ↦ [] | some blocks ↦ blocks ]

unfoldable pub set_block : World → DimensionId → Position → ℤ → World
set_block world dimension p block_state =
    let blocks = insert p block_state (blocks_of world.overrides_by_dim dimension) in
    record world { overrides_by_dim = insert dimension blocks world.overrides_by_dim }

unfoldable pub generated_block : World → DimensionId → Position → ℤ
generated_block world dimension (x, y, z) =
    if contains_block world.garden x z
    then generated_flat_block dimension x y z
    else air_block_state

unfoldable pub get_block : World → DimensionId → Position → ℤ
get_block world dimension p = elim (lookup p (blocks_of world.overrides_by_dim dimension)) [
  | some state ↦ state
  | none ↦ elim (lookup p (blocks_of world.pack_by_dim dimension)) [
    | some state ↦ state
    | none ↦ generated_block world dimension p
  ]
]

-- The block columns of a chunk; `chunk_x * 16` and `x_min + 15` wrap in a release build.
unfoldable pub in_chunk : ℤ → ℤ → Position → Bool
in_chunk chunk_x chunk_z (x, y, z) =
    let x_min = as_i32 (chunk_x *ℤ pos 16) in
    let z_min = as_i32 (chunk_z *ℤ pos 16) in
    in_range x_min (as_i32 (x_min +ℤ pos 15)) x && in_range z_min (as_i32 (z_min +ℤ pos 15)) z

unfoldable pub get_block_overrides_for_chunk : World → DimensionId → ℤ → ℤ → Blocks
get_block_overrides_for_chunk world dimension chunk_x chunk_z =
    filter_keys (in_chunk chunk_x chunk_z) (blocks_of world.overrides_by_dim dimension)

unfoldable pub get_client_block_deltas_for_chunk : World → DimensionId → ℤ → ℤ → Blocks
get_client_block_deltas_for_chunk world dimension chunk_x chunk_z =
    let pack = filter_keys (in_chunk chunk_x chunk_z) (blocks_of world.pack_by_dim dimension) in
    let over =
      filter_keys (in_chunk chunk_x chunk_z) (blocks_of world.overrides_by_dim dimension) in
    extend over (extend pack [])

-- `low, low + 1, …`, `count` of them.
unfoldable pub range_from : ℤ → ℕ → List ℤ
range_from low zero = []
range_from low (suc count) = low ∷ range_from (low +ℤ pos 1) count

-- `low..=high`.
unfoldable pub range_inclusive : ℤ → ℤ → List ℤ
range_inclusive low high = range_from low (pos_part (high -ℤ low +ℤ pos 1))

pub record ChunkPos : Type 0 where
  pub x : ℤ
  pub z : ℤ

-- The inner loop, over `dz`.
unfoldable pub chunk_column : ℤ → ℤ → List ℤ → List ChunkPos
chunk_column x center_z [] = []
chunk_column x center_z (dz ∷ dzs) =
    record { x = x; z = as_i32 (center_z +ℤ dz) } ∷ chunk_column x center_z dzs

unfoldable pub chunk_columns : ℤ → ℤ → List ℤ → List ℤ → List ChunkPos
chunk_columns center_x center_z [] dzs = []
chunk_columns center_x center_z (dx ∷ dxs) dzs =
    chunk_column (as_i32 (center_x +ℤ dx)) center_z dzs ++ chunk_columns center_x center_z dxs dzs

unfoldable pub desired_chunks : ℤ → ℤ → ℤ → List ChunkPos
desired_chunks center_x center_z radius =
    let square = range_inclusive (pos 0 -ℤ radius) radius in
    chunk_columns center_x center_z square square
