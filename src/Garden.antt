-- ===== src/Garden.antt =====
-- crates/rustbound-server/src/hakoniwa.rs: the dimensions, the size presets and the bounds of a
-- garden. An f64 is its 64 bits.
pub mod Bounds
mod Tests
use Prim.Native.String.{String}
use rustbound_server.Prelude.{ℕ, ◌≡◌, refl, arith, Bool, true, false, ◌&&◌, List, [], ◌∷◌}
use rustbound_server.Prelude.Int.{ℤ, pos, negsuc, ◌+ℤ◌, ◌-ℤ◌, ◌*ℤ◌, leb_ℤ}
use rustbound_server.Prelude.Maps.{Key}

pub data DimensionId : Type 0 where
  overworld nether end : DimensionId

unfoldable pub protocol_name : DimensionId → String
protocol_name overworld = "minecraft:overworld"
protocol_name nether = "minecraft:the_nether"
protocol_name end = "minecraft:the_end"

unfoldable pub all : List DimensionId
all = overworld ∷ nether ∷ end ∷ []

abbrev pub eqb_dimension : DimensionId → DimensionId → Bool
eqb_dimension overworld overworld = true
eqb_dimension nether nether = true
eqb_dimension end end = true
eqb_dimension a b = false

pub eqb_dimension_refl : (a : DimensionId) → eqb_dimension a a ≡ true
eqb_dimension_refl a = ground arith

pub eqb_dimension→eq : (a b : DimensionId) → eqb_dimension a b ≡ true → a ≡ b
eqb_dimension→eq a b e = ground arith

instance abbrev pub dimension_key : Key DimensionId
dimension_key = record {
  eqb = eqb_dimension;
  eqb_refl = eqb_dimension_refl;
  eqb→eq = eqb_dimension→eq;
}

pub data MapSize : Type 0 where
  tiny small medium : MapSize

unfoldable pub chunk_radius : MapSize → ℤ
chunk_radius tiny = pos 4
chunk_radius small = pos 8
chunk_radius medium = pos 16

unfoldable pub chunk_span : MapSize → ℤ
chunk_span size = chunk_radius size *ℤ pos 2 +ℤ pos 1

pub record DimensionSet : Type 0 where
  pub has_overworld : Bool
  pub has_nether : Bool
  pub has_end : Bool

abbrev pub default_dimensions : DimensionSet
default_dimensions = record { has_overworld = true; has_nether = true; has_end = true }

unfoldable pub contains : DimensionSet → DimensionId → Bool
contains dims overworld = dims.has_overworld
contains dims nether = dims.has_nether
contains dims end = dims.has_end

pub record GardenSpec : Type 0 where
  pub size : MapSize
  pub dimensions : DimensionSet
  pub min_block_x : ℤ
  pub max_block_x : ℤ
  pub min_block_z : ℤ
  pub max_block_z : ℤ
  pub surface_y : ℕ

-- 64.0.
abbrev pub surface_height : ℕ
surface_height = 0x4050000000000000

unfoldable pub from_size : MapSize → GardenSpec
from_size size =
    let radius = chunk_radius size in
    let min_block = (pos 0 -ℤ radius) *ℤ pos 16 in
    let max_block = radius *ℤ pos 16 +ℤ pos 15 in
    record {
      size = size;
      dimensions = default_dimensions;
      min_block_x = min_block;
      max_block_x = max_block;
      min_block_z = min_block;
      max_block_z = max_block;
      surface_y = surface_height;
    }

unfoldable pub contains_chunk : GardenSpec → ℤ → ℤ → Bool
contains_chunk garden chunk_x chunk_z =
    let r = chunk_radius garden.size in
    leb_ℤ (pos 0 -ℤ r) chunk_x
    && (leb_ℤ chunk_x r && (leb_ℤ (pos 0 -ℤ r) chunk_z && leb_ℤ chunk_z r))

unfoldable pub contains_block : GardenSpec → ℤ → ℤ → Bool
contains_block garden x z =
    leb_ℤ garden.min_block_x x
    && (leb_ℤ x garden.max_block_x && (leb_ℤ garden.min_block_z z && leb_ℤ z garden.max_block_z))
