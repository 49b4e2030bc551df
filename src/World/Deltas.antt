-- ===== src/World/Deltas.antt =====
-- The block changes that a client is sent for a chunk, against `get_block`.
use rustbound_server.Prelude.{
  All, ◌≡◌, arith, true, if◌then◌else◌, [], none, some, Bool-cases, inl, inr,
}
use rustbound_server.Prelude.Int.{ℤ, pos, ◌+ℤ◌, ◌*ℤ◌, leb_ℤ}
use rustbound_server.Prelude.Words.{IsI32, as_i32, as_signed, as_unsigned, shift_right}
use rustbound_server.Prelude.Maps.{
  lookup, filter_keys, lookup-filter_keys, filter_keys-Distinct, extend, lookup-extend, Distinct,
  or_else, insert, insert-Distinct, extend-Distinct, lookup-All,
}
use rustbound_server.Garden.{
  DimensionId, overworld, nether, end, dimension_key, eqb_dimension, GardenSpec,
}
use rustbound_server.World.{
  World, Position, position_key, Blocks, blocks_of, get_block, in_chunk,
  get_client_block_deltas_for_chunk, generated_block, set_block, with_garden,
}
use rustbound_server.World.Blocks.{blocks_of-insert}

-- The sixteen columns of a chunk are those that shift into it.
in_chunk_axis : (x : ℤ) → IsI32 x → leb_ℤ (as_i32 (shift_right x 4 *ℤ pos 16)) x ≡ true
unfolding as_i32 shift_right ◌*ℤ◌ as_signed as_unsigned
in_chunk_axis x h = ground arith

in_chunk_axis_max :
    (x : ℤ) → IsI32 x → leb_ℤ x (as_i32 (as_i32 (shift_right x 4 *ℤ pos 16) +ℤ pos 15)) ≡ true
unfolding as_i32 shift_right ◌*ℤ◌ ◌+ℤ◌ as_signed as_unsigned
in_chunk_axis_max x h = ground arith

in_own_chunk :
    (x y z : ℤ) → IsI32 x → IsI32 z → in_chunk (shift_right x 4) (shift_right z 4) (x, y, z) ≡ true
unfolding in_chunk
in_own_chunk x y z h k =
    rw (in_chunk_axis x h, in_chunk_axis_max x h, in_chunk_axis z k, in_chunk_axis_max z k)

-- The two maps of a dimension have one entry for a position.
pub record IsMap (w : World) (d : DimensionId) : Type 0 where
  pub overrides : Distinct (blocks_of w.overrides_by_dim d)
  pub pack : Distinct (blocks_of w.pack_by_dim d)

-- A write keeps one entry for a position, and a new world's maps are empty.
pub set_block-IsMap :
    (w : World) (d e : DimensionId) (p : Position) (state : ℤ)
    → IsMap w e
    → IsMap w d
    → IsMap (set_block w d p state) e
unfolding set_block
set_block-IsMap w d e p state h g =
    let old = blocks_of w.overrides_by_dim d in
    record {
      overrides = elim (Bool-cases (eqb_dimension d e)) [
        | inl same ↦
            rw (blocks_of-insert w.overrides_by_dim d e (insert p state old), same)
              (insert-Distinct p state old g.overrides)
        | inr other ↦
            rw (blocks_of-insert w.overrides_by_dim d e (insert p state old), other) h.overrides
      ];
      pack = h.pack;
    }

pub with_garden-IsMap : (garden : GardenSpec) (d : DimensionId) → IsMap (with_garden garden) d
unfolding with_garden blocks_of lookup Distinct
with_garden-IsMap garden overworld = record { overrides = tt; pack = tt }
with_garden-IsMap garden nether = record { overrides = tt; pack = tt }
with_garden-IsMap garden end = record { overrides = tt; pack = tt }

lookup-deltas :
    (w : World) (d : DimensionId) (chunk_x chunk_z : ℤ) (p : Position)
    → IsMap w d
    → lookup p (get_client_block_deltas_for_chunk w d chunk_x chunk_z) ≡ (
        if in_chunk chunk_x chunk_z p
        then or_else
            (lookup p (blocks_of w.overrides_by_dim d))
            (lookup p (blocks_of w.pack_by_dim d))
        else none)
unfolding get_client_block_deltas_for_chunk lookup
lookup-deltas w d chunk_x chunk_z p h =
    let test = in_chunk chunk_x chunk_z in
    let over = blocks_of w.overrides_by_dim d in
    let pack = blocks_of w.pack_by_dim d in
    ground (
      arith,
      lookup-extend (filter_keys test over) (extend (filter_keys test pack) []) p
          (filter_keys-Distinct test over h.overrides),
      lookup-extend (filter_keys test pack) [] p (filter_keys-Distinct test pack h.pack),
      lookup-filter_keys test p over,
      lookup-filter_keys test p pack,
    )

deltas-Distinct :
    (w : World) (d : DimensionId) (chunk_x chunk_z : ℤ)
    → Distinct (get_client_block_deltas_for_chunk w d chunk_x chunk_z)
unfolding get_client_block_deltas_for_chunk Distinct
deltas-Distinct w d chunk_x chunk_z = extend-Distinct _ _ (extend-Distinct _ [] tt)

-- What a client holds at a position: the change it was sent, else the generated block.
abbrev pub patched : Blocks → Position → ℤ → ℤ
patched deltas p generated = elim (lookup p deltas) [ some state ↦ state | none ↦ generated ]

-- Where the maps of a dimension have one entry for a position, a client that lays the changes it is
-- sent for the chunk of an i32 position over the generated blocks holds at that position the block
-- that the server reads there.
pub get_block-deltas :
    (w : World) (d : DimensionId) (x y z : ℤ)
    → IsMap w d
    → IsI32 x
    → IsI32 z
    → patched
        (get_client_block_deltas_for_chunk w d (shift_right x 4) (shift_right z 4))
        (x, y, z)
        (generated_block w d (x, y, z))
      ≡ get_block w d (x, y, z)
unfolding get_block
get_block-deltas w d x y z h hx hz = ground (
  arith,
  lookup-deltas w d (shift_right x 4) (shift_right z 4) (x, y, z) h,
  in_own_chunk x y z hx hz,
)

-- A change that lies in the chunk and is the block that the server reads at its position.
abbrev pub IsCurrent : World → DimensionId → ℤ → ℤ → Position × ℤ → Type 0
IsCurrent w d chunk_x chunk_z (p, state) =
    (in_chunk chunk_x chunk_z p ≡ true) × (get_block w d p ≡ state)

found-IsCurrent :
    (w : World) (d : DimensionId) (chunk_x chunk_z : ℤ) (p : Position) (state : ℤ)
    → IsMap w d
    → lookup p (get_client_block_deltas_for_chunk w d chunk_x chunk_z) ≡ some state
    → IsCurrent w d chunk_x chunk_z (p, state)
unfolding get_block
found-IsCurrent w d chunk_x chunk_z p state h e =
    ground (arith, lookup-deltas w d chunk_x chunk_z p h)

-- Where the maps of a dimension have one entry for a position, what is sent for a chunk has one change
-- for a position too, and every change in it, wherever it stands, lies in that chunk and is the block
-- that the server reads there.
pub deltas-get_block :
    (w : World) (d : DimensionId) (chunk_x chunk_z : ℤ)
    → IsMap w d
    → Distinct (get_client_block_deltas_for_chunk w d chunk_x chunk_z)
      × All (IsCurrent w d chunk_x chunk_z) (get_client_block_deltas_for_chunk w d chunk_x chunk_z)
deltas-get_block w d chunk_x chunk_z h =
    let one = deltas-Distinct w d chunk_x chunk_z in
    (one, lookup-All _ _ one (λ p state. found-IsCurrent w d chunk_x chunk_z p state h))
