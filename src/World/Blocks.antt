-- ===== src/World/Blocks.antt =====
-- `get_block` and `set_block`.
use rustbound_server.Prelude.{◌≡◌, refl, arith, ◌&&◌, if◌then◌else◌, some, Bool-cases, inl, inr}
use rustbound_server.Prelude.Int.{ℤ}
use rustbound_server.Prelude.Maps.{lookup, insert, lookup-insert}
use rustbound_server.Garden.{DimensionId, dimension_key, eqb_dimension, eqb_dimension→eq}
use rustbound_server.World.{
  World, Position, position_key, eqb_position, Blocks, DimensionBlocks, blocks_of, set_block,
  get_block, generated_block,
}

-- The map of a dimension behind an insertion.
pub blocks_of-insert :
    (maps : DimensionBlocks) (d e : DimensionId) (blocks : Blocks)
    → blocks_of (insert d blocks maps) e ≡ (if eqb_dimension d e then blocks else blocks_of maps e)
unfolding blocks_of
blocks_of-insert maps d e blocks = ground (arith, lookup-insert d e blocks maps)

generated_block-set_block :
    (w : World) (d e : DimensionId) (p q : Position) (state : ℤ)
    → generated_block (set_block w d p state) e q ≡ generated_block w e q
unfolding generated_block set_block
generated_block-set_block w d e p q state = refl

overrides-set_block :
    (w : World) (d e : DimensionId) (p q : Position) (state : ℤ)
    → lookup q (blocks_of (set_block w d p state).overrides_by_dim e) ≡ (
        if eqb_dimension d e && eqb_position p q
        then some state
        else lookup q (blocks_of w.overrides_by_dim e))
unfolding set_block
overrides-set_block w d e p q state =
    let blocks = insert p state (blocks_of w.overrides_by_dim d) in
    let old = blocks_of w.overrides_by_dim d in
    elim (Bool-cases (eqb_dimension d e)) [
      | inl same ↦ ground (
        arith,
        same,
        eqb_dimension→eq d e same,
        blocks_of-insert w.overrides_by_dim d e blocks,
        lookup-insert p q state old,
      )
      | inr other ↦ ground (arith, other, blocks_of-insert w.overrides_by_dim d e blocks)
    ]

pack-set_block :
    (w : World) (d e : DimensionId) (p : Position) (state : ℤ)
    → blocks_of (set_block w d p state).pack_by_dim e ≡ blocks_of w.pack_by_dim e
unfolding set_block
pack-set_block w d e p state = refl

-- After `set_block` the block reads as written at that position of that dimension, and every other
-- block of every dimension reads as before.
pub get_block-set_block :
    (w : World) (d e : DimensionId) (p q : Position) (state : ℤ)
    → get_block (set_block w d p state) e q
      ≡ (if eqb_dimension d e && eqb_position p q then state else get_block w e q)
unfolding get_block
get_block-set_block w d e p q state = ground (
  arith,
  overrides-set_block w d e p q state,
  generated_block-set_block w d e p q state,
  pack-set_block w d e p state,
)
