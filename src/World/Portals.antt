-- ===== src/World/Portals.antt =====
-- crates/rustbound-server/src/dimension.rs and fluid.rs: portals and fluids.
use rustbound_server.Prelude.{
  ℕ, ◌≡◌, ◌≢◌, ◌⊎◌, inl, inr, refl, arith, Bool, true, false, Bool-cases, ◌||◌, if◌then◌else◌,
  Option, none, some,
}
use rustbound_server.Prelude.Int.{ℤ, pos, eqb_ℤ, eqb_ℤ_refl, eqb_ℤ→eq}
use rustbound_server.Garden.{DimensionId, overworld, nether, end}
use rustbound_server.World.{
  World, glowstone_block_state, end_stone_block_state, in_range, generated_flat_block,
  plateau_block_for,
}

abbrev pub portal_glowstone : ℤ
portal_glowstone = glowstone_block_state

abbrev pub portal_end_stone : ℤ
portal_end_stone = end_stone_block_state

unfoldable pub portal_destination : DimensionId → ℤ → Option DimensionId
portal_destination overworld block_under_feet =
    if eqb_ℤ block_under_feet portal_glowstone
    then some nether
    else if eqb_ℤ block_under_feet portal_end_stone
    then some end
    else none
portal_destination nether block_under_feet =
    if eqb_ℤ block_under_feet portal_glowstone then some overworld else none
portal_destination end block_under_feet =
    if eqb_ℤ block_under_feet portal_glowstone then some overworld else none

-- 65.0.
abbrev pub dimension_arrival_y : ℕ
dimension_arrival_y = 0x4050400000000000

unfoldable pub arrival_position : World → ℕ × ℕ × ℕ
arrival_position world = (world.spawn_x, dimension_arrival_y, world.spawn_z)

unfoldable pub is_water : ℤ → Bool
is_water block_state = in_range (pos 80) (pos 95) block_state

unfoldable pub is_lava : ℤ → Bool
is_lava block_state = in_range (pos 96) (pos 111) block_state

unfoldable pub is_fluid : ℤ → Bool
is_fluid block_state = is_water block_state || is_lava block_state

-- No generated ground is a portal where it lies, and none is a fluid.
pub plateau_inert :
    (d : DimensionId) (x y z : ℤ)
    → (portal_destination d (generated_flat_block d x y z) ≡ none)
      × (is_fluid (generated_flat_block d x y z) ≡ false)
unfolding portal_destination generated_flat_block plateau_block_for is_fluid is_water is_lava
plateau_inert overworld x y z = ground arith
plateau_inert nether x y z = ground arith
plateau_inert end x y z = ground arith

-- The block of the pad that joins two dimensions: end stone into the End, glowstone everywhere else.
abbrev pub pad : DimensionId → ℤ
pad end = portal_end_stone
pad _ = portal_glowstone

-- Where glowstone leads.
abbrev pub beyond : DimensionId → DimensionId
beyond overworld = nether
beyond _ = overworld

-- A portal from `here` to `there` by `block`.
pub record IsPortal (here there : DimensionId) (block : ℤ) : Type 0 where
  pub apart : here ≢ there
  pub by_overworld : (here ≡ overworld) ⊎ (there ≡ overworld)
  pub by_pad : block ≡ pad there
  pub way_back : portal_destination there portal_glowstone ≡ some (beyond there)
  pub stays : (x y z : ℤ) → portal_destination there (generated_flat_block there x y z) ≡ none

differs : (a b : ℤ) → eqb_ℤ a b ≡ false → a ≢ b
differs a b h e = ground (arith, h, e, eqb_ℤ_refl b)

to_overworld :
    (here : DimensionId) (block : ℤ)
    → here ≢ overworld
    → eqb_ℤ block portal_glowstone ≡ true
    → IsPortal here overworld block
unfolding portal_destination
to_overworld here block h glow = record {
  apart = h;
  by_overworld = inr refl;
  by_pad = eqb_ℤ→eq block portal_glowstone glow;
  way_back = refl;
  stays = λ x y z. (plateau_inert overworld x y z).0;
}

-- Standing on a block leads nowhere or to one other dimension. Nowhere: the block is no glowstone, and
-- no end stone in the overworld. Elsewhere: one end is the overworld, the block is end stone into the
-- End and glowstone into the others, glowstone there leads to the overworld, or from the overworld to
-- the Nether, and no generated block there is a portal, so that nobody is sent on from its ground.
pub portal_destination_cases :
    (here : DimensionId) (block : ℤ)
    → ((portal_destination here block ≡ none)
        × (block ≢ portal_glowstone)
        × ((here ≢ overworld) ⊎ (block ≢ portal_end_stone)))
      ⊎ ((there : DimensionId) × (portal_destination here block ≡ some there)
          × IsPortal here there block)
unfolding portal_destination
portal_destination_cases overworld block = elim (Bool-cases (eqb_ℤ block portal_glowstone)) [
  | inl glow ↦ inr (
    nether,
    rw glow refl,
    record {
      apart = λ e. cc;
      by_overworld = inl refl;
      by_pad = eqb_ℤ→eq block portal_glowstone glow;
      way_back = refl;
      stays = λ x y z. (plateau_inert nether x y z).0;
    },
  )
  | inr dark ↦ elim (Bool-cases (eqb_ℤ block portal_end_stone)) [
    | inl stone ↦ inr (
      end,
      rw (dark, stone) refl,
      record {
        apart = λ e. cc;
        by_overworld = inl refl;
        by_pad = eqb_ℤ→eq block portal_end_stone stone;
        way_back = refl;
        stays = λ x y z. (plateau_inert end x y z).0;
      },
    )
    | inr other ↦ inl (
      rw (dark, other) refl,
      differs block portal_glowstone dark,
      inr (differs block portal_end_stone other),
    )
  ]
]
portal_destination_cases nether block = elim (Bool-cases (eqb_ℤ block portal_glowstone)) [
  | inl glow ↦ inr (overworld, rw glow refl, to_overworld nether block (λ e. cc) glow)
  | inr dark ↦ inl (rw dark refl, differs block portal_glowstone dark, inl (λ e. cc))
]
portal_destination_cases end block = elim (Bool-cases (eqb_ℤ block portal_glowstone)) [
  | inl glow ↦ inr (overworld, rw glow refl, to_overworld end block (λ e. cc) glow)
  | inr dark ↦ inl (rw dark refl, differs block portal_glowstone dark, inl (λ e. cc))
]
