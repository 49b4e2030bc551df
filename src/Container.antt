-- ===== src/Container.antt =====
-- crates/rustbound-server/src/container.rs: chests, their window and their file format, with the
-- slots of crates/rustbound-protocol/src/play.rs. Files are not modelled: the bytes are.
pub mod Window
pub mod Codec
mod Tests
use rustbound_server.Prelude.{
  ℕ, zero, suc, ◌+◌, ◌-◌, ◌<◌, ◌≡◌, refl, arith, Bool, true, false, ◌&&◌, if◌then◌else◌, List, [],
  ◌∷◌, ◌++◌, length, set, get_or, replicate, ltb, Option, none, some,
}
use rustbound_server.Prelude.Int.{ℤ, pos, negsuc, pos_part, leb_ℤ, ltb_ℤ}
use rustbound_server.Prelude.Maps.{Key, lookup, remove, insert}
use rustbound_server.Garden.{DimensionId, eqb_dimension, eqb_dimension_refl, eqb_dimension→eq}
use rustbound_server.World.{Position, eqb_position, eqb_position_refl, eqb_position→eq, in_range}

pub record Slot : Type 0 where
  pub present : Bool
  pub item_id : ℤ
  pub count : ℤ
  pub nbt : List ℕ

abbrev pub empty : Slot
empty = record { present = false; item_id = pos 0; count = pos 0; nbt = [] }

abbrev pub with_nbt : ℤ → ℤ → List ℕ → Slot
with_nbt item_id count nbt = record { present = true; item_id = item_id; count = count; nbt = nbt }

abbrev pub item : ℤ → ℤ → Slot
item item_id count = with_nbt item_id count []

abbrev pub chest_slot_count : ℕ
chest_slot_count = 27

abbrev pub chest_window_slot_count : ℕ
chest_window_slot_count = 63

unfoldable pub is_chest : ℤ → Bool
is_chest block_state = in_range (pos 2954) (pos 2977) block_state

-- The window's slots 27 to 53 are the player's 9 to 35, and 54 to 62 the player's 0 to 8.
unfoldable pub window_slot_to_player_slot : ℤ → Option ℕ
window_slot_to_player_slot window_slot =
    if in_range (pos 27) (pos 53) window_slot
    then some (pos_part window_slot - 27 + 9)
    else if in_range (pos 54) (pos 62) window_slot
    then some (pos_part window_slot - 54)
    else none

unfoldable pub is_chest_window_slot : ℤ → Bool
is_chest_window_slot window_slot =
    leb_ℤ (pos 0) window_slot && ltb_ℤ window_slot (pos chest_slot_count)

-- `for i in start..start + count`.
unfoldable pub player_slots : List Slot → ℕ → ℕ → List Slot
player_slots player start zero = []
player_slots player start (suc count) =
    get_or player start empty ∷ player_slots player (start + 1) count

unfoldable pub build_chest_window_slots : List Slot → List Slot → List Slot
build_chest_window_slots chest player =
    chest ++ (player_slots player 9 27 ++ player_slots player 0 9)

unfoldable pub apply_player_slot : List Slot → Option ℕ → Slot → List Slot
apply_player_slot player none slot = player
apply_player_slot player (some player_slot) slot =
    if ltb player_slot (length player) then set player player_slot slot else player

-- The chest and the player's slots behind the write.
unfoldable pub apply_window_slot : List Slot → List Slot → ℤ → Slot → List Slot × List Slot
apply_window_slot chest player window_slot slot =
    if is_chest_window_slot window_slot
    then (set chest (pos_part window_slot) slot, player)
    else (chest, apply_player_slot player (window_slot_to_player_slot window_slot) slot)

abbrev pub no_slots : List Slot
no_slots = replicate chest_slot_count empty

-- Dirt, stone, oak planks and a chest.
unfoldable pub starter_chest_loot : List Slot
starter_chest_loot =
    set
      (set (set (set no_slots 0 (item (pos 10) (pos 16))) 1 (item (pos 1) (pos 16))) 2
        (item (pos 23) (pos 8)))
      13 (item (pos 277) (pos 1))

abbrev pub ContainerPos : Type 0
ContainerPos = DimensionId × Position

abbrev pub eqb_container : ContainerPos → ContainerPos → Bool
eqb_container (d, p) (e, q) = eqb_dimension d e && eqb_position p q

pub eqb_container_refl : (p : ContainerPos) → eqb_container p p ≡ true
eqb_container_refl (d, p) = ground (arith, eqb_dimension_refl d, eqb_position_refl p)

pub eqb_container→eq : (p q : ContainerPos) → eqb_container p q ≡ true → p ≡ q
eqb_container→eq (d, p) (e, q) h = ground (arith, eqb_dimension→eq d e, eqb_position→eq p q)

instance abbrev pub container_key : Key ContainerPos
container_key = record {
  eqb = eqb_container;
  eqb_refl = eqb_container_refl;
  eqb→eq = eqb_container→eq;
}

pub record ContainerStore : Type 0 where
  pub chests : List (ContainerPos × List Slot)

abbrev pub new : ContainerStore
new = record { chests = [] }

abbrev pub fresh_slots : Bool → List Slot
fresh_slots seed = if seed then starter_chest_loot else no_slots

-- The slots that the reference stands at, and the store that has them.
unfoldable pub chest_mut : ContainerStore → ContainerPos → Bool → List Slot × ContainerStore
chest_mut store p seed = elim (lookup p store.chests) [
  | some slots ↦ (slots, store)
  | none ↦ (fresh_slots seed, record { chests = insert p (fresh_slots seed) store.chests })
]

-- A write through the reference.
unfoldable pub write_chest : ContainerStore → ContainerPos → List Slot → ContainerStore
write_chest store p slots = record { chests = insert p slots store.chests }

unfoldable pub chest : ContainerStore → ContainerPos → Option (List Slot)
chest store p = lookup p store.chests

unfoldable pub remove_chest : ContainerStore → ContainerPos → ContainerStore
remove_chest store p = record { chests = remove p store.chests }

unfoldable pub ensure_seeded : ContainerStore → ContainerPos → ContainerStore
unfolding chest_mut
ensure_seeded store p = (chest_mut store p true).1
