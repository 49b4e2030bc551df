-- ===== src/Container/Tests.antt =====
-- A chest of 27 equal stacks.
use rustbound_server.Prelude.{
  ℕ, zero, suc, ◌≡◌, refl, arith, [], ◌∷◌, replicate, All, some, get_elem?, ◌==◌, if◌then◌else◌,
}
use rustbound_server.Prelude.Int.{pos, negsuc}
use rustbound_server.Prelude.Maps.{Distinct, lookup}
use rustbound_server.Garden.{overworld}
use rustbound_server.Container.{
  Slot, with_nbt, item, no_slots, ContainerPos, ContainerStore, chest, container_key,
  build_chest_window_slots,
}
use rustbound_server.Container.Codec.{serialize_chests, deserialize_chests}
use rustbound_server.Container.Codec.RoundTrip.{IsSlot}
use rustbound_server.Container.Codec.Store.{IsStore, deserialize_chests-serialize_chests}
use rustbound_server.Container.Window.{shown, build-apply_window_slot}

abbrev stack : Slot
stack = with_nbt (pos 277) (negsuc 0) (10 ∷ 0 ∷ [])

stack-IsSlot : IsSlot stack
stack-IsSlot = record {
  absent = λ e. absurd cc;
  id_fits = omega arith;
  count_fits = omega arith;
  short_nbt = omega arith;
}

stacks_IsSlot : (n : ℕ) → All IsSlot (replicate n stack)
stacks_IsSlot zero = tt
stacks_IsSlot (suc n) = (stack-IsSlot, stacks_IsSlot n)

abbrev place : ContainerPos
place = (overworld, (pos 3, pos 64, negsuc 0))

abbrev store : ContainerStore
store = record { chests = (place, replicate 27 stack) ∷ [] }

store-IsStore : IsStore store
unfolding Distinct lookup
store-IsStore = record {
  entries = (
    record {
      slots = stacks_IsSlot 27;
      full = refl;
      x_fits = omega arith;
      y_fits = omega arith;
      z_fits = omega arith;
    },
    tt,
  );
  distinct = (refl, tt);
  few = omega arith;
}

deserialize_chests-serialize_chests_example :
    chest (deserialize_chests (serialize_chests store)) place ≡ chest store place
deserialize_chests-serialize_chests_example =
    deserialize_chests-serialize_chests store place store-IsStore

build-apply_window_slot_example :
    shown no_slots (replicate 41 stack) 54 (item (pos 1) (pos 16)) 54 ≡ (
      if 54 == 54
      then some (item (pos 1) (pos 16))
      else get_elem? (build_chest_window_slots no_slots (replicate 41 stack)) 54)
build-apply_window_slot_example =
    build-apply_window_slot no_slots (replicate 41 stack) 54 54 (item (pos 1) (pos 16)) refl
      (omega arith) (omega arith) (omega arith)
