-- ===== src/Protocol/Play/Types/Window.antt =====
-- play.rs: the packets about windows and their slots. A float is its bit pattern, a string its UTF-8 bytes.
use rustbound_server.Prelude.{ℕ, List}
use rustbound_server.Prelude.Int.{ℤ}
use rustbound_server.Container.{Slot}

pub record SetContainerContent : Type 0 where
  pub window_id : ℕ
  pub state_id : ℤ
  pub slots : List Slot
  pub carried_item : Slot

pub record SetContainerSlot : Type 0 where
  pub window_id : ℤ
  pub state_id : ℤ
  pub slot : ℤ
  pub item : Slot

pub record OpenScreen : Type 0 where
  pub window_id : ℤ
  pub window_type : ℤ
  pub title : List ℕ

pub record CloseContainer : Type 0 where
  pub window_id : ℕ

pub record ClickContainerChangedSlot : Type 0 where
  pub slot : ℤ
  pub item : Slot

pub record ClickContainer : Type 0 where
  pub window_id : ℕ
  pub state_id : ℤ
  pub slot : ℤ
  pub button : ℤ
  pub mode : ℤ
  pub changed_slots : List ClickContainerChangedSlot
  pub cursor : Slot

pub record SetHeldItemServerbound : Type 0 where
  pub slot : ℤ

pub record SetCreativeModeSlot : Type 0 where
  pub slot : ℤ
  pub item : Slot
