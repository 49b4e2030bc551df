-- ===== src/Protocol/Play/Types/Entity.antt =====
-- play.rs: the packets about entities and other players. A float is its bit pattern, a string its UTF-8 bytes.
use rustbound_server.Prelude.{ℕ, Bool, List, Option}
use rustbound_server.Prelude.Int.{ℤ}
use rustbound_server.Protocol.Primitives.Fixed.{Uuid}

pub record EntityEvent : Type 0 where
  pub entity_id : ℤ
  pub entity_status : ℕ

pub record PlayerInfoEntry : Type 0 where
  pub uuid : Uuid
  pub name : List ℕ
  pub properties : List (List ℕ × List ℕ × Option (List ℕ))
  pub gamemode : ℤ
  pub listed : Bool
  pub latency : ℤ
  pub display_name : Option (List ℕ)

pub record PlayerInfoUpdate : Type 0 where
  pub actions : ℕ
  pub entries : List PlayerInfoEntry

pub record PlayerInfoRemove : Type 0 where
  pub uuids : List Uuid

pub record SpawnPlayer : Type 0 where
  pub entity_id : ℤ
  pub uuid : Uuid
  pub x : ℕ
  pub y : ℕ
  pub z : ℕ
  pub yaw : ℕ
  pub pitch : ℕ

pub record SpawnEntity : Type 0 where
  pub entity_id : ℤ
  pub uuid : Uuid
  pub entity_type : ℤ
  pub x : ℕ
  pub y : ℕ
  pub z : ℕ
  pub pitch : ℕ
  pub yaw : ℕ
  pub head_yaw : ℕ
  pub payload : ℤ
  pub velocity_x : ℤ
  pub velocity_y : ℤ
  pub velocity_z : ℤ

pub record InteractEntity : Type 0 where
  pub entity_id : ℤ
  pub action : ℤ
  pub hand : ℤ
  pub sneaking : Bool

pub record RemoveEntities : Type 0 where
  pub entity_ids : List ℤ

pub record MoveEntityPos : Type 0 where
  pub entity_id : ℤ
  pub delta_x : ℤ
  pub delta_y : ℤ
  pub delta_z : ℤ
  pub on_ground : Bool

pub record MoveEntityPosRot : Type 0 where
  pub entity_id : ℤ
  pub delta_x : ℤ
  pub delta_y : ℤ
  pub delta_z : ℤ
  pub yaw : ℕ
  pub pitch : ℕ
  pub on_ground : Bool

pub record MoveEntityRot : Type 0 where
  pub entity_id : ℤ
  pub yaw : ℕ
  pub pitch : ℕ
  pub on_ground : Bool

pub record EntityTeleport : Type 0 where
  pub entity_id : ℤ
  pub x : ℕ
  pub y : ℕ
  pub z : ℕ
  pub yaw : ℕ
  pub pitch : ℕ
  pub on_ground : Bool
