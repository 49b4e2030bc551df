-- ===== src/Protocol/Play/Types/World.antt =====
-- play.rs: the packets about chunks and blocks. A float is its bit pattern, a string its UTF-8 bytes.
use rustbound_server.Prelude.{ℕ, Bool, List}
use rustbound_server.Prelude.Int.{ℤ}
use rustbound_server.Protocol.Play.Types.Enums.{PlayerDiggingAction}

pub record ChunkData : Type 0 where
  pub chunk_x : ℤ
  pub chunk_z : ℤ
  pub heightmaps : List ℕ
  pub payload : List ℕ
  pub block_entities : List (List ℕ)
  pub light_data : List ℕ

pub record SetDefaultSpawnPosition : Type 0 where
  pub location : ℤ × ℤ × ℤ
  pub angle : ℕ

pub record SetCenterChunk : Type 0 where
  pub chunk_x : ℤ
  pub chunk_z : ℤ

pub record UnloadChunk : Type 0 where
  pub chunk_x : ℤ
  pub chunk_z : ℤ

pub record SetBlockDestroyStage : Type 0 where
  pub entity_id : ℤ
  pub position : ℤ × ℤ × ℤ
  pub destroy_stage : ℤ

pub record SetRenderDistance : Type 0 where
  pub view_distance : ℤ

pub record SetSimulationDistance : Type 0 where
  pub simulation_distance : ℤ

pub record PlayerDigging : Type 0 where
  pub action : PlayerDiggingAction
  pub position : ℤ × ℤ × ℤ
  pub face : ℕ
  pub sequence : ℤ

pub record UseItemOn : Type 0 where
  pub position : ℤ × ℤ × ℤ
  pub face : ℕ
  pub hand : ℤ
  pub cursor_x : ℕ
  pub cursor_y : ℕ
  pub cursor_z : ℕ
  pub inside_block : Bool
  pub sequence : ℤ

pub record BlockUpdate : Type 0 where
  pub position : ℤ × ℤ × ℤ
  pub block_state : ℤ

pub record AcknowledgeBlockChange : Type 0 where
  pub sequence : ℤ
