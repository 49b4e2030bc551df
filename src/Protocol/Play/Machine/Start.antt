-- ===== src/Protocol/Play/Machine/Start.antt =====
-- What a new play state machine sends.
use rustbound_server.Prelude.{none, false, ℕ, ◌≡◌, refl, arith, List, [], ◌∷◌, ◌++◌, true, inl, inr}
use rustbound_server.Prelude.Int.{pos}
use rustbound_server.Prelude.Words.{IsI32, IsI64}
use rustbound_server.Prelude.Buffer.{ok, success, Outcome-cases}
use rustbound_server.Protocol.Primitives.Text.{is_utf8}
use rustbound_server.Protocol.Play.Types.{PlayDecodeOutcome, join_game, synchronize_player_position}
use rustbound_server.Protocol.Play.Codec.Join.{encode_join_game, decode_join_game}
use rustbound_server.Protocol.Play.Codec.Movement.{
  encode_synchronize_player_position, decode_synchronize_player_position,
}
use rustbound_server.Protocol.Play.RoundTrip.Slots.{IsCompound}
use rustbound_server.Protocol.Play.RoundTrip.Join.{IsJoinGame}
use rustbound_server.Protocol.Play.RoundTrip.Movement.{IsSynchronizePlayerPosition}
use rustbound_server.Protocol.Play.RoundTrip.TwoWay.{decode-encode}
use rustbound_server.Protocol.Play.RoundTrip.Codecs.{synchronize_player_position_codec}
use rustbound_server.Protocol.Play.RoundTrip.WithNbt.{decode_fuelled-encode, join_game_codec}
use rustbound_server.Protocol.Play.Machine.{
  PlayConfig, PlayStateMachine, first_join_game, first_position, spawned, new,
  awaiting_teleport_confirm, active, confirm_teleport, confirmed,
}

-- A configuration whose fields are values of their Rust types.
pub record IsPlayConfig (config : PlayConfig) : Type 0 where
  pub entity_id : IsI32 config.entity_id
  pub dimension_name : is_utf8 config.dimension_name ≡ true
  pub hashed_seed : IsI64 config.hashed_seed
  pub max_players : IsI32 config.max_players
  pub view_distance : IsI32 config.view_distance
  pub simulation_distance : IsI32 config.simulation_distance

first_join_game-IsJoinGame :
    (fuel : ℕ) (registry_codec : List ℕ) (config : PlayConfig)
    → IsCompound fuel registry_codec
    → IsPlayConfig config
    → IsJoinGame fuel (first_join_game registry_codec config)
unfolding first_join_game
first_join_game-IsJoinGame fuel registry_codec config c h = record {
  entity_id = h.entity_id;
  dimension_names = (h.dimension_name, tt);
  registry_codec = c;
  dimension_type = h.dimension_name;
  dimension_name = h.dimension_name;
  hashed_seed = h.hashed_seed;
  max_players = h.max_players;
  view_distance = h.view_distance;
  simulation_distance = h.simulation_distance;
  death = (refl, refl);
  portal_cooldown = omega arith;
}

first_position-IsSynchronizePlayerPosition : IsSynchronizePlayerPosition first_position
unfolding first_position
first_position-IsSynchronizePlayerPosition = record {
  x = omega arith;
  y = omega arith;
  z = omega arith;
  yaw = omega arith;
  pitch = omega arith;
  flags = omega arith;
  teleport_id = omega arith;
}

new_wires :
    (registry_codec : List ℕ) (config : PlayConfig) (self : PlayStateMachine)
    (outgoing : List (List ℕ))
    → new registry_codec config ≡ success (self, outgoing)
    → (join_wire : List ℕ) × (sync_wire : List ℕ) × (self ≡ spawned config)
      × (outgoing ≡ join_wire ∷ sync_wire ∷ [])
      × (encode_join_game (first_join_game registry_codec config) config.max_frame_length []
          ≡ ok tt join_wire)
      × (encode_synchronize_player_position first_position config.max_frame_length []
          ≡ ok tt sync_wire)
unfolding new
new_wires registry_codec config self outgoing e =
    elim (Outcome-cases
      (encode_join_game (first_join_game registry_codec config) config.max_frame_length [])) [
        | inr (x, rest, j) ↦ absurd (ground (arith, j))
        | inl (u, join_wire, j) ↦
            elim (Outcome-cases
              (encode_synchronize_player_position first_position config.max_frame_length [])) [
                | inr (x, rest, s) ↦ absurd (ground (arith, j, s))
                | inl (v, sync_wire, s) ↦
                    (join_wire, sync_wire, ground (arith, j, s), ground (arith, j, s), j, s)
              ]
      ]

-- A new machine waits for the teleport at x 0, y 64, z 0 and no rotation, with no keep alive pending,
-- and its first confirmation makes it active there. Two packets go out. A client that receives them
-- one after the other reads a Join Game with the configured fields in their places, no previous game
-- mode and no death location, and behind it the position at which the machine has the player; what
-- follows both stays in the input. The configuration's fields fit their types, and the registry codec
-- is a compound without a byte array that the fuel is enough for.
pub new_session :
    (registry_codec : List ℕ) (config : PlayConfig) (self : PlayStateMachine)
    (outgoing : List (List ℕ)) (fuel : ℕ) (rest : List ℕ)
    → IsCompound fuel registry_codec
    → IsPlayConfig config
    → new registry_codec config ≡ success (self, outgoing)
    → (join_wire : List ℕ) × (sync_wire : List ℕ) × (outgoing ≡ join_wire ∷ sync_wire ∷ [])
      × (self ≡ record {
        phase = awaiting_teleport_confirm;
        config = config;
        last_keep_alive_payload = none;
        player_x = 0;
        player_y = 0x4050_0000_0000_0000;
        player_z = 0;
        player_yaw = 0;
        player_pitch = 0;
      })
      × (confirm_teleport self ≡ (success tt, record self { phase = active }))
      × (decode_join_game fuel config.max_frame_length (join_wire ++ (sync_wire ++ rest))
          ≡ ok
              (PlayDecodeOutcome.complete (
                join_game (record {
                  entity_id = config.entity_id;
                  is_hardcore = false;
                  gamemode = config.gamemode;
                  previous_gamemode = none;
                  dimension_names = config.dimension_name ∷ [];
                  registry_codec = registry_codec;
                  dimension_type = config.dimension_name;
                  dimension_name = config.dimension_name;
                  hashed_seed = config.hashed_seed;
                  max_players = config.max_players;
                  view_distance = config.view_distance;
                  simulation_distance = config.simulation_distance;
                  reduce_debug_info = false;
                  enable_respawn_screen = true;
                  is_debug = false;
                  is_flat = false;
                  has_death_location = false;
                  death_dimension_name = [];
                  death_location = (pos 0, pos 0, pos 0);
                  portal_cooldown = pos 0;
                })))
              (sync_wire ++ rest))
      × (decode_synchronize_player_position config.max_frame_length (sync_wire ++ rest)
          ≡ ok
              (PlayDecodeOutcome.complete (
                synchronize_player_position (record {
                  x = self.player_x;
                  y = self.player_y;
                  z = self.player_z;
                  yaw = self.player_yaw;
                  pitch = self.player_pitch;
                  flags = pos 0;
                  teleport_id = pos 0;
                })))
              rest)
unfolding spawned first_join_game first_position confirm_teleport confirmed
new_session registry_codec config self outgoing fuel rest c h e =
    let (join_wire, sync_wire, machine, sent, j, s) =
      new_wires registry_codec config self outgoing e in
    (
      join_wire,
      sync_wire,
      sent,
      machine,
      rw machine refl,
      decode_fuelled-encode
          (join_game_codec (first_join_game registry_codec config)
            (first_join_game-IsJoinGame fuel registry_codec config c h))
          config.max_frame_length join_wire (sync_wire ++ rest) j,
      rw machine (
          decode-encode
            (synchronize_player_position_codec first_position
              first_position-IsSynchronizePlayerPosition)
            config.max_frame_length sync_wire rest s),
    )
