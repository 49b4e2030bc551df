-- ===== src/Protocol/Play/RoundTrip/Join.antt =====
-- What Join Game writes, its decoder reads back.
use rustbound_server.Prelude.{
  ℕ, ◌<◌, ◌≤◌, ◌≡◌, ◌^◌, ◌++◌, ◌∷◌, [], List, length, true, false, Option, none, some, refl, arith,
  ltb, ◌∙◌, All,
}
use rustbound_server.Prelude.Int.{pos, negsuc}
use rustbound_server.Prelude.Words.{IsI32, IsI64, to_usize, to_i32, as_signed, as_unsigned}
use rustbound_server.Prelude.Buffer.{write, map_err, >>=-ok}
use rustbound_server.Protocol.Primitives.VarInt.{decode_var_int}
use rustbound_server.Protocol.Primitives.Fixed.{encode_i8, decode_i8, encode_u8, decode_u8}
use rustbound_server.Protocol.Primitives.Text.{is_utf8, decode_string}
use rustbound_server.Protocol.Play.Frame.{get, put_string, max_identifier_length}
use rustbound_server.Protocol.Play.RoundTrip.{
  Sends, write-Sends, then-Sends, last-Sends, lift-Sends,
}
use rustbound_server.Protocol.Play.RoundTrip.Fields.{
  bool-Sends, i32-Sends, i64-Sends, var_int-Sends, string-Sends,
}
use rustbound_server.Protocol.Play.Types.{
  GameMode, JoinGame, join_game, game_mode_to_wire, game_mode_from_wire,
  game_mode_from_wire-to_wire, survival, creative, adventure, spectator,
}
use rustbound_server.Protocol.Play.Nbt.{failed, read_nbt_compound}
use rustbound_server.Protocol.Play.Codec.Slots.{plain, nbt}
use rustbound_server.Protocol.Play.RoundTrip.Slots.{IsCompound, compound-Sends, each-Sends}
use rustbound_server.Protocol.Play.Codec.Join.{
  previous_to_wire, previous_from_wire, game_mode_field, previous_game_mode_field,
  max_dimension_names, max_registry_codec_size, put_bounded_count, bounded_count,
  bounded_count_field, put_bounded, bounded, nbt_bounded, join_game_body, join_game_fields,
}
use rustbound_server.Protocol.Primitives.VarInt.Encode.{var_int_bytes, encode_var_int-append}
use rustbound_server.Protocol.Primitives.VarInt.RoundTrip.{decode_var_int-bytes}
use rustbound_server.Protocol.Play.RoundTrip.Session.{IsDeath, death_location-Sends}

game_mode-Sends : (m : GameMode) → Sends (write (encode_u8 (game_mode_to_wire m))) game_mode_field m
unfolding game_mode_field encode_u8 decode_u8
game_mode-Sends m =
    write-Sends (encode_u8 (game_mode_to_wire m)) (game_mode_to_wire m ∷ []) (λ output. refl)
      (λ rest. rw (game_mode_from_wire-to_wire m) refl)

previous-Sends :
    (m : Option GameMode)
    → Sends (write (encode_i8 (previous_to_wire m))) previous_game_mode_field m
unfolding previous_game_mode_field previous_from_wire previous_to_wire encode_i8 decode_i8
    game_mode_to_wire game_mode_from_wire as_unsigned as_signed
previous-Sends none = write-Sends (encode_i8 (negsuc 0)) (255 ∷ []) (λ output. refl) (λ rest. refl)
previous-Sends (some survival) =
    write-Sends (encode_i8 (pos 0)) (0 ∷ []) (λ output. refl) (λ rest. refl)
previous-Sends (some creative) =
    write-Sends (encode_i8 (pos 1)) (1 ∷ []) (λ output. refl) (λ rest. refl)
previous-Sends (some adventure) =
    write-Sends (encode_i8 (pos 2)) (2 ∷ []) (λ output. refl) (λ rest. refl)
previous-Sends (some spectator) =
    write-Sends (encode_i8 (pos 3)) (3 ∷ []) (λ output. refl) (λ rest. refl)

-- A count that its bound lets through, from the successful write alone.
pub bounded_count-Sends :
    (maximum n : ℕ) → Sends (put_bounded_count maximum n) (bounded_count_field maximum) n
unfolding put_bounded_count bounded_count_field bounded_count to_i32 to_usize
bounded_count-Sends maximum n = record {
  sent = λ output output' e.
      let small : n < 2 ^ 31 = ground arith in
      let few : n ≤ maximum = ground arith in
      (
        var_int_bytes (pos n),
        ground (arith, encode_var_int-append (pos n) output),
        λ rest h.
            >>=-ok (get decode_var_int) (bounded_count maximum) {rest = rest} {a = pos n}
              (rw (decode_var_int-bytes (pos n) rest small, map_err))
            ∙ ground arith,
      );
}

pub nbt_bounded-Sends :
    (fuel maximum : ℕ) (bytes : List ℕ)
    → IsCompound fuel bytes
    → Sends (put_bounded maximum bytes) (nbt_bounded fuel maximum) bytes
unfolding put_bounded nbt_bounded bounded
nbt_bounded-Sends fuel maximum bytes c = record {
  sent = λ output output' e.
      let few : ltb maximum (length bytes) ≡ false = ground arith in
      let whole : output' ≡ output ++ bytes = ground arith in
      let (front, parts, reads) =
        (compound-Sends fuel bytes c).sent output output' (rw (← whole) refl) in
      (
        front,
        parts,
        λ rest h.
            >>=-ok (nbt (read_nbt_compound fuel)) (λ b. plain (bounded maximum b)) (reads rest h)
            ∙ rw few refl,
      );
}

pub record IsJoinGame (fuel : ℕ) (packet : JoinGame) : Type 0 where
  pub entity_id : IsI32 packet.entity_id
  pub dimension_names : All (λ name. is_utf8 name ≡ true) packet.dimension_names
  pub registry_codec : IsCompound fuel packet.registry_codec
  pub dimension_type : is_utf8 packet.dimension_type ≡ true
  pub dimension_name : is_utf8 packet.dimension_name ≡ true
  pub hashed_seed : IsI64 packet.hashed_seed
  pub max_players : IsI32 packet.max_players
  pub view_distance : IsI32 packet.view_distance
  pub simulation_distance : IsI32 packet.simulation_distance
  pub death : IsDeath packet.has_death_location packet.death_dimension_name packet.death_location
  pub portal_cooldown : IsI32 packet.portal_cooldown

pub join_game-Sends :
    (fuel : ℕ) (packet : JoinGame)
    → IsJoinGame fuel packet
    → Sends (join_game_body packet) (join_game_fields fuel) (join_game packet)
unfolding join_game_body join_game_fields
join_game-Sends fuel packet h =
    then-Sends _ (lift-Sends failed (i32-Sends packet.entity_id h.entity_id)) (
      then-Sends _ (lift-Sends failed (bool-Sends packet.is_hardcore)) (
        then-Sends _ (lift-Sends failed (game_mode-Sends packet.gamemode)) (
          then-Sends _ (lift-Sends failed (previous-Sends packet.previous_gamemode)) (
            then-Sends _
              (lift-Sends failed
                (bounded_count-Sends max_dimension_names (length packet.dimension_names)))
              (then-Sends _
                (each-Sends {P = λ name. is_utf8 name ≡ true}
                  (λ name. put_string name max_identifier_length)
                  (plain (get (decode_string max_identifier_length)))
                  (λ name u. lift-Sends failed (string-Sends name max_identifier_length u))
                  packet.dimension_names h.dimension_names)
                (then-Sends _
                  (nbt_bounded-Sends fuel max_registry_codec_size packet.registry_codec
                    h.registry_codec)
                  (then-Sends _
                    (lift-Sends failed
                      (string-Sends packet.dimension_type max_identifier_length h.dimension_type))
                    (then-Sends _
                      (lift-Sends failed
                        (string-Sends packet.dimension_name max_identifier_length h.dimension_name))
                      (then-Sends _ (lift-Sends failed (i64-Sends packet.hashed_seed h.hashed_seed))
                        (then-Sends _
                          (lift-Sends failed (var_int-Sends packet.max_players h.max_players))
                          (then-Sends _
                            (lift-Sends failed (var_int-Sends packet.view_distance h.view_distance))
                            (then-Sends _
                              (lift-Sends failed
                                (var_int-Sends packet.simulation_distance h.simulation_distance))
                              (then-Sends _
                                (lift-Sends failed (bool-Sends packet.reduce_debug_info))
                                (then-Sends _
                                  (lift-Sends failed (bool-Sends packet.enable_respawn_screen))
                                  (then-Sends _ (lift-Sends failed (bool-Sends packet.is_debug)) (
                                    then-Sends _ (lift-Sends failed (bool-Sends packet.is_flat)) (
                                      then-Sends _
                                        (lift-Sends failed (bool-Sends packet.has_death_location))
                                        (then-Sends _
                                          (lift-Sends failed (
                                            death_location-Sends packet.has_death_location
                                              packet.death_dimension_name packet.death_location
                                              max_identifier_length h.death))
                                          (last-Sends _ (
                                            lift-Sends failed (
                                              var_int-Sends packet.portal_cooldown
                                                h.portal_cooldown)))))))))))))))))))))
