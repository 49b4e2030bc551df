-- ===== src/Protocol/Play/RoundTrip/Session.antt =====
-- What each packet of Codec.Session writes, its decoder reads back.
use rustbound_server.Prelude.{ℕ, ◌≡◌, [], List, Bool, true, false, refl, append-nil}
use rustbound_server.Prelude.Int.{ℤ, pos}
use rustbound_server.Prelude.Words.{IsI8, IsI32, IsI64}
use rustbound_server.Prelude.Buffer.{write}
use rustbound_server.Protocol.Primitives.Fixed.{encode_i64}
use rustbound_server.Protocol.Primitives.Text.{is_utf8, max_chat_component_length}
use rustbound_server.Protocol.Play.Frame.{death_location_fields, put_death_location}
use rustbound_server.Protocol.Play.RoundTrip.{
  Sends, SendsAll, then-Sends, last-Sends, then-SendsAll,
}
use rustbound_server.Protocol.Play.RoundTrip.Fields.{
  IsPosition, bool-Sends, u8-Sends, i8-Sends, i64-Sends, var_int-Sends, position-Sends,
  string-Sends,
}
use rustbound_server.Protocol.Play.Types.{
  KeepAlive, PluginMessageClientbound, Respawn, plugin_message_clientbound, respawn,
}
use rustbound_server.Protocol.Play.Codec.Session.{
  wrap_keep_alive, keep_alive_fields, plugin_message_clientbound_body,
  plugin_message_clientbound_fields, respawn_body, respawn_fields,
}

-- Without a death location its name and position are the ones that the decoder fills in.
abbrev pub IsDeath : Bool → List ℕ → ℤ × ℤ × ℤ → Type 0
IsDeath true name location = (is_utf8 name ≡ true) × IsPosition location
IsDeath false name location = (name ≡ []) × (location ≡ (pos 0, pos 0, pos 0))

pub death_location-Sends :
    (has : Bool) (name : List ℕ) (location : ℤ × ℤ × ℤ) (max_utf16_units : ℕ)
    → IsDeath has name location
    → Sends
        (put_death_location has name location max_utf16_units)
        (death_location_fields has max_utf16_units)
        (name, location)
unfolding put_death_location death_location_fields
death_location-Sends true name location max_utf16_units (u, h) =
    then-Sends _ (string-Sends name max_utf16_units u) (last-Sends _ (position-Sends location h))
death_location-Sends false name location max_utf16_units (n, l) = record {
  sent = λ output output' e. ([], cc (e, append-nil output), λ rest h. rw (n, l) refl);
}

pub record IsRespawn (packet : Respawn) : Type 0 where
  pub dimension_type : is_utf8 packet.dimension_type ≡ true
  pub dimension_name : is_utf8 packet.dimension_name ≡ true
  pub hashed_seed : IsI64 packet.hashed_seed
  pub previous_gamemode : IsI8 packet.previous_gamemode
  pub death : IsDeath packet.has_death_location packet.death_dimension_name packet.death_location
  pub portal_cooldown : IsI32 packet.portal_cooldown

pub respawn-Sends :
    (packet : Respawn)
    → IsRespawn packet
    → Sends (respawn_body packet) respawn_fields (respawn packet)
unfolding respawn_body respawn_fields
respawn-Sends packet h =
    then-Sends _ (string-Sends packet.dimension_type max_chat_component_length h.dimension_type) (
      then-Sends _ (string-Sends packet.dimension_name max_chat_component_length h.dimension_name) (
        then-Sends _ (i64-Sends packet.hashed_seed h.hashed_seed) (
          then-Sends _ (u8-Sends packet.gamemode) (
            then-Sends _ (i8-Sends packet.previous_gamemode h.previous_gamemode) (
              then-Sends _ (bool-Sends packet.is_debug) (
                then-Sends _ (bool-Sends packet.is_flat) (
                  then-Sends _ (bool-Sends packet.has_death_location) (
                    then-Sends _
                      (death_location-Sends packet.has_death_location packet.death_dimension_name
                        packet.death_location max_chat_component_length h.death)
                      (then-Sends _ (var_int-Sends packet.portal_cooldown h.portal_cooldown)
                        (last-Sends _ (u8-Sends packet.data_kept)))))))))))

pub keep_alive-Sends :
    (clientbound : Bool) (packet : KeepAlive)
    → IsI64 packet.payload
    → Sends
        (write (encode_i64 packet.payload))
        (keep_alive_fields clientbound)
        (wrap_keep_alive clientbound packet)
unfolding keep_alive_fields
keep_alive-Sends clientbound packet h = last-Sends _ (i64-Sends packet.payload h)

pub plugin_message_clientbound-SendsAll :
    (packet : PluginMessageClientbound)
    → is_utf8 packet.channel ≡ true
    → SendsAll
        (plugin_message_clientbound_body packet)
        plugin_message_clientbound_fields
        (plugin_message_clientbound packet)
unfolding plugin_message_clientbound_body plugin_message_clientbound_fields
plugin_message_clientbound-SendsAll packet u =
    then-SendsAll _ (string-Sends packet.channel max_chat_component_length u)
      (record { sent = λ output output' e. (packet.payload, cc e, λ h. refl) })
