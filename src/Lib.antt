-- ===== src/Lib.antt =====
-- A model of the Rustbound server: a Minecraft 1.20.1 (protocol 763) server in Rust, in the two crates
-- rustbound-protocol and rustbound-server, and what is proved of it.
--
-- The protocol crate turns bytes into packets. A connection is a stream of frames, each a VarInt
-- length and a body that starts with a VarInt packet id. Decoders work on the bytes received so far:
-- where they lack bytes they say so and leave the input, so that the connection can append and retry.
-- The handshake names the next state; the login machine answers Login Start and, online, an
-- Encryption Response, until the connection is in Play. From then on a session has its own machine, which
-- sends Join Game, waits for the spawn to be confirmed, and tracks the player and the keep alives, over
-- some sixty packets; a compression layer can stand between the frames and the packets. The server crate keeps the world that players
-- see: gardens of fixed size over a flat generator, with the blocks that packs and players changed,
-- and chests, whose contents are saved to a file.
--
-- Files and what they model:
--   Prelude and its children: numbers, lists, machine words, hash maps (Prelude/Maps, association
--     lists in which an insertion replaces a key's entry), and actions on a buffer (Prelude/Buffer): an
--     action takes the bytes of a `&mut &[u8]` or a `&mut Vec<u8>` and gives its result with the bytes
--     as the call leaves them, errors included.
--   Protocol/Primitives (VarInt, Fixed, Text): crates/rustbound-protocol/src/primitives.rs. A function
--     here has the name of the Rust function; its `maximum` or limit argument comes first.
--   Protocol/Framing: crates/rustbound-protocol/src/framing.rs.
--   Protocol/State: crates/rustbound-protocol/src/state.rs.
--   Protocol/Handshake: crates/rustbound-protocol/src/handshake.rs.
--   Protocol/Status: crates/rustbound-protocol/src/status.rs, over any JSON library: the record Json has
--     the two functions that the source calls, and a round trip assumes of it that it reads back the one
--     response that it writes.
--   Protocol/Login (Start, Encryption, Success, Plugin): crates/rustbound-protocol/src/login.rs. A
--     `*_body` function is the part of an encoder in front of `encode_frame`, a `*_fields` function the
--     part of a decoder behind the packet id.
--   Protocol/Login/Machine: crates/rustbound-protocol/src/login_state_machine.rs. A call returns its
--     result, the machine and the input, also where it fails halfway.
--   Protocol/Compression: crates/rustbound-protocol/src/compression.rs, over any zlib: the record Zlib
--     has the two functions that the source calls, each of which can fail.
--   Protocol/Play (Types, Frame, Codec): crates/rustbound-protocol/src/play.rs. `decode_play_with` is the
--     part that all its decoders share: the frame, the packet id and the test for bytes left over. A
--     `*_body` function is an encoder in front of `encode_frame`, a `*_fields` function a decoder behind
--     the packet id. Codec/Slots has the slot; Nbt the reader that finds the end of an NBT compound by
--     a position in the input, with the wrap-around of usize written out.
--   Protocol/Play/Machine: crates/rustbound-protocol/src/play_state_machine.rs. The bytes that
--     registry_codec.rs loads are an argument of `new`.
--   Garden: crates/rustbound-server/src/hakoniwa.rs.
--   World: crates/rustbound-server/src/world.rs, with the flat block function of chunk.rs; World/Portals
--     has dimension.rs and fluid.rs of the same directory.
--   Container: crates/rustbound-server/src/container.rs, with the Slot type of play.rs; Container/Codec
--     is its file format.
-- Children named RoundTrip, Invariant, Bounds and the like hold proofs; Tests hold runs.
--
-- Numbers: a byte, a u16, u32, u64 or usize is a natural number, an i8 to i64 an integer, and each
-- operation that can wrap says so with a power of two. Sums on i32 values wrap, as in a release build;
-- a debug build panics there. An f32 or f64 is its IEEE bits. A text is its UTF-8 bytes.
-- Fuel: the VarInt loops run over at most 5 or 10 bytes, the bounds of the Rust `for` loops; the
-- encoder's loop descends on the remaining value, by well-founded recursion on `<`, and needs no fuel.
-- The NBT reader recurses on the tags that it finds and need not end, so it runs on fuel, and a reader
-- that is out of fuel is `unfinished`, which is no error of the source. A part of the
-- tree takes one unit, so the number of its parts is the fuel chosen for a compound.
-- The other loops are structural on a count or a list.
-- A hash map is walked in the order of its list; what is proved holds for every order.
--
-- Not modelled: Display and Error texts, parsers of text commands and settings, file system, sockets and
-- threads; the registry codec, the tick loop, sessions, persistence of players and blocks, map packs,
-- mobs and collision; the encoding of generated chunks and the cache that holds it.
pub mod Prelude
pub mod Protocol
pub mod Garden
pub mod World
pub mod Container
