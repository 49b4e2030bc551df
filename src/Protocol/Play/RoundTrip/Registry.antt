-- ===== src/Protocol/Play/RoundTrip/Registry.antt =====
-- What unloading a chunk writes, its decoder reads back.
use rustbound_server.Prelude.{ℕ, ◌≡◌, ◌^◌, ◌++◌, List, some, arith, append_assoc, ◌∙◌, sym, ap}
use rustbound_server.Prelude.Int.{ℤ}
use rustbound_server.Prelude.Words.{
  IsI32, as_unsigned, to_be_bytes, length-to_be_bytes, from_be_bytes-to_be_bytes, as_unsigned-lt,
  as_signed-as_unsigned,
}
use rustbound_server.Prelude.Buffer.{split_front, split_front-append}
use rustbound_server.Protocol.Primitives.Fixed.{encode_i32}
use rustbound_server.Protocol.Play.RoundTrip.{Sends}
use rustbound_server.Protocol.Play.Types.{UnloadChunk, unload_chunk}
use rustbound_server.Protocol.Play.Codec.Registry.{unload_chunk_body, be_i32, unload_chunk_fields}

split_front-be :
    (v : ℤ) (rest : List ℕ)
    → split_front 4 (to_be_bytes 4 (as_unsigned (2 ^ 32) v) ++ rest)
      ≡ some (to_be_bytes 4 (as_unsigned (2 ^ 32) v), rest)
split_front-be v rest =
    let bytes = to_be_bytes 4 (as_unsigned (2 ^ 32) v) in
    ap (λ (n : ℕ). split_front n (bytes ++ rest))
      (sym (length-to_be_bytes 4 (as_unsigned (2 ^ 32) v)))
    ∙ split_front-append bytes rest

be_i32-bytes : (v : ℤ) → IsI32 v → be_i32 (to_be_bytes 4 (as_unsigned (2 ^ 32) v)) ≡ v
be_i32-bytes v h =
    rw
      (from_be_bytes-to_be_bytes 4 (as_unsigned (2 ^ 32) v)
        (as_unsigned-lt (2 ^ 32) v (omega arith)))
      (as_signed-as_unsigned (2 ^ 31) v h)

pub record IsUnloadChunk (packet : UnloadChunk) : Type 0 where
  pub chunk_x : IsI32 packet.chunk_x
  pub chunk_z : IsI32 packet.chunk_z

pub unload_chunk-Sends :
    (packet : UnloadChunk)
    → IsUnloadChunk packet
    → Sends (unload_chunk_body packet) unload_chunk_fields (unload_chunk packet)
unfolding unload_chunk_body unload_chunk_fields encode_i32
unload_chunk-Sends packet h = record {
  sent = λ output output' e.
      let x = to_be_bytes 4 (as_unsigned (2 ^ 32) packet.chunk_x) in
      let z = to_be_bytes 4 (as_unsigned (2 ^ 32) packet.chunk_z) in
      (
        x ++ z,
        cc (e, append_assoc output x z),
        λ rest addressed. rw (append_assoc x z rest) (
            ground (
              arith,
              split_front-be packet.chunk_x (z ++ rest),
              split_front-be packet.chunk_z rest,
              be_i32-bytes packet.chunk_x h.chunk_x,
              be_i32-bytes packet.chunk_z h.chunk_z,
            )),
      );
}
