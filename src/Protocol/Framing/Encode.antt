-- ===== src/Protocol/Framing/Encode.antt =====
-- What `encode_frame` and `encode_raw_frame` write, and when they refuse.
use rustbound_server.Prelude.{
  ℕ, ◌+◌, ◌^◌, ◌≤◌, ◌<◌, ◌≡◌, arith, List, ◌++◌, length, append_assoc, length-append, inl, inr,
}
use rustbound_server.Prelude.Buffer.{ok, err, Result-cases}
use rustbound_server.Prelude.Int.{ℤ, pos}
use rustbound_server.Protocol.Primitives.VarInt.Encode.{var_int_bytes, encode_var_int-append}
use rustbound_server.Protocol.Framing.{
  effective_max_length, encode_frame, encode_raw_frame, frame_too_long, validated_frame_length,
}
use rustbound_server.Protocol.Framing.Lengths.{
  validated_frame_length_fits, validated_frame_length_too_long, validated_frame_length-eq_success,
}

-- The body of a frame, and the frame itself.
unfoldable pub body_bytes : ℤ → List ℕ → List ℕ
body_bytes id payload = var_int_bytes id ++ payload

unfoldable pub framed : List ℕ → List ℕ
framed body = var_int_bytes (pos (length body)) ++ body

pub length-body_bytes :
    (id : ℤ) (payload : List ℕ)
    → length (body_bytes id payload) ≡ length (var_int_bytes id) + length payload
unfolding body_bytes
length-body_bytes id payload = length-append (var_int_bytes id) payload

-- A frame whose body fits the effective maximum is appended whole: its length, its packet id and
-- its payload.
pub encode_frame_fits :
    (id : ℤ) (payload : List ℕ) (maximum : ℕ) (output : List ℕ)
    → length (body_bytes id payload) ≤ effective_max_length maximum
    → encode_frame id payload maximum output ≡ ok tt (output ++ framed (body_bytes id payload))
unfolding encode_frame framed body_bytes
encode_frame_fits id payload maximum output h =
    let prefix = var_int_bytes (pos (length (body_bytes id payload))) in
    ground (
      arith,
      length-body_bytes id payload,
      validated_frame_length_fits id (length payload) maximum,
      encode_var_int-append (pos (length (body_bytes id payload))) output,
      encode_var_int-append id (output ++ prefix),
      append_assoc (output ++ prefix) (var_int_bytes id) payload,
      append_assoc output prefix (var_int_bytes id ++ payload),
    )

-- A longer one is refused with its length and the maximum, and nothing is written.
pub encode_frame_too_long :
    (id : ℤ) (payload : List ℕ) (maximum : ℕ) (output : List ℕ)
    → effective_max_length maximum < length (body_bytes id payload)
    → length (body_bytes id payload) < 2 ^ 64
    → encode_frame id payload maximum output
      ≡ err (frame_too_long (length (body_bytes id payload)) (effective_max_length maximum)) output
unfolding encode_frame
encode_frame_too_long id payload maximum output h g = ground (
  arith,
  length-body_bytes id payload,
  validated_frame_length_too_long id (length payload) maximum,
)

pub encode_raw_frame_fits :
    (body : List ℕ) (maximum : ℕ) (output : List ℕ)
    → length body ≤ effective_max_length maximum
    → encode_raw_frame body maximum output ≡ ok tt (output ++ framed body)
unfolding encode_raw_frame framed
encode_raw_frame_fits body maximum output h = ground (
  arith,
  encode_var_int-append (pos (length body)) output,
  append_assoc output (var_int_bytes (pos (length body))) body,
)

-- `encode_frame` succeeds on no other frames.
pub encode_frame-eq_ok :
    (id : ℤ) (payload : List ℕ) (maximum : ℕ) (output wire : List ℕ)
    → encode_frame id payload maximum output ≡ ok tt wire
    → length (body_bytes id payload) ≤ effective_max_length maximum
unfolding encode_frame
encode_frame-eq_ok id payload maximum output wire e =
    elim (Result-cases (validated_frame_length id (length payload) maximum)) [
      | inl (l, v) ↦ omega (
        arith,
        length-body_bytes id payload,
        validated_frame_length-eq_success id (length payload) maximum l v,
      )
      | inr (x, v) ↦ absurd (ground (arith, v, e))
    ]

pub encode_raw_frame-eq_ok :
    (body : List ℕ) (maximum : ℕ) (output wire : List ℕ)
    → encode_raw_frame body maximum output ≡ ok tt wire
    → length body ≤ effective_max_length maximum
unfolding encode_raw_frame
encode_raw_frame-eq_ok body maximum output wire e = ground arith
