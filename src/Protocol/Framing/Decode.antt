-- ===== src/Protocol/Framing/Decode.antt =====
-- `decode_frame` on what `encode_frame` writes, on its prefixes, and on any input.
use rustbound_server.Prelude.{
  ℕ, suc, ◌+◌, ◌≤◌, ◌<◌, ◌≡◌, ◌≢◌, inl, inr, refl, ap, ◌∙◌, arith, List, [], ◌∷◌, ◌++◌, length,
  append_assoc, length-append, Option-cases,
}
use rustbound_server.Prelude.Buffer.{
  Outcome, ok, err, split_front, split_front-append, split_front_parts, split_front_short,
}
use rustbound_server.Prelude.Int.{ℤ, pos, negsuc}
use rustbound_server.Prelude.Words.{IsI32}
use rustbound_server.Protocol.Primitives.{CodecError, incomplete_input, var_int_too_long}
use rustbound_server.Protocol.Primitives.VarInt.{decode_var_int}
use rustbound_server.Protocol.Primitives.VarInt.Encode.{var_int_bytes, length-var_int_bytes}
use rustbound_server.Protocol.Primitives.VarInt.RoundTrip.{decode_var_int-bytes}
use rustbound_server.Protocol.Primitives.VarInt.Decode.{
  VarInt, decode_var_int_cases, decode_var_int-append_ok, decode_var_int-append_overlong,
}
use rustbound_server.Protocol.Framing.{
  PacketFrame, DecodeOutcome, FramingError, effective_max_length, decode_body, decode_after_length,
  decode_frame, encode_frame,
}
use rustbound_server.Protocol.Framing.Lengths.{length_prefix_short}
use rustbound_server.Protocol.Framing.Encode.{
  body_bytes, framed, length-body_bytes, encode_frame_fits, encode_frame-eq_ok,
}

-- A whole body behind a short prefix is handed to the packet id's decoder.
after_length_whole :
    (maximum : ℕ) (source body rest : List ℕ)
    → length source ≤ length (body ++ rest) + 3
    → 1 ≤ length body
    → length body ≤ effective_max_length maximum
    → decode_after_length maximum source (ok (pos (length body)) (body ++ rest))
      ≡ decode_body source rest (decode_var_int body)
unfolding decode_after_length
after_length_whole maximum source body rest p l h = ground (arith, split_front-append body rest)

after_length_part :
    (maximum n : ℕ) (source tail : List ℕ)
    → length source ≤ length tail + 3
    → 1 ≤ n
    → n ≤ effective_max_length maximum
    → length tail < n
    → decode_after_length maximum source (ok (pos n) tail) ≡ ok DecodeOutcome.incomplete source
unfolding decode_after_length
after_length_part maximum n source tail p l h s = ground (arith, split_front_short n tail s)

pub decode_frame-framed :
    (id : ℤ) (payload : List ℕ) (maximum : ℕ) (rest : List ℕ)
    → IsI32 id
    → length (body_bytes id payload) ≤ effective_max_length maximum
    → decode_frame maximum (framed (body_bytes id payload) ++ rest)
      ≡ ok (DecodeOutcome.complete (record { packet_id = id; payload = payload })) rest
unfolding decode_frame framed
decode_frame-framed id payload maximum rest hi h =
    let body = body_bytes id payload in
    let prefix = var_int_bytes (pos (length body)) in
    let source = prefix ++ (body ++ rest) in
    rw (append_assoc prefix body rest) (
      rw (decode_var_int-bytes (pos (length body)) (body ++ rest) (omega arith)) (
        after_length_whole maximum source body rest
          (omega (
            arith,
            length-append prefix (body ++ rest),
            length_prefix_short (length body) (omega arith),
          ))
          (omega (arith, length-body_bytes id payload, length-var_int_bytes id)) h
        ∙ unfold decode_body body_bytes in rw (decode_var_int-bytes id payload hi)))

-- What a completed frame says of the input.
pub record Frame (maximum : ℕ) (input : List ℕ) (frame : PacketFrame) (rest : List ℕ) : Type 0 where
  pub prefix : List ℕ
  pub body : List ℕ
  pub parts : input ≡ prefix ++ (body ++ rest)
  pub short_prefix : length prefix ≤ 3
  pub announced : decode_var_int input ≡ ok (pos (length body)) (body ++ rest)
  pub some_body : 1 ≤ length body
  pub fitting_body : length body ≤ effective_max_length maximum
  pub packet : decode_var_int body ≡ ok frame.packet_id frame.payload

decode_body-eq_complete :
    (source back : List ℕ) (o : Outcome CodecError ℤ) (frame : PacketFrame) (rest : List ℕ)
    → decode_body source back o ≡ ok (DecodeOutcome.complete frame) rest
    → (back ≡ rest) × (o ≡ ok frame.packet_id frame.payload)
unfolding decode_body
decode_body-eq_complete source back (ok id payload) frame rest e = ground arith
decode_body-eq_complete source back (err x r) frame rest e = cc

after_length-eq_complete :
    (maximum n : ℕ) (source tail : List ℕ) (frame : PacketFrame) (rest : List ℕ)
    → decode_after_length maximum source (ok (pos n) tail) ≡ ok (DecodeOutcome.complete frame) rest
    → (body : List ℕ) × (tail ≡ body ++ rest)
      × (length body ≡ n)
      × (1 ≤ n)
      × (n ≤ effective_max_length maximum)
      × (length source ≤ length tail + 3)
      × (decode_var_int body ≡ ok frame.packet_id frame.payload)
unfolding decode_after_length
after_length-eq_complete maximum n source tail frame rest e =
    elim (Option-cases (split_front n tail)) [
      | inl short ↦ absurd (ground (arith, short))
      | inr ((body, back), found) ↦
          let (tail_parts, size) = split_front_parts n tail body back found in
          let inner : decode_body source back (decode_var_int body)
              ≡ ok (DecodeOutcome.complete frame) rest =
            ground (arith, found) in
          let (same, packet) = decode_body-eq_complete source back _ frame rest inner in
          (
            body,
            rw (← same) tail_parts,
            size,
            ground (arith, found),
            ground (arith, found),
            ground (arith, found),
            packet,
          )
    ]

-- Only a completed frame moves the input: an incomplete one and an error leave it at `source`.
abbrev pub Unmoved : List ℕ → Outcome FramingError DecodeOutcome → Type 0
Unmoved source (ok (DecodeOutcome.complete frame) rest) = Unit {0}
Unmoved source (ok DecodeOutcome.incomplete rest) = rest ≡ source
Unmoved source (err e rest) = rest ≡ source

decode_body-Unmoved :
    (source rest : List ℕ) (o : Outcome CodecError ℤ) → Unmoved source (decode_body source rest o)
unfolding decode_body
decode_body-Unmoved source rest (ok id payload) = tt
decode_body-Unmoved source rest (err e r) = refl

after_length-Unmoved :
    (maximum : ℕ) (source : List ℕ) (o : Outcome CodecError ℤ)
    → Unmoved source (decode_after_length maximum source o)
unfolding decode_after_length
after_length-Unmoved maximum source (ok (negsuc n) tail) = ground arith
after_length-Unmoved maximum source (ok (pos n) tail) = elim (Option-cases (split_front n tail)) [
  | inl short ↦ ground (arith, short)
  | inr ((body, rest), found) ↦
      ground (arith, found, decode_body-Unmoved source rest (decode_var_int body))
]
after_length-Unmoved maximum source (err incomplete_input r) = refl
after_length-Unmoved maximum source (err _ r) = refl

-- Whatever the bytes and the maximum, `decode_frame` moves its input only past a completed frame.
pub decode_frame-Unmoved :
    (maximum : ℕ) (input : List ℕ) → Unmoved input (decode_frame maximum input)
unfolding decode_frame
decode_frame-Unmoved maximum input = after_length-Unmoved maximum input (decode_var_int input)

after_length-ne-complete :
    (maximum n : ℕ) (source tail : List ℕ) (frame : PacketFrame) (rest : List ℕ)
    → decode_after_length maximum source (ok (negsuc n) tail)
      ≢ ok (DecodeOutcome.complete frame) rest
unfolding decode_after_length
after_length-ne-complete maximum n source tail frame rest = ground arith

after_error-ne-complete :
    (maximum : ℕ) (source r : List ℕ) (x : CodecError) (frame : PacketFrame) (rest : List ℕ)
    → decode_after_length maximum source (err x r) ≢ ok (DecodeOutcome.complete frame) rest
unfolding decode_after_length
after_error-ne-complete maximum source r incomplete_input frame rest = λ e. cc
after_error-ne-complete maximum source r _ frame rest = λ e. cc

announced-Frame :
    (maximum : ℕ) (input : List ℕ) (frame : PacketFrame) (rest : List ℕ) (w : VarInt input) (v : ℤ)
    → w.value ≡ v
    → decode_after_length maximum input (ok v w.rest) ≡ ok (DecodeOutcome.complete frame) rest
    → Frame maximum input frame rest
announced-Frame maximum input frame rest w (negsuc n) p e =
    absurd (after_length-ne-complete maximum n input w.rest frame rest e)
announced-Frame maximum input frame rest w (pos n) p e =
    let (body, tail_parts, size, some_body, fitting, short, packet) =
      after_length-eq_complete maximum n input w.rest frame rest e in
    record {
      prefix = w.used;
      body = body;
      parts = rw (← tail_parts) w.parts;
      short_prefix = omega (arith, ap length w.parts, length-append w.used w.rest);
      announced = rw (size, ← tail_parts, ← p) w.reads;
      some_body = omega arith;
      fitting_body = omega arith;
      packet = packet;
    }

-- A frame that `decode_frame` completes lies whole in front of what it leaves: a length prefix of
-- three bytes at most that announces the body, and a body of at least one byte and at most the
-- effective maximum that begins with the packet id and ends with the payload.
pub decode_frame-Frame :
    (maximum : ℕ) (input : List ℕ) (frame : PacketFrame) (rest : List ℕ)
    → decode_frame maximum input ≡ ok (DecodeOutcome.complete frame) rest
    → Frame maximum input frame rest
unfolding decode_frame
decode_frame-Frame maximum input frame rest e = elim (decode_var_int_cases input) [
  | inl w ↦ announced-Frame maximum input frame rest w w.value refl (rw (← w.reads) e)
  | inr (inl x) ↦
      absurd (after_error-ne-complete maximum input input incomplete_input frame rest (rw (← x) e))
  | inr (inr x) ↦
      absurd (after_error-ne-complete maximum input input var_int_too_long frame rest (rw (← x) e))
]

unfinished_frame :
    (id : ℤ) (payload : List ℕ) (maximum : ℕ) (front : List ℕ) (x : ℕ) (back : List ℕ)
    → length (body_bytes id payload) ≤ effective_max_length maximum
    → framed (body_bytes id payload) ≡ front ++ (x ∷ back)
    → decode_var_int (front ++ (x ∷ back))
      ≡ ok (pos (length (body_bytes id payload))) (body_bytes id payload)
    → VarInt front
    → decode_after_length maximum front (decode_var_int front) ≡ ok DecodeOutcome.incomplete front
unfolding framed
unfinished_frame id payload maximum front x back h e whole w =
    let body = body_bytes id payload in
    let both = decode_var_int-append_ok front (x ∷ back) w.value w.rest w.reads in
    let value : w.value ≡ pos (length body) = cc (both, whole) in
    let tail : w.rest ++ (x ∷ back) ≡ body = cc (both, whole) in
    let sizes : length w.rest + suc (length back) ≡ length body =
      omega (arith, length-append w.rest (x ∷ back), ap length tail) in
    let total : length (var_int_bytes (pos (length body))) + length body
        ≡ length front + suc (length back) =
      omega (
        arith,
        ap length e,
        length-append (var_int_bytes (pos (length body))) body,
        length-append front (x ∷ back),
      ) in
    rw (w.reads, value)
      (after_length_part maximum (length body) front w.rest
        (omega (arith, length_prefix_short (length body) (omega arith)))
        (omega (arith, length-body_bytes id payload, length-var_int_bytes id)) h (omega arith))

-- Every proper prefix of the encoding of a frame that fits is incomplete, and stays in the input
-- for the caller to add to.
pub decode_frame-prefix :
    (id : ℤ) (payload : List ℕ) (maximum : ℕ) (front : List ℕ) (x : ℕ) (back : List ℕ)
    → length (body_bytes id payload) ≤ effective_max_length maximum
    → framed (body_bytes id payload) ≡ front ++ (x ∷ back)
    → decode_frame maximum front ≡ ok DecodeOutcome.incomplete front
unfolding decode_frame framed
decode_frame-prefix id payload maximum front x back h e =
    let body = body_bytes id payload in
    let whole : decode_var_int (front ++ (x ∷ back)) ≡ ok (pos (length body)) body =
      rw (← e) (decode_var_int-bytes (pos (length body)) body (omega arith)) in
    elim (decode_var_int_cases front) [
      | inl w ↦ unfinished_frame id payload maximum front x back h e whole w
      | inr (inl lacks) ↦ rw lacks (unfold decode_after_length in refl)
      | inr (inr long) ↦ absurd (cc (whole, decode_var_int-append_overlong front (x ∷ back) long))
    ]

-- What `encode_frame` writes, `decode_frame` under the same maximum reads back: the packet id, the
-- payload, and whatever follows the frame left in the input.
pub decode_frame-encode_frame :
    (id : ℤ) (payload : List ℕ) (maximum : ℕ) (wire rest : List ℕ)
    → IsI32 id
    → encode_frame id payload maximum [] ≡ ok tt wire
    → decode_frame maximum (wire ++ rest)
      ≡ ok (DecodeOutcome.complete (record { packet_id = id; payload = payload })) rest
decode_frame-encode_frame id payload maximum wire rest hi e =
    let fits = encode_frame-eq_ok id payload maximum [] wire e in
    let bytes : framed (body_bytes id payload) ≡ wire =
      cc (encode_frame_fits id payload maximum [] fits, e) in
    rw (← bytes) (decode_frame-framed id payload maximum rest hi fits)
