-- ===== src/Protocol/Primitives/Fixed/RoundTrip.antt =====
-- The fixed-width decoders on what the encoders append.
use rustbound_server.Prelude.{
  ℕ, ◌+◌, ◌^◌, ◌<◌, ◌≡◌, refl, sym, ap, ◌∙◌, arith, Bool, true, false, List, [], ◌++◌, some,
  append_assoc,
}
use rustbound_server.Prelude.Buffer.{ok, split_front, split_front-append}
use rustbound_server.Prelude.Int.{ℤ}
use rustbound_server.Prelude.Words.{
  IsSigned, IsI16, IsI32, IsI64, as_unsigned, as_unsigned-lt, as_signed-as_unsigned, to_be_bytes,
  from_be_bytes-to_be_bytes, length-to_be_bytes,
}
use rustbound_server.Protocol.Primitives.Fixed.{
  decode_be, signed_word, decode_i16, decode_i32, decode_i64, encode_bool, decode_bool, Uuid,
  encode_uuid, decode_uuid, encode_i64,
}

pub decode_be-bytes :
    (n v : ℕ) (rest : List ℕ) → v < 256 ^ n → decode_be n (to_be_bytes n v ++ rest) ≡ ok v rest
unfolding decode_be
decode_be-bytes n v rest h =
    let bytes = to_be_bytes n v in
    let front : split_front n (bytes ++ rest) ≡ some (bytes, rest) =
      ap (λ (t : ℕ). split_front t (bytes ++ rest)) (sym (length-to_be_bytes n v))
      ∙ split_front-append bytes rest in
    rw (front, decode_be) (rw (from_be_bytes-to_be_bytes n v h))

pub signed_word-bytes :
    (n half : ℕ) (v : ℤ) (rest : List ℕ)
    → 0 < half
    → half + half ≡ 256 ^ n
    → IsSigned half v
    → signed_word half (decode_be n (to_be_bytes n (as_unsigned (half + half) v) ++ rest))
      ≡ ok v rest
unfolding signed_word
signed_word-bytes n half v rest p q h =
    let small = as_unsigned-lt (half + half) v (omega arith) in
    rw (decode_be-bytes n (as_unsigned (half + half) v) rest (omega (arith, small)))
      (rw (as_signed-as_unsigned half v h))

pub decode_i16-bytes :
    (v : ℤ) (rest : List ℕ)
    → IsI16 v
    → decode_i16 (to_be_bytes 2 (as_unsigned (2 ^ 16) v) ++ rest) ≡ ok v rest
unfolding decode_i16
decode_i16-bytes v rest h = signed_word-bytes 2 (2 ^ 15) v rest (omega arith) refl h

pub decode_i32-bytes :
    (v : ℤ) (rest : List ℕ)
    → IsI32 v
    → decode_i32 (to_be_bytes 4 (as_unsigned (2 ^ 32) v) ++ rest) ≡ ok v rest
unfolding decode_i32
decode_i32-bytes v rest h = signed_word-bytes 4 (2 ^ 31) v rest (omega arith) refl h

pub decode_i64-bytes :
    (v : ℤ) (rest : List ℕ)
    → IsI64 v
    → decode_i64 (to_be_bytes 8 (as_unsigned (2 ^ 64) v) ++ rest) ≡ ok v rest
unfolding decode_i64
decode_i64-bytes v rest h = signed_word-bytes 8 (2 ^ 63) v rest (omega arith) refl h

-- What `encode_uuid` appends.
unfoldable pub uuid_bytes : Uuid → List ℕ
uuid_bytes u =
    to_be_bytes 8 (as_unsigned (2 ^ 64) u.most_significant)
    ++ to_be_bytes 8 (as_unsigned (2 ^ 64) u.least_significant)

pub record IsUuid (u : Uuid) : Type 0 where
  pub most : IsI64 u.most_significant
  pub least : IsI64 u.least_significant

pub encode_uuid-append :
    (u : Uuid) (output : List ℕ) → encode_uuid u output ≡ output ++ uuid_bytes u
unfolding encode_uuid encode_i64 uuid_bytes
encode_uuid-append u output = append_assoc output _ _

pub decode_uuid-bytes :
    (u : Uuid) (rest : List ℕ) → IsUuid u → decode_uuid (uuid_bytes u ++ rest) ≡ ok u rest
unfolding decode_uuid uuid_bytes
decode_uuid-bytes u rest h =
    let high = to_be_bytes 8 (as_unsigned (2 ^ 64) u.most_significant) in
    let low = to_be_bytes 8 (as_unsigned (2 ^ 64) u.least_significant) in
    rw (append_assoc high low rest) (
      ground (
        arith,
        decode_i64-bytes u.most_significant (low ++ rest) h.most,
        decode_i64-bytes u.least_significant rest h.least,
      ))

pub decode_bool-bytes :
    (b : Bool) (rest : List ℕ) → decode_bool (encode_bool b [] ++ rest) ≡ ok b rest
unfolding decode_bool encode_bool
decode_bool-bytes true rest = refl
decode_bool-bytes false rest = refl
