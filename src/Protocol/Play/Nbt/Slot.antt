-- ===== src/Protocol/Play/Nbt/Slot.antt =====
-- A slot whose NBT the reader never leaves.
use rustbound_server.Prelude.{ℕ, arith, ◌≡◌, List, ◌∷◌, ◌++◌}
use rustbound_server.Prelude.Int.{pos}
use rustbound_server.Prelude.Words.{as_signed}
use rustbound_server.Prelude.Buffer.{ok, err}
use rustbound_server.Protocol.Primitives.{CodecError}
use rustbound_server.Protocol.Primitives.VarInt.{decode_var_int, decode_groups, signed_result}
use rustbound_server.Protocol.Primitives.Fixed.{decode_bool, decode_i8}
use rustbound_server.Protocol.Play.Nbt.{Fuelled, unfinished}
use rustbound_server.Protocol.Play.Nbt.Loop.{endless, read_nbt_compound-endless}
use rustbound_server.Protocol.Play.Codec.Slots.{decode_slot, decode_present, nbt_field}

nbt_field-endless :
    (rest : List ℕ) (fuel : ℕ) → nbt_field fuel (endless ++ rest) ≡ err unfinished (endless ++ rest)
unfolding nbt_field
nbt_field-endless rest fuel = read_nbt_compound-endless rest fuel

one_read : (tail : List ℕ) → decode_var_int (1 ∷ tail) ≡ ok (pos 1) tail
unfolding decode_var_int decode_groups signed_result as_signed
one_read tail = ground arith

first_fields :
    (tail : List ℕ) (fuel : ℕ) {e : Fuelled CodecError} {left : List ℕ}
    → nbt_field fuel tail ≡ err e left
    → decode_slot fuel (1 ∷ 1 ∷ 1 ∷ tail) ≡ err e left
unfolding decode_slot decode_present decode_bool decode_i8
first_fields tail fuel h = ground (arith, one_read (1 ∷ tail), h)

-- A slot that is present, with one item of number 1: with these ten bytes for its NBT, `decode_slot` does not finish on any fuel.
pub decode_slot-endless :
    (rest : List ℕ) (fuel : ℕ)
    → decode_slot fuel (1 ∷ 1 ∷ 1 ∷ (endless ++ rest)) ≡ err unfinished (endless ++ rest)
decode_slot-endless rest fuel = first_fields (endless ++ rest) fuel (nbt_field-endless rest fuel)
