-- ===== src/Protocol/Play/Codec/Slots.antt =====
-- play.rs: item slots, with the NBT of the item.
use rustbound_server.Prelude.{
  ℕ, zero, suc, ◌++◌, ◌∷◌, ◌==◌, [], List, Bool, true, false, if◌then◌else◌,
}
use rustbound_server.Prelude.Buffer.{Action, ok, err, write, done, map_err, ◌>>=◌, ◌>>◌}
use rustbound_server.Protocol.Primitives.{CodecError, incomplete_input}
use rustbound_server.Protocol.Primitives.VarInt.{encode_var_int, decode_var_int}
use rustbound_server.Protocol.Primitives.Fixed.{encode_bool, decode_bool, encode_i8, decode_i8}
use rustbound_server.Protocol.Play.{PlayError, from_codec}
use rustbound_server.Container.{Slot, empty, with_nbt}
use rustbound_server.Protocol.Play.Nbt.{Fuelled, failed, unfinished, read_nbt_compound}

-- The code's failures, and those of the codecs under `From<CodecError>`.
abbrev pub plain {ℓ} : {A : Type ℓ} → Action PlayError A → Action (Fuelled PlayError) A
plain = map_err failed

abbrev pub fuelled_from_codec : Fuelled CodecError → Fuelled PlayError
fuelled_from_codec (failed e) = failed (from_codec e)
fuelled_from_codec unfinished = unfinished

abbrev pub nbt {ℓ} : {A : Type ℓ} → Action (Fuelled CodecError) A → Action (Fuelled PlayError) A
nbt = map_err fuelled_from_codec

abbrev pub max_container_slots : ℕ
max_container_slots = 256

-- TAG_End where there is no NBT.
unfoldable pub put_nbt : List ℕ → Action PlayError (Unit {0})
put_nbt [] = write (λ output. output ++ (0 ∷ []))
put_nbt (b ∷ bs) = write (λ output. output ++ (b ∷ bs))

unfoldable pub put_present : Bool → Slot → Action PlayError (Unit {0})
unfolding put_nbt
put_present true slot = do
  write (encode_var_int slot.item_id)
  write (encode_i8 slot.count)
  put_nbt slot.nbt
put_present false slot = done tt

-- No write of it fails.
unfoldable pub encode_slot : Slot → Action PlayError (Unit {0})
unfolding put_present
encode_slot slot = do write (encode_bool slot.present); put_present slot.present slot

unfoldable pub nbt_field : ℕ → Action (Fuelled CodecError) (List ℕ)
nbt_field fuel [] = err (failed incomplete_input) []
nbt_field fuel (first_byte ∷ input) =
    if first_byte == 0 then ok [] input else read_nbt_compound fuel (first_byte ∷ input)

unfoldable pub decode_present : ℕ → Bool → Action (Fuelled CodecError) Slot
unfolding nbt_field
decode_present fuel true = do
  item_id ← map_err failed decode_var_int
  count ← map_err failed decode_i8
  bytes ← nbt_field fuel
  done (with_nbt item_id count bytes)
decode_present fuel false = done empty

unfoldable pub decode_slot : ℕ → Action (Fuelled CodecError) Slot
unfolding decode_present
decode_slot fuel = do present ← map_err failed decode_bool; decode_present fuel present

-- `for _ in 0..n`.
unfoldable pub get_each {ℓ} : {E : Type 0} {A : Type ℓ} → ℕ → Action E A → Action E (List A)
get_each zero get_one = done []
get_each (suc n) get_one = do x ← get_one; xs ← get_each n get_one; done (x ∷ xs)
