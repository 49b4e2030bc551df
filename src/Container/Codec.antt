-- ===== src/Container/Codec.antt =====
-- The chest file: slots, positions and the blob of a store.
pub mod RoundTrip
pub mod Store
use rustbound_server.Prelude.{
  ℕ, zero, suc, ◌+◌, ◌-◌, ◌*◌, ◌^◌, ◌≤◌, ◌<◌, ◌≡◌, refl, arith, Bool, true, false, if◌then◌else◌,
  List, [], ◌∷◌, ◌++◌, length, take, drop, get_or, ltb, ◌==◌, min, Option, none, some,
}
use rustbound_server.Prelude.Int.{ℤ, pos, negsuc}
use rustbound_server.Prelude.Words.{as_signed, as_unsigned, to_le_bytes, from_le_bytes}
use rustbound_server.Prelude.Buffer.{split_front}
use rustbound_server.Prelude.Maps.{insert}
use rustbound_server.Garden.{DimensionId, overworld, nether, end}
use rustbound_server.World.{Position}
use rustbound_server.Container.{
  Slot, empty, with_nbt, ContainerPos, container_key, ContainerStore, new, chest_slot_count,
}

-- `u16::try_from(slot.nbt.len()).unwrap_or(u16::MAX)`.
abbrev pub nbt_length : List ℕ → ℕ
nbt_length nbt = if ltb (length nbt) (2 ^ 16) then length nbt else 65535

unfoldable pub encode_slot_bytes : Slot → List ℕ → List ℕ
encode_slot_bytes slot buf =
    if slot.present
    then buf
      ++ (1 ∷ [])
      ++ to_le_bytes 4 (as_unsigned (2 ^ 32) slot.item_id)
      ++ (as_unsigned (2 ^ 8) slot.count ∷ [])
      ++ to_le_bytes 2 (nbt_length slot.nbt)
      ++ take (min (nbt_length slot.nbt) (length slot.nbt)) slot.nbt
    else buf ++ (0 ∷ [])

-- The slot and the rest. A caller reads no input behind a failure.
unfoldable pub decode_nbt : ℤ → ℤ → Option (List ℕ × List ℕ) → Option (Slot × List ℕ)
decode_nbt item_id count none = none
decode_nbt item_id count (some (nbt, rest)) = some (with_nbt item_id count nbt, rest)

unfoldable pub decode_present : Option (List ℕ × List ℕ) → Option (Slot × List ℕ)
unfolding decode_nbt
decode_present none = none
decode_present (some (head, rest)) =
    decode_nbt (as_signed (2 ^ 31) (from_le_bytes (take 4 head)))
      (as_signed (2 ^ 7) (get_or head 4 0)) (split_front (from_le_bytes (drop 5 head)) rest)

unfoldable pub decode_slot_bytes : List ℕ → Option (Slot × List ℕ)
decode_slot_bytes [] = none
decode_slot_bytes (present ∷ input) =
    if present == 0 then some (empty, input) else decode_present (split_front 7 input)

unfoldable pub dimension_to_byte : DimensionId → ℕ
dimension_to_byte overworld = 0
dimension_to_byte nether = 1
dimension_to_byte end = 2

unfoldable pub byte_to_dimension : ℕ → Option DimensionId
byte_to_dimension zero = some overworld
byte_to_dimension (suc zero) = some nether
byte_to_dimension (suc (suc zero)) = some end
byte_to_dimension _ = none

abbrev pub i32_bytes : ℤ → List ℕ
i32_bytes v = to_le_bytes 4 (as_unsigned (2 ^ 32) v)

unfoldable pub encode_slots : List Slot → List ℕ → List ℕ
encode_slots [] buf = buf
encode_slots (slot ∷ slots) buf = encode_slots slots (encode_slot_bytes slot buf)

unfoldable pub encode_chest : ContainerPos × List Slot → List ℕ → List ℕ
encode_chest ((dim, (x, y, z)), slots) buf =
    encode_slots slots
      (buf ++ (dimension_to_byte dim ∷ []) ++ i32_bytes x ++ i32_bytes y ++ i32_bytes z)

unfoldable pub encode_chests : List (ContainerPos × List Slot) → List ℕ → List ℕ
encode_chests [] buf = buf
encode_chests (entry ∷ entries) buf = encode_chests entries (encode_chest entry buf)

-- "RCHS".
abbrev pub magic : List ℕ
magic = 0x52 ∷ 0x43 ∷ 0x48 ∷ 0x53 ∷ []

abbrev pub format_version : ℕ
format_version = 1

-- `u32::try_from(store.chests.len()).unwrap_or(u32::MAX)`.
abbrev pub chest_count : List (ContainerPos × List Slot) → ℕ
chest_count chests = if ltb (length chests) (2 ^ 32) then length chests else 4294967295

unfoldable pub serialize_chests : ContainerStore → List ℕ
serialize_chests store =
    encode_chests store.chests
      (magic ++ to_le_bytes 4 format_version ++ to_le_bytes 4 (chest_count store.chests))

unfoldable pub decode_slots : ℕ → List ℕ → Option (List Slot × List ℕ)
decode_slots zero input = some ([], input)
decode_slots (suc n) input = elim (decode_slot_bytes input) [
  | none ↦ none
  | some (slot, rest) ↦ elim (decode_slots n rest) [
    | none ↦ none
    | some (slots, later) ↦ some (slot ∷ slots, later)
  ]
]

abbrev pub i32_at : ℕ → List ℕ → ℤ
i32_at offset bytes = as_signed (2 ^ 31) (from_le_bytes (take 4 (drop offset bytes)))

-- One entry and the rest.
unfoldable pub decode_chest : List ℕ → Option ((ContainerPos × List Slot) × List ℕ)
decode_chest [] = none
decode_chest (byte ∷ input) = elim (byte_to_dimension byte) [
  | none ↦ none
  | some dim ↦ elim (split_front 12 input) [
    | none ↦ none
    | some (head, rest) ↦ elim (decode_slots chest_slot_count rest) [
      | none ↦ none
      | some (slots, later) ↦
          some (((dim, (i32_at 0 head, i32_at 4 head, i32_at 8 head)), slots), later)
    ]
  ]
]

-- The loop stops at the first entry that does not decode and keeps those before it.
unfoldable pub read_chests :
    ℕ → List ℕ → List (ContainerPos × List Slot) → List (ContainerPos × List Slot)
read_chests zero input chests = chests
read_chests (suc count) input chests = elim (decode_chest input) [
  | none ↦ chests
  | some ((p, slots), rest) ↦ read_chests count rest (insert p slots chests)
]

abbrev pub eqb_bytes : List ℕ → List ℕ → Bool
eqb_bytes [] [] = true
eqb_bytes (a ∷ xs) (b ∷ ys) = let rest = eqb_bytes xs ys in if a == b then rest else false
eqb_bytes xs ys = false

-- The 12 bytes of the header, and what follows them.
unfoldable pub read_header : Option (List ℕ × List ℕ) → ContainerStore
unfolding read_chests
read_header none = new
read_header (some (head, input)) =
    if eqb_bytes (take 4 head) magic
    then if from_le_bytes (take 4 (drop 4 head)) == format_version
      then record { chests = read_chests (from_le_bytes (drop 8 head)) input [] }
      else new
    else new

unfoldable pub deserialize_chests : List ℕ → ContainerStore
deserialize_chests bytes = read_header (split_front 12 bytes)
