-- ===== src/Container/Codec/RoundTrip.antt =====
-- `deserialize_chests` on what `serialize_chests` writes, and on any bytes.
use rustbound_server.Prelude.{
  ℕ, ◌^◌, ◌<◌, ◌≡◌, refl, sym, ap, ◌∙◌, arith, true, false, List, [], ◌∷◌, ◌++◌, length, take, drop,
  append_assoc, append-nil, min, some, Bool-cases, inl, inr, All, if◌then◌else◌,
}
use rustbound_server.Prelude.Int.{ℤ}
use rustbound_server.Prelude.Words.{
  IsI8, IsI32, as_signed, as_unsigned, as_unsigned-lt, as_signed-as_unsigned, to_le_bytes,
  from_le_bytes, from_le_bytes-to_le_bytes,
}
use rustbound_server.Prelude.Buffer.{split_front, split_front-append}
use rustbound_server.Garden.{DimensionId}
use rustbound_server.Container.{Slot, empty, ContainerPos, container_key, chest_slot_count}
use rustbound_server.Container.Codec.{
  encode_slot_bytes, decode_slot_bytes, decode_present, decode_nbt, dimension_to_byte,
  byte_to_dimension, i32_bytes, encode_slots, decode_slots, encode_chest, nbt_length,
}

-- A slot as the server makes them: an absent one is `Slot::empty()`, the fields are in range, and its
-- NBT has a length of 16 bits.
pub record IsSlot (slot : Slot) : Type 0 where
  pub absent : slot.present ≡ false → slot ≡ empty
  pub id_fits : IsI32 slot.item_id
  pub count_fits : IsI8 slot.count
  pub short_nbt : length slot.nbt < 2 ^ 16

take-length : (xs : List ℕ) → take (length xs) xs ≡ xs
take-length [] = refl
take-length (x ∷ xs) = ap (x ∷◌) (take-length xs)

unfoldable pub present_bytes : Slot → List ℕ
present_bytes slot =
    1 ∷ to_le_bytes 4 (as_unsigned (2 ^ 32) slot.item_id)
    ++ (as_unsigned (2 ^ 8) slot.count ∷ [])
    ++ to_le_bytes 2 (length slot.nbt)
    ++ slot.nbt

unfoldable pub slot_bytes : Slot → List ℕ
slot_bytes slot = if slot.present then present_bytes slot else 0 ∷ []

-- Six parts, one behind the other.
six_parts :
    (buf one id count short nbt : List ℕ)
    → buf ++ one ++ id ++ count ++ short ++ nbt ≡ buf ++ (one ++ (id ++ count ++ short ++ nbt))
six_parts buf one id count short nbt = simp append_assoc

nbt_written :
    (nbt : List ℕ)
    → length nbt < 2 ^ 16
    → (nbt_length nbt ≡ length nbt) × (take (min (nbt_length nbt) (length nbt)) nbt ≡ nbt)
nbt_written nbt h =
    let whole : nbt_length nbt ≡ length nbt = ground arith in
    (whole, ap (λ n. take n nbt) (omega arith) ∙ take-length nbt)

encode_slot_bytes-append :
    (slot : Slot) (buf : List ℕ) → IsSlot slot → encode_slot_bytes slot buf ≡ buf ++ slot_bytes slot
unfolding encode_slot_bytes slot_bytes present_bytes
encode_slot_bytes-append slot buf h =
    let (whole, same) = nbt_written slot.nbt h.short_nbt in
    elim (Bool-cases slot.present) [
      | inl there ↦
          rw (there, same, whole)
            (six_parts buf (1 ∷ []) (to_le_bytes 4 (as_unsigned (2 ^ 32) slot.item_id))
              (as_unsigned (2 ^ 8) slot.count ∷ []) (to_le_bytes 2 (length slot.nbt)) slot.nbt)
      | inr gone ↦ rw gone
    ]

decode_present_bytes :
    (slot : Slot) (rest : List ℕ)
    → IsSlot slot
    → slot.present ≡ true
    → decode_slot_bytes (present_bytes slot ++ rest) ≡ some (slot, rest)
unfolding decode_slot_bytes present_bytes decode_present decode_nbt to_le_bytes split_front
decode_present_bytes slot rest h e =
    let id = as_unsigned (2 ^ 32) slot.item_id in
    ground (
      arith,
      from_le_bytes-to_le_bytes 4 id (as_unsigned-lt (2 ^ 32) slot.item_id (omega arith)),
      from_le_bytes-to_le_bytes 2 (length slot.nbt) h.short_nbt,
      as_signed-as_unsigned (2 ^ 31) slot.item_id h.id_fits,
      as_signed-as_unsigned (2 ^ 7) slot.count h.count_fits,
      split_front-append slot.nbt rest,
    )

absent_read :
    (slot : Slot) (rest : List ℕ) → slot ≡ empty → decode_slot_bytes (0 ∷ rest) ≡ some (slot, rest)
unfolding decode_slot_bytes
absent_read slot rest e = ap (λ s. some (s, rest)) (sym e)

decode_slot_bytes-append :
    (slot : Slot) (rest : List ℕ)
    → IsSlot slot
    → decode_slot_bytes (slot_bytes slot ++ rest) ≡ some (slot, rest)
unfolding slot_bytes
decode_slot_bytes-append slot rest h = elim (Bool-cases slot.present) [
  | inl there ↦ ground (arith, there, decode_present_bytes slot rest h there)
  | inr gone ↦ ground (arith, gone, absent_read slot rest (h.absent gone))
]

unfoldable pub slots_bytes : List Slot → List ℕ
slots_bytes [] = []
slots_bytes (slot ∷ slots) = slot_bytes slot ++ slots_bytes slots

encode_slots-append :
    (slots : List Slot) (buf : List ℕ)
    → All IsSlot slots
    → encode_slots slots buf ≡ buf ++ slots_bytes slots
unfolding encode_slots slots_bytes
encode_slots-append [] buf h = sym (append-nil buf)
encode_slots-append (slot ∷ slots) buf (h, hs) =
    encode_slots-append slots (encode_slot_bytes slot buf) hs
    ∙ rw (encode_slot_bytes-append slot buf h)
        (append_assoc buf (slot_bytes slot) (slots_bytes slots))

pub decode_slots-append :
    (slots : List Slot) (rest : List ℕ)
    → All IsSlot slots
    → decode_slots (length slots) (slots_bytes slots ++ rest) ≡ some (slots, rest)
unfolding decode_slots slots_bytes
decode_slots-append [] rest h = refl
decode_slots-append (slot ∷ slots) rest (h, hs) = ground (
  arith,
  append_assoc (slot_bytes slot) (slots_bytes slots) rest,
  decode_slot_bytes-append slot (slots_bytes slots ++ rest) h,
  decode_slots-append slots rest hs,
)

-- A chest as the server makes them: 27 slots at an i32 position.
pub record IsChest (entry : ContainerPos × List Slot) : Type 0 where
  pub slots : All IsSlot (entry.1)
  pub full : length (entry.1) ≡ chest_slot_count
  pub x_fits : IsI32 (entry.0.1.0)
  pub y_fits : IsI32 (entry.0.1.1)
  pub z_fits : IsI32 (entry.0.1.2)

abbrev pub place_bytes : ℤ → ℤ → ℤ → List ℕ
place_bytes x y z = i32_bytes x ++ i32_bytes y ++ i32_bytes z

unfoldable pub chest_bytes : ContainerPos × List Slot → List ℕ
chest_bytes ((dim, (x, y, z)), slots) =
    (dimension_to_byte dim ∷ []) ++ (place_bytes x y z ++ slots_bytes slots)

pub encode_chest-append :
    (entry : ContainerPos × List Slot) (buf : List ℕ)
    → IsChest entry
    → encode_chest entry buf ≡ buf ++ chest_bytes entry
unfolding encode_chest chest_bytes
encode_chest-append ((dim, (x, y, z)), slots) buf h =
    encode_slots-append slots
      (buf ++ (dimension_to_byte dim ∷ []) ++ i32_bytes x ++ i32_bytes y ++ i32_bytes z) h.slots
    ∙ simp append_assoc

pub byte_to_dimension-dimension_to_byte :
    (dim : DimensionId) → byte_to_dimension (dimension_to_byte dim) ≡ some dim
unfolding byte_to_dimension dimension_to_byte
byte_to_dimension-dimension_to_byte dim = ground arith

pub i32_read : (v : ℤ) → IsI32 v → as_signed (2 ^ 31) (from_le_bytes (i32_bytes v)) ≡ v
i32_read v h =
    ap (as_signed (2 ^ 31)) (
      from_le_bytes-to_le_bytes 4 (as_unsigned (2 ^ 32) v)
        (as_unsigned-lt (2 ^ 32) v (omega arith)))
    ∙ as_signed-as_unsigned (2 ^ 31) v h

pub place_read :
    (x y z : ℤ) (rest : List ℕ)
    → (split_front 12 (place_bytes x y z ++ rest) ≡ some (place_bytes x y z, rest))
      × (take 4 (drop 0 (place_bytes x y z)) ≡ i32_bytes x)
      × (take 4 (drop 4 (place_bytes x y z)) ≡ i32_bytes y)
      × (take 4 (drop 8 (place_bytes x y z)) ≡ i32_bytes z)
unfolding split_front to_le_bytes
place_read x y z rest = (refl, refl, refl, refl)
