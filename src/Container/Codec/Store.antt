-- ===== src/Container/Codec/Store.antt =====
-- The whole chest file: a store's blob, read back.
use rustbound_server.Prelude.{
  ℕ, ◌^◌, ◌<◌, ◌≡◌, refl, sym, ap, ◌∙◌, arith, List, [], ◌∷◌, ◌++◌, length, append_assoc,
  append-nil, some, All,
}
use rustbound_server.Prelude.Words.{to_le_bytes, from_le_bytes, from_le_bytes-to_le_bytes}
use rustbound_server.Prelude.Buffer.{split_front}
use rustbound_server.Prelude.Maps.{lookup, insert, extend, Distinct, lookup-extend}
use rustbound_server.Container.{Slot, ContainerPos, container_key, ContainerStore, chest}
use rustbound_server.Container.Codec.{
  decode_chest, dimension_to_byte, encode_chests, encode_chest, read_chests, magic, read_header,
  serialize_chests, deserialize_chests, decode_slots, format_version, chest_count,
}
use rustbound_server.Container.Codec.RoundTrip.{
  IsChest, chest_bytes, encode_chest-append, byte_to_dimension-dimension_to_byte, i32_read,
  place_read, place_bytes, decode_slots-append, slots_bytes,
}

decode_chest-append :
    (entry : ContainerPos × List Slot) (rest : List ℕ)
    → IsChest entry
    → decode_chest (chest_bytes entry ++ rest) ≡ some (entry, rest)
unfolding decode_chest chest_bytes
decode_chest-append ((dim, (x, y, z)), slots) rest h =
    let (whole, at_x, at_y, at_z) = place_read x y z (slots_bytes slots ++ rest) in
    ground (
      arith,
      append_assoc (dimension_to_byte dim ∷ []) (place_bytes x y z ++ slots_bytes slots) rest,
      append_assoc (place_bytes x y z) (slots_bytes slots) rest,
      byte_to_dimension-dimension_to_byte dim,
      whole,
      ap (λ n. decode_slots n (slots_bytes slots ++ rest)) (sym h.full),
      decode_slots-append slots rest h.slots,
      ap (λ b. from_le_bytes b) at_x,
      ap (λ b. from_le_bytes b) at_y,
      ap (λ b. from_le_bytes b) at_z,
      i32_read x h.x_fits,
      i32_read y h.y_fits,
      i32_read z h.z_fits,
    )

unfoldable chests_bytes : List (ContainerPos × List Slot) → List ℕ
chests_bytes [] = []
chests_bytes (entry ∷ entries) = chest_bytes entry ++ chests_bytes entries

encode_chests-append :
    (entries : List (ContainerPos × List Slot)) (buf : List ℕ)
    → All IsChest entries
    → encode_chests entries buf ≡ buf ++ chests_bytes entries
unfolding encode_chests chests_bytes
encode_chests-append [] buf h = sym (append-nil buf)
encode_chests-append (entry ∷ entries) buf (h, hs) =
    encode_chests-append entries (encode_chest entry buf) hs
    ∙ rw (encode_chest-append entry buf h)
        (append_assoc buf (chest_bytes entry) (chests_bytes entries))

read_chests-append :
    (entries : List (ContainerPos × List Slot)) (m : List (ContainerPos × List Slot))
    → All IsChest entries
    → read_chests (length entries) (chests_bytes entries) m ≡ extend entries m
unfolding read_chests chests_bytes extend
read_chests-append [] m h = refl
read_chests-append ((p, slots) ∷ entries) m (h, hs) = ground (
  arith,
  decode_chest-append (p, slots) (chests_bytes entries) h,
  read_chests-append entries (insert p slots m) hs,
)

header_read :
    (count : ℕ) (rest : List ℕ)
    → count < 2 ^ 32
    → read_header
        (split_front 12 (magic ++ to_le_bytes 4 format_version ++ to_le_bytes 4 count ++ rest))
      ≡ record { chests = read_chests count rest [] }
unfolding read_header split_front to_le_bytes from_le_bytes
header_read count rest h =
    ap (λ n. record { chests = read_chests n rest [] }) (from_le_bytes-to_le_bytes 4 count h)

-- What the server's chest store keeps: one entry for a position, each with 27 slots, and fewer than
-- 2^32 of them.
pub record IsStore (store : ContainerStore) : Type 0 where
  pub entries : All IsChest store.chests
  pub distinct : Distinct store.chests
  pub few : length store.chests < 2 ^ 32

-- A chest store with one entry for a position, 27 slots in range and i32 coordinates in each, and
-- fewer than 2^32 entries, saved and read back, has the same chest at every position, in whatever
-- order the store was walked when it was written.
pub deserialize_chests-serialize_chests :
    (store : ContainerStore) (p : ContainerPos)
    → IsStore store
    → chest (deserialize_chests (serialize_chests store)) p ≡ chest store p
unfolding deserialize_chests serialize_chests chest lookup
deserialize_chests-serialize_chests store p h =
    let n = length store.chests in
    let counted : chest_count store.chests ≡ n = ground (arith, h.few) in
    let written =
      encode_chests-append store.chests
        (magic ++ to_le_bytes 4 format_version ++ to_le_bytes 4 (chest_count store.chests))
        h.entries in
    rw written (
      rw counted (
        rw (header_read n (chests_bytes store.chests) h.few) (
          rw (read_chests-append store.chests [] h.entries)
            (lookup-extend store.chests [] p h.distinct ∙ ground arith))))
