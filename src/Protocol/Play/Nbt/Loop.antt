-- ===== src/Protocol/Play/Nbt/Loop.antt =====
-- An input that the reader never leaves: a negative array length moves the position back.
use rustbound_server.Prelude.{ℕ, zero, suc, ◌≡◌, refl, List, [], ◌∷◌, ◌++◌, arith}
use rustbound_server.Prelude.Words.{from_be_bytes, from_le_bytes, as_signed, as_unsigned}
use rustbound_server.Prelude.Buffer.{err, failure, success, split_front}
use rustbound_server.Protocol.Play.Nbt.{
  unfinished, within, bytes_at, be_i32, skip_array, skip_nbt_name, parse_nbt_payload_inner,
  parse_nbt_compound, parse_nbt_payload, split_at, read_nbt_compound,
}

-- An unnamed compound whose first entry has the tag 0x0D, no name and the length -7.
abbrev pub endless : List ℕ
endless = 0x0a ∷ 0 ∷ 0 ∷ 0x0d ∷ 0 ∷ 0 ∷ 0xff ∷ 0xff ∷ 0xff ∷ 0xf9 ∷ []

name_skipped : (rest : List ℕ) → skip_nbt_name (endless ++ rest) 4 ≡ success 6
unfolding skip_nbt_name bytes_at split_front from_be_bytes from_le_bytes within
name_skipped rest = ground arith

array_skipped : (rest : List ℕ) → skip_array 1 (endless ++ rest) 6 ≡ success 3
unfolding skip_array bytes_at split_front from_be_bytes from_le_bytes within be_i32 as_signed
    as_unsigned
array_skipped rest = ground arith

-- The entry is ten bytes in, and its array ends where the entry begins.
back_to_start :
    (rest : List ℕ) (fuel : ℕ) → parse_nbt_compound fuel (endless ++ rest) 3 ≡ failure unfinished
unfolding parse_nbt_compound
back_to_start rest zero = refl
back_to_start rest (suc zero) = rw (name_skipped rest) refl
back_to_start rest (suc (suc fuel)) =
    rw (name_skipped rest) (rw (array_skipped rest) (back_to_start rest (suc fuel)))

name_of_root : (rest : List ℕ) → skip_nbt_name (endless ++ rest) 1 ≡ success 3
unfolding skip_nbt_name bytes_at split_front from_be_bytes from_le_bytes within
name_of_root rest = ground arith

-- The reader does not finish on any input that begins with these ten bytes, whatever fuel it is
-- given: the array length -7 is added to the position as 2 ^ 64 - 7, which brings it back to the
-- entry that it has just read.
pub read_nbt_compound-endless :
    (rest : List ℕ) (fuel : ℕ)
    → read_nbt_compound fuel (endless ++ rest) ≡ err unfinished (endless ++ rest)
unfolding read_nbt_compound parse_nbt_payload split_at parse_nbt_payload_inner
read_nbt_compound-endless rest zero = rw (name_of_root rest) refl
read_nbt_compound-endless rest (suc fuel) =
    rw (name_of_root rest) (rw (back_to_start rest fuel) refl)
