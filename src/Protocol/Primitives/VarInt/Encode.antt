-- ===== src/Protocol/Primitives/VarInt/Encode.antt =====
-- What the VarInt encoders append, in plain arithmetic.
use mathlib.Core.WellFounded.{Acc}
use rustbound_server.Prelude.{
  ℕ, zero, suc, ◌+◌, ◌/◌, ◌%◌, ◌^◌, ◌≤◌, ◌<◌, ◌≡◌, arith, List, [], ◌∷◌, ◌++◌, length, All, ltb,
  if◌then◌else◌, append_assoc, bit_and, bit_or,
}
use rustbound_server.Prelude.Bits.{bit_and_mask, bit_or_top}
use rustbound_server.Prelude.Int.{ℤ}
use rustbound_server.Prelude.Words.{IsByte, as_unsigned, as_unsigned-lt}
use rustbound_server.Protocol.Primitives.VarInt.{encode_groups, encode_var_int, encode_var_long}

-- The groups of seven bits of `v`, lowest first, for `v` below 128 ^ (k + 1): the format.
unfoldable pub groups : ℕ → ℕ → List ℕ
groups zero v = v ∷ []
groups (suc k) v =
    let higher = groups k (v / 128) in if ltb v 128 then v ∷ [] else (v % 128 + 128) ∷ higher

low_group : (v : ℕ) → bit_and v 0x7f ≡ v % 128
low_group v = bit_and_mask 7 v

inner_group : (v : ℕ) → bit_or (bit_and v 0x7f) 0x80 ≡ v % 128 + 128
inner_group v = rw low_group (bit_or_top (v % 128) (omega arith))

encode_groups-append :
    (k : ℕ) (output : List ℕ) (v : ℕ) (w : Acc ◌<◌ v)
    → v < 128 ^ suc k
    → encode_groups output v w ≡ output ++ groups k v
unfolding encode_groups groups
encode_groups-append zero output v (Acc.intro _ smaller) h = ground (arith, low_group v)
encode_groups-append (suc k) output v (Acc.intro _ smaller) h =
    let byte : List ℕ = (v % 128 + 128) ∷ [] in
    grind (
      arith,
      low_group v,
      inner_group v,
      λ (w : Acc ◌<◌ (v / 128)). encode_groups-append k (output ++ byte) (v / 128) w (omega arith),
      append_assoc output byte (groups k (v / 128)),
    )

-- What the encoders append for a value.
unfoldable pub var_int_bytes : ℤ → List ℕ
var_int_bytes v = groups 4 (as_unsigned (2 ^ 32) v)

unfoldable pub var_long_bytes : ℤ → List ℕ
var_long_bytes v = groups 9 (as_unsigned (2 ^ 64) v)

pub encode_var_int-append :
    (v : ℤ) (output : List ℕ) → encode_var_int v output ≡ output ++ var_int_bytes v
unfolding encode_var_int var_int_bytes
encode_var_int-append v output =
    encode_groups-append 4 output _ _ (omega (arith, as_unsigned-lt (2 ^ 32) v (omega arith)))

pub encode_var_long-append :
    (v : ℤ) (output : List ℕ) → encode_var_long v output ≡ output ++ var_long_bytes v
unfolding encode_var_long var_long_bytes
encode_var_long-append v output =
    encode_groups-append 9 output _ _ (omega (arith, as_unsigned-lt (2 ^ 64) v (omega arith)))

pub length-groups : (k v : ℕ) → (1 ≤ length (groups k v)) × (length (groups k v) ≤ k + 1)
unfolding groups
length-groups zero v = omega arith
length-groups (suc k) v = ground (arith, length-groups k (v / 128))

pub groups-IsByte : (k v : ℕ) → v < 128 ^ suc k → All IsByte (groups k v)
unfolding groups
groups-IsByte zero v h = omega arith
groups-IsByte (suc k) v h = ground (arith, groups-IsByte k (v / 128) (omega arith))

pub length-var_int_bytes : (v : ℤ) → (1 ≤ length (var_int_bytes v)) × (length (var_int_bytes v) ≤ 5)
unfolding var_int_bytes
length-var_int_bytes v = length-groups 4 (as_unsigned (2 ^ 32) v)
