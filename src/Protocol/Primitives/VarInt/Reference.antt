-- ===== src/Protocol/Primitives/VarInt/Reference.antt =====
-- The VarInt decoder against a description without its loop and its bits.
use rustbound_server.Prelude.{
  ℕ, zero, suc, ◌+◌, ◌*◌, ◌%◌, ◌^◌, ◌≤◌, ◌<◌, ◌≡◌, refl, ap, ◌∙◌, arith, List, [], ◌∷◌, length,
  take, drop, ltb, leb, if◌then◌else◌, bit_and, bit_or, ◌==◌, All, dec_lt, true, false,
}
use rustbound_server.Prelude.Bits.{bit_and_mask, bit_and_top, bit_or-above}
use rustbound_server.Prelude.Buffer.{Outcome, ok, err}
use rustbound_server.Prelude.Int.{ℤ}
use rustbound_server.Prelude.Words.{as_signed}
use rustbound_server.Protocol.Primitives.{CodecError, incomplete_input, var_int_too_long}
use rustbound_server.Protocol.Primitives.VarInt.{decode_groups, decode_var_int, signed_result}
use rustbound_server.Protocol.Primitives.VarInt.RoundTrip.{next_shift, group_fits}

-- The bytes in front that say that another one follows.
unfoldable pub continued : List ℕ → ℕ
continued [] = 0
continued (byte ∷ bytes) = let more = continued bytes in if ltb byte 128 then 0 else suc more

-- A number in base 128, its lowest digit first; the top bit of a byte does not count.
unfoldable pub base_128 : List ℕ → ℕ
base_128 [] = 0
base_128 (byte ∷ bytes) = byte % 128 + 128 * base_128 bytes

unfoldable pub read_word : ℕ → List ℕ → List ℕ → ℕ → ℕ → Outcome CodecError ℕ
read_word rounds source tail shift low =
    if leb rounds (continued tail)
    then err var_int_too_long source
    else if leb (length tail) (continued tail)
    then err incomplete_input source
    else ok ((low + base_128 (take (suc (continued tail)) tail) * shift) % 2 ^ 32)
        (drop (suc (continued tail)) tail)

-- A group at bit `k` of a 32-bit word, where `rest` bits are left for it.
group_word :
    (k acc g cut : ℕ)
    → acc < 2 ^ k
    → g * 2 ^ k % 2 ^ 32 ≡ cut * 2 ^ k
    → acc + cut * 2 ^ k ≡ (acc + g * 2 ^ k) % 2 ^ 32
    → bit_or acc (g * 2 ^ k % 2 ^ 32) ≡ (acc + g * 2 ^ k) % 2 ^ 32
group_word k acc g cut low e sum =
    ap (λ (t : ℕ). bit_or acc t) e ∙ (bit_or-above k acc cut low ∙ sum)

or_step :
    (i acc g : ℕ)
    → i < 5
    → acc < 2 ^ (i * 7)
    → bit_or acc (g * 2 ^ (i * 7) % 2 ^ 32) ≡ (acc + g * 2 ^ (i * 7)) % 2 ^ 32
or_step zero acc g h low = group_word 0 acc g (g % 2 ^ 32) low (omega arith) (omega arith)
or_step (suc zero) acc g h low = group_word 7 acc g (g % 2 ^ 25) low (omega arith) (omega arith)
or_step (suc (suc zero)) acc g h low =
    group_word 14 acc g (g % 2 ^ 18) low (omega arith) (omega arith)
or_step (suc (suc (suc zero))) acc g h low =
    group_word 21 acc g (g % 2 ^ 11) low (omega arith) (omega arith)
or_step (suc (suc (suc (suc zero)))) acc g h low =
    group_word 28 acc g (g % 2 ^ 4) low (omega arith) (omega arith)
or_step (suc (suc (suc (suc (suc i))))) acc g h low = absurd (omega arith)

read_last :
    (rounds : ℕ) (source tail : List ℕ) (byte shift low : ℕ)
    → byte < 128
    → read_word (suc rounds) source (byte ∷ tail) shift low
      ≡ ok ((low + byte * shift) % 2 ^ 32) tail
unfolding read_word continued base_128
read_last rounds source tail byte shift low h =
    let same : byte % 128 ≡ byte = omega arith in ground (arith, same)

next_place :
    (low digit above shift : ℕ)
    → (low + (digit + 128 * above) * shift) % 2 ^ 32
      ≡ ((low + digit * shift) % 2 ^ 32 + above * (128 * shift)) % 2 ^ 32
next_place low digit above shift = omega arith

read_more :
    (rounds : ℕ) (source tail : List ℕ) (byte shift low : ℕ)
    → 128 ≤ byte
    → read_word (suc rounds) source (byte ∷ tail) shift low
      ≡ read_word rounds source tail (128 * shift) ((low + byte % 128 * shift) % 2 ^ 32)
unfolding read_word continued base_128
read_more rounds source tail byte shift low h =
    ground (arith, next_place low (byte % 128) (base_128 (take (suc (continued tail)) tail)) shift)

-- One round less is left at the next group, whose place is 128 times as high.
decode_groups-read_word :
    (rounds i acc : ℕ) (source tail : List ℕ)
    → rounds + i ≡ 5
    → acc < 2 ^ (i * 7)
    → All (λ byte. byte < 256) tail
    → decode_groups var_int_too_long (2 ^ 32) source rounds i acc tail
      ≡ read_word rounds source tail (2 ^ (i * 7)) acc
unfolding decode_groups read_word continued base_128
decode_groups-read_word zero i acc source tail five low bytes = ground arith
decode_groups-read_word (suc rounds) i acc source [] five low bytes = ground arith
decode_groups-read_word (suc rounds) i acc source (byte ∷ tail) five low (small, bytes) =
    let digit = byte % 128 in
    let step = or_step i acc digit (omega (arith, five)) low in
    let next = (acc + digit * 2 ^ (i * 7)) % 2 ^ 32 in
    let fits : next < 2 ^ ((i + 1) * 7) =
      omega (arith, next_shift i, group_fits byte (2 ^ (i * 7)) acc low) in
    let deeper =
      decode_groups-read_word rounds (i + 1) next source tail (omega (arith, five)) fits bytes in
    let group : bit_or acc (bit_and byte 0x7f * 2 ^ (i * 7) % 2 ^ 32) ≡ next =
      ap (λ (t : ℕ). bit_or acc (t * 2 ^ (i * 7) % 2 ^ 32)) (bit_and_mask 7 byte) ∙ step in
    elim (dec_lt byte 128) [
      | yes last ↦
          let top : (bit_and byte 0x80 == 0) ≡ true = ground (arith, bit_and_top byte small) in
          let same : digit ≡ byte = omega arith in
          rw (top, group, read_last rounds source tail byte (2 ^ (i * 7)) acc last, same) refl
      | no more ↦
          let top : (bit_and byte 0x80 == 0) ≡ false = ground (arith, bit_and_top byte small) in
          rw
            (
              top,
              group,
              read_more rounds source tail byte (2 ^ (i * 7)) acc (omega arith),
              deeper,
              next_shift i,
            )
            refl
    ]

-- What `decode_var_int` does, without its loop: it looks at the bytes in front that say that another
-- one follows. Five of them are too long; where the input ends with them it is incomplete; else the
-- byte behind them is the last of a number in base 128, cut to 32 bits and read in two's complement.
unfoldable pub var_int_reference : List ℕ → Outcome CodecError ℤ
var_int_reference input =
    let n = continued input in
    if leb 5 n
    then err var_int_too_long input
    else if leb (length input) n
    then err incomplete_input input
    else ok (as_signed (2 ^ 31) (base_128 (take (suc n) input) % 2 ^ 32)) (drop (suc n) input)

-- On any bytes, well formed or not, `decode_var_int` gives what `var_int_reference` gives: the value, the
-- error, and the bytes that it leaves.
pub decode_var_int-var_int_reference :
    (input : List ℕ)
    → All (λ byte. byte < 256) input
    → decode_var_int input ≡ var_int_reference input
unfolding decode_var_int var_int_reference signed_result read_word
decode_var_int-var_int_reference input bytes =
    ground (arith, decode_groups-read_word 5 0 0 input input refl (omega arith) bytes)
