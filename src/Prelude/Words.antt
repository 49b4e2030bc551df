-- ===== src/Prelude/Words.antt =====
-- Machine words: an unsigned word is a native number below its modulus, a signed one is an integer,
-- and `as` casts go through two's complement. Byte strings are lists of numbers below 256.
use mathlib.Core.List.{reverse, reverse_aux, reverse-reverse}
use native.Mathlib.Nat.{pow-suc, mod-eq_of_lt}
use rustbound_server.Prelude.{
  ℕ, zero, suc, ◌+◌, ◌-◌, ◌*◌, ◌/◌, ◌%◌, ◌^◌, ◌<◌, ◌≡◌, refl, ap, ◌∙◌, arith, ltb, if◌then◌else◌,
  List, [], ◌∷◌, length, Option, none, some,
}
use rustbound_server.Prelude.Int.{ℤ, pos, negsuc}

-- `value as uW`, for the modulus `m` that is 2 ^ W.
unfoldable pub as_unsigned : ℕ → ℤ → ℕ
as_unsigned m (pos n) = n % m
as_unsigned m (negsuc n) = m - 1 - n % m

-- `bits as iW`, for `h` that is 2 ^ (W - 1) and `bits` below 2 * h.
unfoldable pub as_signed : ℕ → ℕ → ℤ
as_signed h b = if ltb b h then pos b else negsuc (h + h - 1 - b)

-- The values of a signed word with 2 * h patterns.
abbrev pub IsSigned : ℕ → ℤ → Type 0
IsSigned h (pos n) = n < h
IsSigned h (negsuc n) = n < h

abbrev pub IsI8 : ℤ → Type 0
IsI8 = IsSigned (2 ^ 7)

abbrev pub IsI16 : ℤ → Type 0
IsI16 = IsSigned (2 ^ 15)

abbrev pub IsI32 : ℤ → Type 0
IsI32 = IsSigned (2 ^ 31)

abbrev pub IsI64 : ℤ → Type 0
IsI64 = IsSigned (2 ^ 63)

abbrev pub IsByte : ℕ → Type 0
IsByte b = b < 256

pub as_signed-as_unsigned : (h : ℕ) (v : ℤ) → IsSigned h v → as_signed h (as_unsigned (h + h) v) ≡ v
unfolding as_signed as_unsigned
as_signed-as_unsigned h (pos n) p = ground (arith, mod-eq_of_lt {n = n} {m = h + h} (omega arith))
as_signed-as_unsigned h (negsuc n) p =
    ground (arith, mod-eq_of_lt {n = n} {m = h + h} (omega arith))

pub as_unsigned-lt : (m : ℕ) (v : ℤ) → 0 < m → as_unsigned m v < m
unfolding as_unsigned
as_unsigned-lt m (pos n) p = omega arith
as_unsigned-lt m (negsuc n) p = omega arith

pub as_signed-IsSigned : (h b : ℕ) → b < h + h → IsSigned h (as_signed h b)
unfolding as_signed
as_signed-IsSigned h b p = ground arith

pub as_unsigned-as_signed : (h b : ℕ) → b < h + h → as_unsigned (h + h) (as_signed h b) ≡ b
unfolding as_signed as_unsigned
as_unsigned-as_signed h b p = grind arith

-- A non-negative value below the half is its own pattern.
pub as_signed_small : (h b : ℕ) → b < h → as_signed h b ≡ pos b
unfolding as_signed
as_signed_small h b p = ground arith

-- `to_le_bytes` of an n-byte word, and its inverse.
unfoldable pub to_le_bytes : ℕ → ℕ → List ℕ
to_le_bytes zero v = []
to_le_bytes (suc n) v = (v % 256) ∷ to_le_bytes n (v / 256)

unfoldable pub from_le_bytes : List ℕ → ℕ
from_le_bytes [] = 0
from_le_bytes (b ∷ bs) = b + 256 * from_le_bytes bs

-- `to_be_bytes` and `from_be_bytes`: the same bytes, most significant first.
unfoldable pub to_be_bytes : ℕ → ℕ → List ℕ
unfolding to_le_bytes
to_be_bytes n v = reverse (to_le_bytes n v)

unfoldable pub from_be_bytes : List ℕ → ℕ
unfolding from_le_bytes
from_be_bytes bs = from_le_bytes (reverse bs)

pub length-to_le_bytes : (n v : ℕ) → length (to_le_bytes n v) ≡ n
unfolding to_le_bytes
length-to_le_bytes zero v = refl
length-to_le_bytes (suc n) v = ap suc (length-to_le_bytes n (v / 256))

pub from_le_bytes-to_le_bytes : (n v : ℕ) → v < 256 ^ n → from_le_bytes (to_le_bytes n v) ≡ v
unfolding from_le_bytes to_le_bytes
from_le_bytes-to_le_bytes zero v h = omega arith
from_le_bytes-to_le_bytes (suc n) v h =
    omega
      (arith, pow-suc 256 n, from_le_bytes-to_le_bytes n (v / 256) (omega (arith, pow-suc 256 n)))

-- `usize::try_from` of a signed word, `i32::try_from` of a `usize`, and `checked_add` on `usize`.
unfoldable pub to_usize : ℤ → Option ℕ
to_usize (pos n) = some n
to_usize (negsuc n) = none

unfoldable pub to_i32 : ℕ → Option ℤ
to_i32 n = if ltb n (2 ^ 31) then some (pos n) else none

unfoldable pub checked_add : ℕ → ℕ → Option ℕ
checked_add a b = if ltb (a + b) (2 ^ 64) then some (a + b) else none

-- `value >> k` on a signed word rounds down; `value << k` on an `i64` wraps.
unfoldable pub shift_right : ℤ → ℕ → ℤ
shift_right (pos n) k = pos (n / 2 ^ k)
shift_right (negsuc n) k = negsuc (n / 2 ^ k)

unfoldable pub shift_left_i64 : ℤ → ℕ → ℤ
unfolding as_signed as_unsigned
shift_left_i64 v k = as_signed (2 ^ 63) (as_unsigned (2 ^ 64) v * 2 ^ k % 2 ^ 64)

-- `value as i32`.
unfoldable pub as_i32 : ℤ → ℤ
unfolding as_signed as_unsigned
as_i32 v = as_signed (2 ^ 31) (as_unsigned (2 ^ 32) v)

pub from_be_bytes-to_be_bytes : (n v : ℕ) → v < 256 ^ n → from_be_bytes (to_be_bytes n v) ≡ v
unfolding from_be_bytes to_be_bytes
from_be_bytes-to_be_bytes n v h =
    ap from_le_bytes (reverse-reverse (to_le_bytes n v)) ∙ from_le_bytes-to_le_bytes n v h

length-reverse : (xs ys : List ℕ) → length (reverse_aux xs ys) ≡ length xs + length ys
length-reverse [] ys = omega arith
length-reverse (x ∷ xs) ys = omega (arith, length-reverse xs (x ∷ ys))

pub length-to_be_bytes : (n v : ℕ) → length (to_be_bytes n v) ≡ n
unfolding to_be_bytes
length-to_be_bytes n v = omega (arith, length-reverse (to_le_bytes n v) [], length-to_le_bytes n v)
