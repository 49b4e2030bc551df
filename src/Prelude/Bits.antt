-- ===== src/Prelude/Bits.antt =====
-- Bit masks and the joining of bit fields, as arithmetic.
use Prim.Native.Nat.{
  ℕ, zero, suc, ◌+◌, ◌-◌, ◌*◌, ◌/◌, ◌%◌, ◌^◌, ◌≤◌, ◌<◌, min, max, bit_and, bit_or, digits,
  bit_and-bitwise, bit_or-bitwise,
}
use mathlib.Core.Path.{◌≡◌, refl, sym, ap, ◌∙◌}
use native.Mathlib.Nat.{
  pow-suc, mul_assoc, mul_comm, one-le-pow, div-add-mod, div-div-eq-div-mul, mod-lt, mod-eq_of_lt,
  mul-add-mod_self_left,
}
use mathlib.Core.Bool.{Bool, true, ◌&&◌}
use native.Mathlib.Omega.{arith}
use rustbound_server.Prelude.{◌==◌}

-- The native operations run down the binary digits of their first argument; `off` is what stands
-- where it has none left, `pick` joins two digits. Any fuel that bounds the argument will do.
module _ (off : ℕ → ℕ) (pick : ℕ → ℕ → ℕ) where
  digits_enough :
      (a less more b : ℕ)
      → a ≤ less
      → less ≤ more
      → digits off pick less a b ≡ digits off pick more a b
  digits_enough zero zero zero b h g = refl
  digits_enough zero zero (suc more) b h g = refl
  digits_enough zero (suc less) zero b h g = refl
  digits_enough zero (suc less) (suc more) b h g = refl
  digits_enough (suc a) zero more b h g = absurd (omega arith)
  digits_enough (suc a) (suc less) zero b h g = absurd (omega arith)
  digits_enough (suc a) (suc less) (suc more) b h g =
      let halves = digits_enough (suc a / 2) less more (b / 2) (omega arith) (omega arith) in
      ap (λ d. d * 2 + pick (suc a % 2) (b % 2)) halves

  -- The lowest digits and the halves.
  digits_halved :
      (a b : ℕ)
      → digits off pick (suc a) (suc a) b
        ≡ digits off pick (suc a / 2) (suc a / 2) (b / 2) * 2 + pick (suc a % 2) (b % 2)
  digits_halved a b =
      let shorter = digits_enough (suc a / 2) (suc a / 2) a (b / 2) (omega arith) (omega arith) in
      ap (λ d. d * 2 + pick (suc a % 2) (b % 2)) (sym shorter)

no_bits_and : (b : ℕ) → bit_and 0 b ≡ 0
no_bits_and b = bit_and-bitwise 0 b

no_bits_or : (b : ℕ) → bit_or 0 b ≡ b
no_bits_or b = bit_or-bitwise 0 b

halved_and : (a b : ℕ) → bit_and a b ≡ bit_and (a / 2) (b / 2) * 2 + min (a % 2) (b % 2)
halved_and zero b = ground (arith, no_bits_and b, no_bits_and (b / 2))
halved_and (suc a) b =
    bit_and-bitwise (suc a) b
    ∙ digits_halved (λ b. zero) min a b
    ∙ ap (λ d. d * 2 + min (suc a % 2) (b % 2)) (sym (bit_and-bitwise (suc a / 2) (b / 2)))

halved_or : (a b : ℕ) → bit_or a b ≡ bit_or (a / 2) (b / 2) * 2 + max (a % 2) (b % 2)
halved_or zero b = ground (arith, no_bits_or b, no_bits_or (b / 2))
halved_or (suc a) b =
    bit_or-bitwise (suc a) b
    ∙ digits_halved (λ b. b) max a b
    ∙ ap (λ d. d * 2 + max (suc a % 2) (b % 2)) (sym (bit_or-bitwise (suc a / 2) (b / 2)))

or_double : (a c : ℕ) → bit_or a (c * 2) ≡ bit_or (a / 2) c * 2 + a % 2
or_double a c =
    let half : c * 2 / 2 ≡ c = omega arith in
    omega (arith, halved_or a (c * 2), ap (λ (t : ℕ). bit_or (a / 2) t) half)

and_double : (a c : ℕ) → bit_and a (suc (c * 2)) ≡ bit_and (a / 2) c * 2 + a % 2
and_double a c =
    let half : suc (c * 2) / 2 ≡ c = omega arith in
    omega (arith, halved_and a (suc (c * 2)), ap (λ (t : ℕ). bit_and (a / 2) t) half)

double : (b k : ℕ) → b * 2 ^ suc k ≡ b * 2 ^ k * 2
double b k = omega (arith, ap (λ (t : ℕ). b * t) (pow-suc 2 k), mul_assoc b (2 ^ k) 2)

-- Joining a field to bits that lie wholly below it is addition.
pub bit_or-above : (k a b : ℕ) → a < 2 ^ k → bit_or a (b * 2 ^ k) ≡ a + b * 2 ^ k
bit_or-above zero zero b h = omega (arith, no_bits_or (b * 1))
bit_or-above zero (suc a) b h = absurd (omega arith)
bit_or-above (suc k) a b h =
    rw (double b k) (
      omega (arith, or_double a (b * 2 ^ k), bit_or-above k (a / 2) b (omega (arith, pow-suc 2 k))))

-- By halving, under a bound that shrinks.
clear_mask : (bound a : ℕ) → a ≤ bound → bit_and a 0 ≡ 0
clear_mask bound zero h = no_bits_and 0
clear_mask zero (suc a) h = absurd (omega arith)
clear_mask (suc bound) (suc a) h =
    let half = clear_mask bound (suc a / 2) (omega arith) in
    omega (arith, half, halved_and (suc a) 0)

mod_double : (a k : ℕ) → a % 2 ^ suc k ≡ a / 2 % 2 ^ k * 2 + a % 2
mod_double a k =
    let low : ℕ = a / 2 % 2 ^ k * 2 + a % 2 in
    let split : a ≡ 2 ^ suc k * (a / 2 / 2 ^ k) + low = omega (
      arith,
      div-add-mod (a / 2) (2 ^ k),
      double (a / 2 / 2 ^ k) k,
      mul_comm (2 ^ suc k) (a / 2 / 2 ^ k),
      mul_comm (2 ^ k) (a / 2 / 2 ^ k),
    ) in
    let fits : low < 2 ^ suc k =
      omega (arith, pow-suc 2 k, mod-lt (a / 2) (one-le-pow k 2 (omega arith))) in
    ap (λ (t : ℕ). t % 2 ^ suc k) split
    ∙ mul-add-mod_self_left (2 ^ suc k) (a / 2 / 2 ^ k) low
    ∙ mod-eq_of_lt fits

-- A mask of k ones keeps the remainder by 2 ^ k.
pub bit_and_mask : (k a : ℕ) → bit_and a (2 ^ k - 1) ≡ a % 2 ^ k
bit_and_mask zero a = omega (arith, clear_mask a a (omega arith))
bit_and_mask (suc k) a =
    let mask : 2 ^ suc k - 1 ≡ suc ((2 ^ k - 1) * 2) =
      omega (arith, pow-suc 2 k, one-le-pow k 2 (omega arith)) in
    rw mask (omega (arith, and_double a (2 ^ k - 1), bit_and_mask k (a / 2), mod_double a k))

clear_field : (bound a : ℕ) → a ≤ bound → bit_or a 0 ≡ a
clear_field bound zero h = no_bits_or 0
clear_field zero (suc a) h = absurd (omega arith)
clear_field (suc bound) (suc a) h =
    let half = clear_field bound (suc a / 2) (omega arith) in
    omega (arith, half, halved_or (suc a) 0)

double_or : (c a : ℕ) → bit_or (c * 2) a ≡ bit_or c (a / 2) * 2 + a % 2
double_or c a =
    let half : c * 2 / 2 ≡ c = omega arith in
    omega (arith, halved_or (c * 2) a, ap (λ (t : ℕ). bit_or t (a / 2)) half)

pub bit_or-below : (k b a : ℕ) → a < 2 ^ k → bit_or (b * 2 ^ k) a ≡ b * 2 ^ k + a
bit_or-below zero b zero h = omega (arith, clear_field (b * 1) (b * 1) (omega arith))
bit_or-below zero b (suc a) h = absurd (omega arith)
bit_or-below (suc k) b a h =
    rw (double b k) (
      omega (arith, double_or (b * 2 ^ k) a, bit_or-below k b (a / 2) (omega (arith, pow-suc 2 k))))

and_even : (a c : ℕ) → bit_and a (c * 2) ≡ bit_and (a / 2) c * 2
and_even a c =
    let half : c * 2 / 2 ≡ c = omega arith in
    omega (arith, halved_and a (c * 2), ap (λ (t : ℕ). bit_and (a / 2) t) half)

-- A mask whose low k bits are clear tests the quotient by 2 ^ k.
pub bit_and-above : (k a c : ℕ) → bit_and a (c * 2 ^ k) ≡ bit_and (a / 2 ^ k) c * 2 ^ k
bit_and-above zero a c =
    let same : c * 1 ≡ c = omega arith in
    let whole : a / 1 ≡ a = omega arith in rw (same, whole) (omega arith)
bit_and-above (suc k) a c =
    let deeper : a / 2 / 2 ^ k ≡ a / 2 ^ suc k =
      div-div-eq-div-mul a 2 (2 ^ k) ∙ ap (λ (t : ℕ). a / t) (omega (arith, pow-suc 2 k)) in
    rw (double c k) (
      omega (
        arith,
        and_even a (c * 2 ^ k),
        bit_and-above k (a / 2) c,
        ap (λ (t : ℕ). bit_and t c * 2 ^ k) deeper,
        double (bit_and (a / 2 ^ suc k) c) k,
      ))

pub bit_or-lt : (k a b : ℕ) → a < 2 ^ k → b < 2 ^ k → bit_or a b < 2 ^ k
bit_or-lt zero zero b h g = omega (arith, no_bits_or b)
bit_or-lt zero (suc a) b h g = absurd (omega arith)
bit_or-lt (suc k) a b h g = omega (
  arith,
  halved_or a b,
  pow-suc 2 k,
  bit_or-lt k (a / 2) (b / 2) (omega (arith, pow-suc 2 k)) (omega (arith, pow-suc 2 k)),
)

-- Two functions that evaluation finds equal at every argument under a bound.
agree_below : (ℕ → ℕ) → (ℕ → ℕ) → ℕ → Bool
agree_below f g zero = true
agree_below f g (suc n) = (f n == g n) && agree_below f g n

agree_below-eq : (f g : ℕ → ℕ) (n k : ℕ) → k < n → agree_below f g n ≡ true → f k ≡ g k
unfolding agree_below
agree_below-eq f g zero k h e = absurd (omega arith)
agree_below-eq f g (suc n) k h e = ground (arith, agree_below-eq f g n k)

-- The top bit of a byte.
pub bit_and_top : (b : ℕ) → b < 256 → bit_and b 0x80 ≡ b / 128 * 128
unfolding agree_below
bit_and_top b h = agree_below-eq (λ x. bit_and x 0x80) (λ x. x / 128 * 128) 256 b h refl

-- Setting the top bit of a group of seven.
pub bit_or_top : (b : ℕ) → b < 128 → bit_or b 0x80 ≡ b + 128
bit_or_top b h = bit_or-above 7 b 1 h
