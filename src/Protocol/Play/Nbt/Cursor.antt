-- ===== src/Protocol/Play/Nbt/Cursor.antt =====
-- A position in the input and what lies ahead of it, for proofs about the reader.
use native.Mathlib.Nat.{mod-eq_of_lt}
use rustbound_server.Prelude.{
  ℕ, zero, suc, ◌+◌, ◌*◌, ◌%◌, ◌^◌, ◌<◌, ◌≤◌, ◌≡◌, refl, ap, ◌∙◌, sym, arith, List, [], ◌∷◌, ◌++◌,
  length, take, drop, some, append_assoc, length-append,
}
use rustbound_server.Prelude.Int.{pos}
use rustbound_server.Prelude.Words.{
  as_unsigned, to_be_bytes, length-to_be_bytes, from_be_bytes-to_be_bytes, as_signed_small,
}
use rustbound_server.Prelude.Buffer.{success, split_front, split_front-append}
use rustbound_server.Protocol.Play.Nbt.{
  bytes_at, within, skip_nbt_name, skip_nbt_primitive, be_i32, skip_array, list_header,
}

-- The input is addressed by `usize`.
pub record Cursor (input : List ℕ) (at : ℕ) (rest : List ℕ) : Type 0 where
  pub ahead : drop at input ≡ rest
  pub inside : at + length rest ≡ length input
  pub addressed : length input < 2 ^ 63

drop_nil : (k : ℕ) → ◌≡◌ {A = List ℕ} (drop k []) []
drop_nil zero = refl
drop_nil (suc k) = refl

drop-drop : (n m : ℕ) (xs : List ℕ) → drop (n + m) xs ≡ drop m (drop n xs)
drop-drop zero m xs = ap (λ k. drop k xs) (omega arith)
drop-drop (suc n) m [] = drop_nil (suc n + m) ∙ sym (drop_nil m)
drop-drop (suc n) m (x ∷ xs) =
    let e : suc n + m ≡ suc (n + m) = omega arith in ap (λ k. drop k (x ∷ xs)) e ∙ drop-drop n m xs

pub drop-append : (xs ys : List ℕ) → drop (length xs) (xs ++ ys) ≡ ys
drop-append [] ys = refl
drop-append (x ∷ xs) ys = drop-append xs ys

pub take-append : (xs ys : List ℕ) → take (length xs) (xs ++ ys) ≡ xs
take-append [] ys = refl
take-append (x ∷ xs) ys = rw (take-append xs ys)

-- Past some bytes.
pub advance :
    (input : List ℕ) (at : ℕ) (bytes rest : List ℕ)
    → Cursor input at (bytes ++ rest)
    → Cursor input (at + length bytes) rest
advance input at bytes rest c = record {
  ahead = drop-drop at (length bytes) input ∙ rw (c.ahead) (drop-append bytes rest);
  inside = omega (arith, c.inside, length-append bytes rest);
  addressed = c.addressed;
}

pub bytes_at-Cursor :
    (input : List ℕ) (at n : ℕ) (bytes rest : List ℕ)
    → Cursor input at (bytes ++ rest)
    → length bytes ≡ n
    → bytes_at n input at ≡ some bytes
unfolding bytes_at
bytes_at-Cursor input at n bytes rest c size =
    let found : split_front n (drop at input) ≡ some (bytes, rest) =
      rw (c.ahead, ← size) (split_front-append bytes rest) in
    rw (found, bytes_at)

pub within-inside : (input : List ℕ) (at : ℕ) → at ≤ length input → within input at ≡ success at
unfolding within
within-inside input at h = ground arith

-- A 2-byte length and the bytes behind it.
unfoldable pub sized_bytes : List ℕ → List ℕ
sized_bytes bytes = to_be_bytes 2 (length bytes) ++ bytes

pub length-sized_bytes : (bytes : List ℕ) → length (sized_bytes bytes) ≡ 2 + length bytes
unfolding sized_bytes
length-sized_bytes bytes =
    omega (
      arith,
      length-append (to_be_bytes 2 (length bytes)) bytes,
      length-to_be_bytes 2 (length bytes),
    )

pub skip_nbt_name-sized_bytes :
    (input : List ℕ) (at : ℕ) (name rest : List ℕ)
    → length name < 2 ^ 16
    → Cursor input at (sized_bytes name ++ rest)
    → skip_nbt_name input at ≡ success (at + length (sized_bytes name))
unfolding skip_nbt_name sized_bytes
skip_nbt_name-sized_bytes input at name rest short c =
    let size = to_be_bytes 2 (length name) in
    let c' : Cursor input at (size ++ (name ++ rest)) = rw (← append_assoc size name rest) c in
    let found =
      bytes_at-Cursor input at 2 size (name ++ rest) c' (length-to_be_bytes 2 (length name)) in
    let total = length-append size name in
    let front = length-to_be_bytes 2 (length name) in
    ground (
      arith,
      found,
      from_be_bytes-to_be_bytes 2 (length name) (omega arith),
      c.inside,
      length-append size (name ++ rest),
      length-append name rest,
      append_assoc size name rest,
      total,
      front,
      within-inside input (at + 2 + length name),
    )

pub skip_nbt_primitive-Cursor :
    (input : List ℕ) (at size : ℕ) (bytes rest : List ℕ)
    → length bytes ≡ size
    → Cursor input at (bytes ++ rest)
    → skip_nbt_primitive size input at ≡ success (at + length bytes)
unfolding skip_nbt_primitive
skip_nbt_primitive-Cursor input at size bytes rest e c =
    rw e (within-inside input (at + size) (omega (arith, c.inside, length-append bytes rest, e)))

pub be_i32-to_be_bytes : (n : ℕ) → n < 2 ^ 31 → be_i32 (to_be_bytes 4 n) ≡ pos n
unfolding be_i32
be_i32-to_be_bytes n h =
    rw (from_be_bytes-to_be_bytes 4 n (omega arith)) (as_signed_small (2 ^ 31) n h)

-- A 4-byte count and the bytes of the items.
unfoldable pub counted_bytes : ℕ → List ℕ → List ℕ
counted_bytes n bytes = to_be_bytes 4 n ++ bytes

pub length-counted_bytes :
    (n : ℕ) (bytes : List ℕ) → length (counted_bytes n bytes) ≡ 4 + length bytes
unfolding counted_bytes
length-counted_bytes n bytes =
    omega (arith, length-append (to_be_bytes 4 n) bytes, length-to_be_bytes 4 n)

pub skip_array-counted_bytes :
    (input : List ℕ) (at width n : ℕ) (bytes rest : List ℕ)
    → n < 2 ^ 31
    → width ≤ 8
    → length bytes ≡ n * width
    → Cursor input at (counted_bytes n bytes ++ rest)
    → skip_array width input at ≡ success (at + length (counted_bytes n bytes))
unfolding skip_array counted_bytes as_unsigned
skip_array-counted_bytes input at width n bytes rest short narrow size c =
    let front = to_be_bytes 4 n in
    let c' : Cursor input at (front ++ (bytes ++ rest)) = rw (← append_assoc front bytes rest) c in
    let total : at + (4 + length bytes) + length rest ≡ length input = omega (
      arith,
      c.inside,
      length-append (front ++ bytes) rest,
      length-append front bytes,
      length-to_be_bytes 4 n,
    ) in
    let wraps : (at + 4 + n % 2 ^ 64 * width % 2 ^ 64) % 2 ^ 64 ≡ at + length (front ++ bytes) =
      rw (mod-eq_of_lt {n = n} {m = 2 ^ 64} (omega arith)) (
        rw (← size) (
          rw (mod-eq_of_lt {n = length bytes} {m = 2 ^ 64} (omega (arith, c.addressed))) (
            mod-eq_of_lt {n = at + 4 + length bytes} {m = 2 ^ 64} (omega (arith, c.addressed))
            ∙ omega (arith, length-append front bytes, length-to_be_bytes 4 n)))) in
    ground (
      arith,
      bytes_at-Cursor input at 4 front (bytes ++ rest) c' (length-to_be_bytes 4 n),
      be_i32-to_be_bytes n short,
      wraps,
      within-inside input (at + length (front ++ bytes))
          (omega (arith, length-append front bytes, length-to_be_bytes 4 n)),
    )

pub list_header-bytes :
    (input : List ℕ) (at element_type n : ℕ) (rest : List ℕ)
    → n < 2 ^ 31
    → Cursor input at ((element_type ∷ to_be_bytes 4 n) ++ rest)
    → list_header input at ≡ some (element_type, n)
unfolding list_header
list_header-bytes input at element_type n rest short c = ground (
  arith,
  bytes_at-Cursor input at 5 (element_type ∷ to_be_bytes 4 n) rest c
      (omega (arith, length-to_be_bytes 4 n)),
  be_i32-to_be_bytes n short,
)
