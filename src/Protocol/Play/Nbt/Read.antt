-- ===== src/Protocol/Play/Nbt/Read.antt =====
-- The reader finds the end of every well-formed compound.
use mathlib.Core.Path.{subst}
use rustbound_server.Prelude.{
  ℕ, zero, suc, ◌+◌, ◌^◌, ◌<◌, ◌≤◌, ◌≡◌, refl, ap, ◌∙◌, arith, List, [], ◌∷◌, ◌++◌, length,
  append_assoc, length-append, false, ◌==◌,
}
use rustbound_server.Prelude.Words.{to_be_bytes, length-to_be_bytes}
use rustbound_server.Prelude.Buffer.{ok, success}
use rustbound_server.Protocol.Play.Nbt.{
  kind_of, parse_nbt_payload_inner, parse_nbt_elements, parse_nbt_compound, parse_nbt_payload,
  split_at, read_nbt_compound,
}
use rustbound_server.Protocol.Play.Nbt.Cursor.{
  Cursor, advance, drop-append, take-append, sized_bytes, skip_nbt_name-sized_bytes,
  skip_nbt_primitive-Cursor, skip_array-counted_bytes, list_header-bytes,
}
use rustbound_server.Protocol.Play.Nbt.Tree.{
  NumberTag, byte, short, int, long, float, double, number_tag, number_size, Nbt, NbtItems,
  NbtEntries, number, text, items, compound, ints, longs, nil, item, done, entry, tag, count,
  payload_bytes, items_bytes, entries_bytes, compound_bytes, IsNbt, AreNbt, AreEntries, size,
  size_items, size_entries,
}

some_tag : (x : Nbt) → (tag x == 0) ≡ false
some_tag (number byte bytes) = refl
some_tag (number short bytes) = refl
some_tag (number int bytes) = refl
some_tag (number long bytes) = refl
some_tag (number float bytes) = refl
some_tag (number double bytes) = refl
some_tag (text bytes) = refl
some_tag (items element_type xs) = refl
some_tag (compound es) = refl
some_tag (ints n bytes) = refl
some_tag (longs n bytes) = refl

number_read :
    (input : List ℕ) (at fuel : ℕ) (t : NumberTag) (bytes rest : List ℕ)
    → length bytes ≡ number_size t
    → Cursor input at (bytes ++ rest)
    → parse_nbt_payload_inner (suc fuel) (number_tag t) input at ≡ success (at + length bytes)
unfolding parse_nbt_payload_inner kind_of
number_read input at fuel byte bytes rest h c = skip_nbt_primitive-Cursor input at 1 bytes rest h c
number_read input at fuel short bytes rest h c = skip_nbt_primitive-Cursor input at 2 bytes rest h c
number_read input at fuel int bytes rest h c = skip_nbt_primitive-Cursor input at 4 bytes rest h c
number_read input at fuel long bytes rest h c = skip_nbt_primitive-Cursor input at 8 bytes rest h c
number_read input at fuel float bytes rest h c = skip_nbt_primitive-Cursor input at 4 bytes rest h c
number_read input at fuel double bytes rest h c =
    skip_nbt_primitive-Cursor input at 8 bytes rest h c

-- Behind the tag and the name of an entry.
entry_named :
    (input : List ℕ) (at : ℕ) (t : ℕ) (name behind rest : List ℕ)
    → Cursor input at (((t ∷ []) ++ (sized_bytes name ++ behind)) ++ rest)
    → Cursor input (at + 1) (sized_bytes name ++ (behind ++ rest))
entry_named input at t name behind rest c =
    rw (← append_assoc (sized_bytes name) behind rest)
      (advance input at (t ∷ []) ((sized_bytes name ++ behind) ++ rest) c)

value_ahead :
    (input : List ℕ) (at : ℕ) (t : ℕ) (name behind rest : List ℕ)
    → Cursor input at (((t ∷ []) ++ (sized_bytes name ++ behind)) ++ rest)
    → Cursor input (at + 1 + length (sized_bytes name)) (behind ++ rest)
value_ahead input at t name behind rest c =
    advance input (at + 1) (sized_bytes name) (behind ++ rest)
      (entry_named input at t name behind rest c)

-- One entry in front of the others.
entry_read :
    (input : List ℕ) (at fuel : ℕ) (x : Nbt) (name bytes others rest : List ℕ)
    → length name < 2 ^ 16
    → Cursor input at (((tag x ∷ []) ++ (sized_bytes name ++ (bytes ++ others))) ++ rest)
    → parse_nbt_payload_inner fuel (tag x) input (at + 1 + length (sized_bytes name))
      ≡ success (at + 1 + length (sized_bytes name) + length bytes)
    → parse_nbt_compound fuel input (at + 1 + length (sized_bytes name) + length bytes)
      ≡ success (at + 1 + length (sized_bytes name) + length bytes + length others)
    → parse_nbt_compound (suc fuel) input at
      ≡ success (at + length ((tag x ∷ []) ++ (sized_bytes name ++ (bytes ++ others))))
unfolding parse_nbt_compound
entry_read input at fuel x name bytes others rest h c value later =
    let named = entry_named input at (tag x) name (bytes ++ others) rest c in
    ground (
      arith,
      c.ahead,
      some_tag x,
      skip_nbt_name-sized_bytes input (at + 1) name ((bytes ++ others) ++ rest) h named,
      value,
      later,
      length-append (sized_bytes name) (bytes ++ others),
      length-append bytes others,
    )

positive : (x : Nbt) → size x ≤ 0 → 1 ≤ 0
unfolding size
positive (number t bytes) h = omega arith
positive (text bytes) h = omega arith
positive (items element_type xs) h = omega arith
positive (compound es) h = omega arith
positive (ints n bytes) h = omega arith
positive (longs n bytes) h = omega arith

mutual
  unfolding parse_nbt_payload_inner payload_bytes IsNbt size

  value_read :
      (input : List ℕ) (at fuel : ℕ) (x : Nbt) (rest : List ℕ)
      → IsNbt x
      → size x ≤ fuel
      → Cursor input at (payload_bytes x ++ rest)
      → parse_nbt_payload_inner fuel (tag x) input at ≡ success (at + length (payload_bytes x))
  value_read input at zero x rest h f c = absurd (omega (arith, positive x f))
  value_read input at (suc fuel) (number t bytes) rest h f c =
      number_read input at fuel t bytes rest h c
  value_read input at (suc fuel) (text bytes) rest h f c =
      skip_nbt_name-sized_bytes input at bytes rest h c
  value_read input at (suc fuel) (items element_type xs) rest (brief, h) f c =
      let head = element_type ∷ to_be_bytes 4 (count xs) in
      let c' : Cursor input at (head ++ (items_bytes xs ++ rest)) =
        rw (← append_assoc head (items_bytes xs) rest) c in
      let size_head = length-to_be_bytes 4 (count xs) in
      let c5 : Cursor input (at + 5) (items_bytes xs ++ rest) =
        subst (λ k. Cursor input (at + k) (items_bytes xs ++ rest)) (omega arith)
          (advance input at head (items_bytes xs ++ rest) c') in
      ground (
        arith,
        list_header-bytes input at element_type (count xs) (items_bytes xs ++ rest) brief c',
        items_read input (at + 5) fuel element_type xs rest h (omega arith) c5,
        length-append head (items_bytes xs),
        size_head,
      )
  value_read input at (suc fuel) (compound es) rest h f c =
      entries_read input at fuel es rest h (omega arith) c
  value_read input at (suc fuel) (ints n bytes) rest (brief, e) f c =
      skip_array-counted_bytes input at 4 n bytes rest brief (omega arith) e c
  value_read input at (suc fuel) (longs n bytes) rest (brief, e) f c =
      skip_array-counted_bytes input at 8 n bytes rest brief (omega arith) e c

  items_read :
      (input : List ℕ) (at fuel element_type : ℕ) (xs : NbtItems) (rest : List ℕ)
      → AreNbt element_type xs
      → size_items xs ≤ fuel
      → Cursor input at (items_bytes xs ++ rest)
      → parse_nbt_elements fuel element_type (count xs) input at
        ≡ success (at + length (items_bytes xs))
  items_read input at fuel element_type nil rest h f c = ap success (omega arith)
  items_read input at zero element_type (item x xs) rest h f c = absurd (omega arith)
  items_read input at (suc fuel) element_type (item x xs) rest (same, h, hs) f c =
      let bytes = payload_bytes x in
      let c' : Cursor input at (bytes ++ (items_bytes xs ++ rest)) =
        rw (← append_assoc bytes (items_bytes xs) rest) c in
      ground (
        arith,
        same,
        value_read input at fuel x (items_bytes xs ++ rest) h (omega arith) c',
        items_read input (at + length bytes) fuel element_type xs rest hs (omega arith)
            (advance input at bytes (items_bytes xs ++ rest) c'),
        length-append bytes (items_bytes xs),
      )

  entries_read :
      (input : List ℕ) (at fuel : ℕ) (es : NbtEntries) (rest : List ℕ)
      → AreEntries es
      → size_entries es ≤ fuel
      → Cursor input at (entries_bytes es ++ rest)
      → parse_nbt_compound fuel input at ≡ success (at + length (entries_bytes es))
  entries_read input at zero done rest h f c = absurd (omega arith)
  entries_read input at zero (entry name x es) rest h f c = absurd (omega arith)
  entries_read input at (suc fuel) done rest h f c = ground (arith, c.ahead)
  entries_read input at (suc fuel) (entry name x es) rest (brief, h, hs) f c =
      let bytes = payload_bytes x in
      let behind = value_ahead input at (tag x) name (bytes ++ entries_bytes es) rest c in
      let from = at + 1 + length (sized_bytes name) in
      let c' : Cursor input from (bytes ++ (entries_bytes es ++ rest)) =
        rw (← append_assoc bytes (entries_bytes es) rest) behind in
      entry_read input at fuel x name bytes (entries_bytes es) rest brief c
        (value_read input from fuel x (entries_bytes es ++ rest) h (omega arith) c')
        (entries_read input (from + length bytes) fuel es rest hs (omega arith)
          (advance input from bytes (entries_bytes es ++ rest) c'))

compound_read :
    (input : List ℕ) (at fuel : ℕ) (es : NbtEntries) (rest : List ℕ)
    → AreEntries es
    → size (compound es) ≤ fuel
    → Cursor input at (entries_bytes es ++ rest)
    → parse_nbt_payload_inner fuel 10 input at ≡ success (at + length (entries_bytes es))
unfolding IsNbt payload_bytes
compound_read input at fuel es rest h enough c =
    value_read input at fuel (compound es) rest h enough c

payload_read :
    (fuel : ℕ) (name : List ℕ) (es : NbtEntries) (rest : List ℕ)
    → length name < 2 ^ 16
    → AreEntries es
    → size (compound es) ≤ fuel
    → length (((10 ∷ []) ++ (sized_bytes name ++ entries_bytes es)) ++ rest) < 2 ^ 63
    → parse_nbt_payload fuel (((10 ∷ []) ++ (sized_bytes name ++ entries_bytes es)) ++ rest) 0
      ≡ success (length ((10 ∷ []) ++ (sized_bytes name ++ entries_bytes es)))
unfolding parse_nbt_payload
payload_read fuel name es rest brief h enough addressed =
    let input = ((10 ∷ []) ++ (sized_bytes name ++ entries_bytes es)) ++ rest in
    let c : Cursor input 0 input = record {
      ahead = refl;
      inside = omega arith;
      addressed = addressed;
    } in
    let named = entry_named input 0 10 name (entries_bytes es) rest c in
    let behind = value_ahead input 0 10 name (entries_bytes es) rest c in
    let value =
      compound_read input (0 + 1 + length (sized_bytes name)) fuel es rest h enough behind in
    rw (skip_nbt_name-sized_bytes input 1 name (entries_bytes es ++ rest) brief named)
      (value ∙ ap success (omega (arith, length-append (sized_bytes name) (entries_bytes es))))

-- The bytes of a compound that holds no byte array at any depth, whose sizes fit their fields and
-- whose lists are each of one tag, are read to their end and no further, from an input shorter than
-- 2 ^ 63 bytes: the bytes come back whole, and what follows them stays in the input. As much fuel is
-- enough as the tree has parts.
pub read_nbt_compound-compound_bytes :
    (name : List ℕ) (es : NbtEntries) (rest : List ℕ) (fuel : ℕ)
    → length name < 2 ^ 16
    → AreEntries es
    → length (compound_bytes name es ++ rest) < 2 ^ 63
    → size (compound es) ≤ fuel
    → read_nbt_compound fuel (compound_bytes name es ++ rest) ≡ ok (compound_bytes name es) rest
unfolding read_nbt_compound compound_bytes
read_nbt_compound-compound_bytes name es rest fuel brief h addressed enough =
    let bytes = (10 ∷ []) ++ (sized_bytes name ++ entries_bytes es) in
    rw (payload_read fuel name es rest brief h enough addressed)
      (unfold split_at in rw (take-append bytes rest, drop-append bytes rest) refl)
