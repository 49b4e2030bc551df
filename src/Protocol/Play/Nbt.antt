-- ===== src/Protocol/Play/Nbt.antt =====
-- play.rs: the NBT reader that finds the end of an item's or a chunk's compound. It moves a position
-- over the whole input; `usize` wraps at 2 ^ 64, as in a release build. The loops and the recursion
-- run on fuel, and the end of the fuel is a failure of its own.
pub mod Cursor
pub mod Tree
pub mod Read
pub mod Loop
pub mod Slot
use rustbound_server.Prelude.{
  ℕ, zero, suc, ◌+◌, ◌*◌, ◌%◌, ◌^◌, List, [], ◌∷◌, length, take, drop, ltb, ◌==◌, if◌then◌else◌,
  Option, none, some, Bool, true, false,
}
use rustbound_server.Prelude.Int.{ℤ, pos, negsuc}
use rustbound_server.Prelude.Words.{as_signed, as_unsigned, from_be_bytes}
use rustbound_server.Prelude.Buffer.{
  Outcome, Action, ok, err, Result, success, failure, split_front,
}
use rustbound_server.Protocol.Primitives.{CodecError, incomplete_input, invalid_boolean}

-- A failure of the code, or the end of the model's fuel.
pub data Fuelled {ℓ} (E : Type ℓ) : Type ℓ where
  failed : E → Fuelled E
  unfinished : Fuelled E

-- The position behind what was read.
abbrev pub Step : Type 0
Step = Result (Fuelled CodecError) ℕ

abbrev pub refuse : CodecError → Step
refuse e = failure (failed e)

abbrev pub followed_by : Step → (ℕ → Step) → Step
followed_by (success at) next = next at
followed_by (failure e) next = failure e

-- `if *pos + n > data.len()`, and otherwise the n bytes at the position.
unfoldable pub bytes_at : ℕ → List ℕ → ℕ → Option (List ℕ)
bytes_at n data_ at = elim (split_front n (drop at data_)) [
  | none ↦ none
  | some (bytes, _) ↦ some bytes
]

-- `if *pos > data.len()`.
unfoldable pub within : List ℕ → ℕ → Step
within data_ at = if ltb (length data_) at then refuse incomplete_input else success at

-- A 2-byte length and as many bytes: the name of an entry, and a string.
unfoldable pub skip_nbt_name : List ℕ → ℕ → Step
unfolding bytes_at within
skip_nbt_name data_ at = elim (bytes_at 2 data_ at) [
  | none ↦ refuse incomplete_input
  | some bytes ↦ within data_ (at + 2 + from_be_bytes bytes)
]

-- What a tag's payload is. The tags 1 to 7 have a fixed size in this reader.
pub data Kind : Type 0 where
  end_kind string_kind list_kind compound_kind unknown_kind : Kind
  fixed_kind : ℕ → Kind
  array_kind : ℕ → Kind

unfoldable pub kind_of : ℕ → Kind
kind_of tag =
    if tag == 0
    then end_kind
    else if tag == 1
    then fixed_kind 1
    else if tag == 2
    then fixed_kind 2
    else if tag == 3
    then fixed_kind 4
    else if tag == 4
    then fixed_kind 8
    else if tag == 5
    then fixed_kind 4
    else if tag == 6
    then fixed_kind 8
    else if tag == 7
    then fixed_kind 4
    else if tag == 8
    then string_kind
    else if tag == 9
    then list_kind
    else if tag == 10
    then compound_kind
    else if tag == 11
    then array_kind 4
    else if tag == 12
    then array_kind 8
    else if tag == 13
    then array_kind 1
    else unknown_kind

-- The tags 1 to 7: `*pos += size`. The tag 8 is `skip_nbt_name`'s format.
unfoldable pub skip_nbt_primitive : ℕ → List ℕ → ℕ → Step
unfolding within
skip_nbt_primitive size data_ at = within data_ (at + size)

-- `i32::from_be_bytes`.
unfoldable pub be_i32 : List ℕ → ℤ
be_i32 bytes = as_signed (2 ^ 31) (from_be_bytes bytes)

-- A 4-byte length and as many items of one width: `*pos += (length as usize) * width`.
unfoldable pub skip_array : ℕ → List ℕ → ℕ → Step
unfolding bytes_at within be_i32
skip_array width data_ at = elim (bytes_at 4 data_ at) [
  | none ↦ refuse incomplete_input
  | some bytes ↦
      within data_ ((at + 4 + as_unsigned (2 ^ 64) (be_i32 bytes) * width % 2 ^ 64) % 2 ^ 64)
]

-- `for _ in 0..length` runs no round for a negative length.
abbrev pub rounds : ℤ → ℕ
rounds (pos n) = n
rounds (negsuc _) = 0

-- The element type and the number of rounds at the head of a list.
unfoldable pub list_header : List ℕ → ℕ → Option (ℕ × ℕ)
unfolding bytes_at be_i32
list_header data_ at = elim (bytes_at 5 data_ at) [
  | none ↦ none
  | some [] ↦ none
  | some (element_type ∷ bytes) ↦ some (element_type, rounds (be_i32 bytes))
]

unfoldable mutual
  unfolding kind_of list_header skip_nbt_name skip_nbt_primitive skip_array

  -- The match on a tag, which `parse_nbt_payload_inner` and `parse_nbt_list_element` share.
  pub parse_nbt_payload_inner : ℕ → ℕ → List ℕ → ℕ → Step
  parse_nbt_payload_inner zero tag data_ at = failure unfinished
  parse_nbt_payload_inner (suc fuel) tag data_ at = elim (kind_of tag) [
    | end_kind ↦ success at
    | fixed_kind size ↦ skip_nbt_primitive size data_ at
    | string_kind ↦ skip_nbt_name data_ at
    | list_kind ↦ elim (list_header data_ at) [
      | none ↦ refuse incomplete_input
      | some (element_type, n) ↦ parse_nbt_elements fuel element_type n data_ (at + 5)
    ]
    | compound_kind ↦ parse_nbt_compound fuel data_ at
    | array_kind width ↦ skip_array width data_ at
    | unknown_kind ↦ refuse invalid_boolean
  ]

  pub parse_nbt_elements : ℕ → ℕ → ℕ → List ℕ → ℕ → Step
  parse_nbt_elements fuel element_type zero data_ at = success at
  parse_nbt_elements zero element_type (suc n) data_ at = failure unfinished
  parse_nbt_elements (suc fuel) element_type (suc n) data_ at =
      followed_by (parse_nbt_payload_inner fuel element_type data_ at)
        (λ later. parse_nbt_elements fuel element_type n data_ later)

  -- `loop`: entries up to the end tag.
  pub parse_nbt_compound : ℕ → List ℕ → ℕ → Step
  parse_nbt_compound zero data_ at = failure unfinished
  parse_nbt_compound (suc fuel) data_ at = elim (drop at data_) [
    | [] ↦ refuse incomplete_input
    | child_type ∷ _ ↦ elim (child_type == 0) [
      | true ↦ success (at + 1)
      | false ↦ followed_by (skip_nbt_name data_ (at + 1)) (λ named.
          followed_by (parse_nbt_payload_inner fuel child_type data_ named)
            (λ later. parse_nbt_compound fuel data_ later))
    ]
  ]

abbrev pub parse_nbt_list_element : ℕ → ℕ → List ℕ → ℕ → Step
parse_nbt_list_element = parse_nbt_payload_inner

-- The tag, the name but for the end tag, and what the tag announces.
unfoldable pub parse_nbt_payload : ℕ → List ℕ → ℕ → Step
unfolding parse_nbt_payload_inner kind_of skip_nbt_name
parse_nbt_payload fuel data_ at = elim (drop at data_) [
  | [] ↦ refuse incomplete_input
  | tag_type ∷ _ ↦ elim (kind_of tag_type) [
    | end_kind ↦ success (at + 1)
    | unknown_kind ↦ refuse invalid_boolean
    | _ ↦
        followed_by (skip_nbt_name data_ (at + 1))
          (λ named. parse_nbt_payload_inner fuel tag_type data_ named)
  ]
]

-- `nbt_bytes` and `*input = &start[pos..]`.
unfoldable pub split_at : List ℕ → Step → Outcome (Fuelled CodecError) (List ℕ)
split_at input (success at) = ok (take at input) (drop at input)
split_at input (failure e) = err e input

unfoldable pub read_nbt_compound : ℕ → Action (Fuelled CodecError) (List ℕ)
unfolding parse_nbt_payload split_at
read_nbt_compound fuel [] = err (failed incomplete_input) []
read_nbt_compound fuel (tag_type ∷ input) =
    if tag_type == 10
    then split_at (tag_type ∷ input) (parse_nbt_payload fuel (tag_type ∷ input) 0)
    else err (failed invalid_boolean) (tag_type ∷ input)
