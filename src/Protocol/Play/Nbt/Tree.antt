-- ===== src/Protocol/Play/Nbt/Tree.antt =====
-- NBT values as trees, with the bytes that the format gives them. TAG_Byte_Array has no node here:
-- the reader does not read its format.
use rustbound_server.Prelude.{ℕ, suc, ◌+◌, ◌*◌, ◌^◌, ◌<◌, ◌≡◌, List, [], ◌∷◌, ◌++◌, length}
use rustbound_server.Prelude.Words.{to_be_bytes}
use rustbound_server.Protocol.Play.Nbt.Cursor.{sized_bytes, counted_bytes}

-- The numbers: TAG_Byte, TAG_Short, TAG_Int, TAG_Long, TAG_Float and TAG_Double.
pub data NumberTag : Type 0 where
  byte short int long float double : NumberTag

abbrev pub number_tag : NumberTag → ℕ
number_tag byte = 1
number_tag short = 2
number_tag int = 3
number_tag long = 4
number_tag float = 5
number_tag double = 6

abbrev pub number_size : NumberTag → ℕ
number_size byte = 1
number_size short = 2
number_size int = 4
number_size long = 8
number_size float = 4
number_size double = 8

mutual
  pub data Nbt : Type 0 where
    number : NumberTag → List ℕ → Nbt
    text : List ℕ → Nbt
    items : ℕ → NbtItems → Nbt
    compound : NbtEntries → Nbt
    ints : ℕ → List ℕ → Nbt
    longs : ℕ → List ℕ → Nbt

  pub data NbtItems : Type 0 where
    nil : NbtItems
    item : Nbt → NbtItems → NbtItems

  pub data NbtEntries : Type 0 where
    done : NbtEntries
    entry : List ℕ → Nbt → NbtEntries → NbtEntries

abbrev pub tag : Nbt → ℕ
tag (number t bytes) = number_tag t
tag (text bytes) = 8
tag (items element_type xs) = 9
tag (compound es) = 10
tag (ints n bytes) = 11
tag (longs n bytes) = 12

abbrev pub count : NbtItems → ℕ
count nil = 0
count (item x xs) = suc (count xs)

-- The bytes behind the tag and the name.
unfoldable mutual
  pub payload_bytes : Nbt → List ℕ
  payload_bytes (number t bytes) = bytes
  payload_bytes (text bytes) = sized_bytes bytes
  payload_bytes (items element_type xs) =
      (element_type ∷ to_be_bytes 4 (count xs)) ++ items_bytes xs
  payload_bytes (compound es) = entries_bytes es
  payload_bytes (ints n bytes) = counted_bytes n bytes
  payload_bytes (longs n bytes) = counted_bytes n bytes

  pub items_bytes : NbtItems → List ℕ
  items_bytes nil = []
  items_bytes (item x xs) = payload_bytes x ++ items_bytes xs

  pub entries_bytes : NbtEntries → List ℕ
  entries_bytes done = 0 ∷ []
  entries_bytes (entry name x es) =
      (tag x ∷ []) ++ (sized_bytes name ++ (payload_bytes x ++ entries_bytes es))

-- A compound with its tag and its name.
unfoldable pub compound_bytes : List ℕ → NbtEntries → List ℕ
unfolding entries_bytes
compound_bytes name es = (10 ∷ []) ++ (sized_bytes name ++ entries_bytes es)

-- Sizes that their fields can hold, and one tag for the items of a list.
unfoldable mutual
  pub IsNbt : Nbt → Type 0
  IsNbt (number t bytes) = length bytes ≡ number_size t
  IsNbt (text bytes) = length bytes < 2 ^ 16
  IsNbt (items element_type xs) = (count xs < 2 ^ 31) × AreNbt element_type xs
  IsNbt (compound es) = AreEntries es
  IsNbt (ints n bytes) = (n < 2 ^ 31) × (length bytes ≡ n * 4)
  IsNbt (longs n bytes) = (n < 2 ^ 31) × (length bytes ≡ n * 8)

  pub AreNbt : ℕ → NbtItems → Type 0
  AreNbt element_type nil = Unit {0}
  AreNbt element_type (item x xs) = (tag x ≡ element_type) × IsNbt x × AreNbt element_type xs

  pub AreEntries : NbtEntries → Type 0
  AreEntries done = Unit {0}
  AreEntries (entry name x es) = (length name < 2 ^ 16) × IsNbt x × AreEntries es

-- The fuel that the reader needs for it.
unfoldable mutual
  pub size : Nbt → ℕ
  size (number t bytes) = 1
  size (text bytes) = 1
  size (items element_type xs) = suc (size_items xs)
  size (compound es) = suc (size_entries es)
  size (ints n bytes) = 1
  size (longs n bytes) = 1

  pub size_items : NbtItems → ℕ
  size_items nil = 0
  size_items (item x xs) = suc (size x + size_items xs)

  pub size_entries : NbtEntries → ℕ
  size_entries done = 1
  size_entries (entry name x es) = suc (size x + size_entries es)
